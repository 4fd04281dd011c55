-- ===== src/Auth/Server.antt =====
-- The clients of a server together, in libvncserver/rfbserver.c: they share the list of security handlers,
-- and one that does not share the screen closes the others or is closed itself.
use libvncserver.Base.{
  ℕ, Bool, true, false, ◌&&◌, ◌||◌, if◌then◌else◌, ◌≡◌, List, [], ◌∷◌, ◌++◌, map, none, some,
}
use libvncserver.Auth.Registry.{Registry}
use libvncserver.Auth.Session.{
  protocol_version, normal, Client, Io, Server, Sharing, shares, refuses_itself, closes_others,
  close, process_message,
}

-- The list of handlers, and the clients.
pub record System : Type 0 where
  pub registry : Registry
  pub clients : List Client

-- A client of `rfbNewTCPOrUDPClient`
abbrev pub connected_client : Client
connected_client = record {
  open_socket = true;
  state = protocol_version;
  major = 0;
  minor = 0;
  reverse_connection = false;
  challenge = [];
  written = [];
  heard = [];
}

-- "otherCl->state == RFB_NORMAL", of a client that the iterator gives.
unfoldable pub is_normal : Client → Bool
is_normal c = c.open_socket && elim c.state [ normal ↦ true | _ ↦ false ]

unfoldable pub any_normal : List Client → Bool
unfolding is_normal
any_normal [] = false
any_normal (c ∷ cs) = is_normal c || any_normal cs

unfoldable pub close_normal : Client → Client
unfolding is_normal close
close_normal c = if is_normal c then close c else c

-- The end of `rfbProcessClientInitMessage`, among the clients in front of a client and behind it.
unfoldable pub share : Sharing → List Client → Client → List Client → List Client
unfolding any_normal close_normal close
share shares before c after = before ++ c ∷ after
share refuses_itself before c after =
    if any_normal (before ++ after) then before ++ close c ∷ after else before ++ c ∷ after
share closes_others before c after = map close_normal before ++ c ∷ map close_normal after

-- A client connects, or the server reads a message of a client whose socket is open. The server itself
-- calls no client, and the application registers no handlers.
pub data Step (s : Server) (fuel : ℕ) : System → System → Type 0 where
  connects : {y : System} → Step s fuel y (record y { clients = connected_client ∷ y.clients })
  speaks :
      {r : Registry} (before : List Client) (c : Client) (after : List Client) (io : Io)
      (c' : Client) (what : Sharing) (r' : Registry)
      → c.open_socket ≡ true
      → process_message s fuel io c r ≡ some (c', what, r')
      → Step s fuel
          (record { registry = r; clients = before ++ c ∷ after })
          (record { registry = r'; clients = share what before c' after })

-- Steps from a server without clients on, with nothing registered.
abbrev pub empty_registry : Registry
empty_registry = record { first = none; next = λ h. none }

pub data Run (s : Server) (fuel : ℕ) : System → Type 0 where
  start : Run s fuel (record { registry = empty_registry; clients = [] })
  step : {y z : System} → Run s fuel y → Step s fuel y z → Run s fuel z
