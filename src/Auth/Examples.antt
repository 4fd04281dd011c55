-- ===== src/Auth/Examples.antt =====
-- Runs of the model of libvncserver/auth.c.
use libvncserver.Base.{
  ℕ, Bool, true, false, ◌==◌, ◌≡◌, refl, inl, List, [], ◌∷◌, Option, none, some,
}
use libvncserver.Base.Bytes.{put_32}
use libvncserver.Auth.Registry.{
  vnc_auth, Registry, register, same, links, set_next, is_member, unregister, remove, unlink,
}
use libvncserver.Auth.Session.{
  Client, Server, Sharing, shares, security_type, initialisation, reject, response_from,
  process_response, process_security_type, type_from, choose_type, handle, type_of, write_or_close,
  send_string, close, send_types, auth_new_client, use_version, version_from, process_version,
  dispatch, process_message, reads, hear, offer, auth_none,
}
use libvncserver.Auth.Server.{
  connected_client, Run, start, step, connects, speaks, empty_registry, share,
}
use libvncserver.Auth.Guarded.{IsGuarded}
use libvncserver.Auth.Safety.{IsAdmitted}
use libvncserver.Auth.Admission.{Run-IsSecure, Run-answers, IsSecure}
use libvncserver.Auth.Handshake.{conversation, sends, conversation_lem, let_in}

-- A version 3.b, and a server whose `passwordCheck` accepts a response that starts with 9.
abbrev scan : List ℕ → Option (ℕ × ℕ)
scan [] = none
scan (b ∷ bytes) = some (3, b)

abbrev accepts : List ℕ → List ℕ → Bool
accepts c [] = false
accepts c (b ∷ response) = b == 9

abbrev server : Server
server = record {
  has_password = true;
  password_check = accepts;
  application_type = λ n. 16;
  application_handler = λ n c. c;
  scan_version = scan;
  normal_message = λ c. c;
  server_init = 7 ∷ [];
  never_shared = false;
  always_shared = false;
  dont_disconnect = false;
  reasons = ([], [], []);
}

-- A client that has sent its version.
abbrev greeted : Client
greeted = record connected_client {
  state = security_type;
  major = 3;
  minor = 8;
  written = 1 ∷ 2 ∷ [];
  heard = (8 ∷ []) ∷ [];
}

abbrev guarded : Registry
guarded = record (set_next vnc_auth none empty_registry) { first = some vnc_auth }

one_message : Run server 2 (record { registry = guarded; clients = greeted ∷ [] })
unfolding process_message reads hear dispatch process_version version_from use_version
    auth_new_client offer unregister remove unlink register links is_member same set_next send_types
    write_or_close type_of share
one_message =
    step (step start connects)
      (speaks [] connected_client [] (sends (8 ∷ []) (5 ∷ [])) greeted shares guarded refl refl)

Run-IsSecure_example : IsSecure server (record { registry = guarded; clients = greeted ∷ [] })
Run-IsSecure_example = Run-IsSecure server refl (λ c. (refl, refl, refl)) 0 _ one_message

Run-answers_example :
    (c' : Client) × (what : Sharing) × (r' : Registry) × ◌≡◌
      {A = Option (Client × Sharing × Registry)}
      (process_message server 2 (sends (2 ∷ []) (5 ∷ [])) greeted guarded)
      (some (c', what, r'))
    × IsAdmitted server c'
Run-answers_example =
    Run-answers server refl (λ c. (refl, refl, refl)) 0
      (record { registry = guarded; clients = greeted ∷ [] }) [] greeted []
      (sends (2 ∷ []) (5 ∷ [])) one_message refl

abbrev empty-IsGuarded : IsGuarded empty_registry
empty-IsGuarded = record { vnc_last = refl; none_last = refl; only_vnc = inl refl }

conversation_lem_example :
    (r' : Registry) × (conversation server 2
        (sends (8 ∷ []) (5 ∷ []) ∷ sends (2 ∷ []) (5 ∷ []) ∷ sends (9 ∷ []) (5 ∷ []) ∷ [])
        connected_client
        empty_registry
      ≡ some (let_in server refl 0 8 (8 ∷ []) (5 ∷ []) refl refl (9 ∷ []), r'))
conversation_lem_example =
    conversation_lem server refl 0 8 (8 ∷ []) (5 ∷ []) refl refl empty_registry (9 ∷ [])
      empty-IsGuarded

-- The list of handlers that a message leaves, for the next message.
abbrev left_by : Option (Client × Sharing × Registry) → Registry
left_by none = empty_registry
left_by (some (c, what, r)) = r

-- A client that the server has called makes it register `rfbSecTypeNone`: a client that was
-- offered `rfbSecTypeVncAuth` before can then choose the type None, and is let in.
let_in_without :
    ◌≡◌ {A = Option (Client × Sharing × Registry)}
      (process_message server 3 (sends (1 ∷ []) []) greeted (
        left_by (
          process_message server 3
            (sends (8 ∷ []) [])
            (record connected_client { reverse_connection = true })
            guarded)))
      (some (
        record greeted {
          state = initialisation;
          written = 1 ∷ 2 ∷ 0 ∷ 0 ∷ 0 ∷ 0 ∷ [];
          heard = (1 ∷ []) ∷ (8 ∷ []) ∷ [];
        },
        shares,
        left_by (
            process_message server 3
              (sends (8 ∷ []) [])
              (record connected_client { reverse_connection = true })
              guarded),
      ))
unfolding process_message reads hear dispatch process_version version_from use_version
    auth_new_client offer unregister remove unlink register links is_member same set_next send_types
    write_or_close type_of process_security_type type_from choose_type handle auth_none put_32
let_in_without = refl

-- A wrong response, of the bytes 8: the client is closed, with what it was told.
kept_out :
    process_response server (sends (8 ∷ []) []) (record greeted { challenge = 5 ∷ [] })
    ≡ record greeted {
      open_socket = false;
      challenge = 5 ∷ [];
      written = 1 ∷ 2 ∷ 0 ∷ 0 ∷ 0 ∷ 1 ∷ 0 ∷ 0 ∷ 0 ∷ 0 ∷ [];
    }
unfolding process_response response_from reject send_string close put_32
kept_out = refl
