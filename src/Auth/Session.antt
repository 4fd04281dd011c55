-- ===== src/Auth/Session.antt =====
-- A client up to its first normal message: libvncserver/auth.c and libvncserver/rfbserver.c.
use libvncserver.Base.{
  ℕ, Bool, true, false, not, ◌&&◌, ◌||◌, ◌==◌, ltb, if◌then◌else◌, List, [], ◌∷◌, ◌++◌, Option,
  none, some, map, length, take,
}
use libvncserver.Base.Bytes.{put_32}
use libvncserver.Auth.Registry.{
  Handler, vnc_auth, none_auth, application, Registry, links, register, unregister,
}

-- The states of a client.
pub data ClientState : Type 0 where
  protocol_version security_type authentication initialisation normal initialisation_shared :
      ClientState

unfoldable pub is_implicit : ClientState → Bool
is_implicit initialisation_shared = true
is_implicit state = false

-- The fields of a client: whether its socket is open, `state`, the protocol version, whether the server
-- has called it, `authChallenge`, what was written to it, and the messages that were read of it, the last
-- one first.
pub record Client : Type 0 where
  pub open_socket : Bool
  pub state : ClientState
  pub major : ℕ
  pub minor : ℕ
  pub reverse_connection : Bool
  pub challenge : List ℕ
  pub written : List ℕ
  pub heard : List (List ℕ)

-- What a client's message meets: what `rfbReadExact` reads (none at the end of the stream or for an
-- error), whether `rfbWriteExact` writes some bytes, and what `rfbRandomBytes` gives.
pub record Io : Type 0 where
  pub received : Option (List ℕ)
  pub writes : List ℕ → Bool
  pub random : List ℕ

-- The server: whether `authPasswdData` is set, `passwordCheck` on a challenge and a response, the
-- application's handlers, by type and function, and the other code that is called: `sscanf` of a version, the
-- messages of `RFB_NORMAL`, and the message of `rfbProcessClientInitMessage`.
pub record Server : Type 0 where
  pub has_password : Bool
  pub password_check : List ℕ → List ℕ → Bool
  pub application_type : ℕ → ℕ
  pub application_handler : ℕ → Client → Client
  pub scan_version : List ℕ → Option (ℕ × ℕ)
  pub normal_message : Client → Client
  pub server_init : List ℕ
  pub never_shared : Bool
  pub always_shared : Bool
  pub dont_disconnect : Bool
  pub reasons : List ℕ × List ℕ × List ℕ

-- `rfbCloseClient`
unfoldable pub close : Client → Client
close c = record c { open_socket = false }

-- `rfbWriteExact`, with what is done after it, and the client closed where it fails.
unfoldable pub write_or_close : Io → List ℕ → Client → (Client → Client) → Client
unfolding close
write_or_close io bytes c f =
    if io.writes bytes then f (record c { written = c.written ++ bytes }) else close c

-- `rfbClientSendString`, with the memory for its message: the client is closed in any case.
unfoldable pub send_string : Io → List ℕ → Client → Client
unfolding close put_32
send_string io reason c =
    let bytes = put_32 (length reason) ++ reason in
    close (if io.writes bytes then record c { written = c.written ++ bytes } else c)

-- `rfbVncAuthSendChallenge`
unfoldable pub send_challenge : Io → Client → Client
unfolding write_or_close
send_challenge io c =
    write_or_close io io.random (record c { challenge = io.random })
      (λ c. record c { state = authentication })

-- `rfbSendSecurityTypeList`: what it does to the list of handlers, for `rfbSecTypeNone` and for
-- `rfbSecTypeVncAuth`.
unfoldable pub offer : ℕ → Bool → Registry → Option Registry
unfolding register unregister
offer fuel with_password r =
    elim (if with_password
      then unregister fuel (some none_auth) r
      else unregister fuel (some vnc_auth) r) [
        | none ↦ none
        | some r' ↦
            if with_password
            then register fuel (some vnc_auth) r'
            else register fuel (some none_auth) r'
      ]

-- What a client does to the others at the end of its initialisation.
pub data Sharing : Type 0 where
  shares refuses_itself closes_others : Sharing

module _ (s : Server) where
  -- `rfbProcessClientInitMessage`, with the byte `shared` of its message; extensions that are called
  -- there are left out. The second part says what to do about other clients.
  unfoldable pub finish_init : Io → Bool → Client → Client × Sharing
  unfolding close
  finish_init io shared c =
      if io.writes s.server_init
      then (
        record c { written = c.written ++ s.server_init; state = normal },
        if not c.reverse_connection && (s.never_shared || (not s.always_shared && not shared))
            then (if s.dont_disconnect then refuses_itself else closes_others)
            else shares,
      )
      else (close c, shares)

  -- The message of the client, as it was read.
  unfoldable pub init_from : Io → Option (List ℕ) → Client → Client × Sharing
  init_from io none c = (close c, shares)
  init_from io (some []) c = (close c, shares)
  init_from io (some (b ∷ bytes)) c = finish_init io (not (b == 0)) c

  unfoldable pub process_init : Io → Client → Client × Sharing
  unfolding is_implicit
  process_init io c =
      if is_implicit c.state
      then finish_init io true (record c { state = initialisation })
      else init_from io io.received c

  -- `rfbVncAuthNone`; in the state `RFB_INITIALISATION_SHARED` it calls `rfbProcessClientMessage`.
  unfoldable pub auth_none : Io → Client → Client × Sharing
  unfolding process_init close put_32
  auth_none io c =
      let ok = put_32 0 in
      let told = c.major == 3 && ltb 7 c.minor && not (c.minor == 889) in
      if told && not (io.writes ok)
      then (close c, shares)
      else (let c' = if told then record c { written = c.written ++ ok } else c in
          if c.minor == 889
          then process_init io (record c' { state = initialisation_shared })
          else (record c' { state = initialisation }, shares))

  -- The function of a handler, and its type.
  unfoldable pub handle : Io → Handler → Client → Client × Sharing
  unfolding auth_none send_challenge
  handle io vnc_auth c = (send_challenge io c, shares)
  handle io none_auth c = auth_none io c
  handle io (application n) c = (s.application_handler n c, shares)

  unfoldable pub type_of : Handler → ℕ
  type_of vnc_auth = 2
  type_of none_auth = 1
  type_of (application n) = s.application_type n

  -- "Make sure it was present in the list sent by the server."
  unfoldable pub choose_type : Io → ℕ → List Handler → Client → Client × Sharing
  unfolding handle type_of close
  choose_type io chosen [] c = (close c, shares)
  choose_type io chosen (h ∷ l) c = elim (chosen == type_of h) [
    | true ↦ handle io h c
    | false ↦ choose_type io chosen l c
  ]

  -- The list that it sends: the loop stops at 254 types.
  unfoldable pub send_types : Io → List Handler → Client → Client
  unfolding type_of write_or_close send_string
  send_types io l c =
      let types = map type_of (take 254 l) in
      write_or_close io (length types ∷ types) c (λ c.
        if length types == 0
        then send_string io s.reasons.0 c
        else record c { state = security_type })

  -- `rfbSendSecurityType`, for the two types that `rfbAuthNewClient` gives it.
  unfoldable pub send_security_type : Io → Bool → Client → Client
  unfolding write_or_close put_32 send_challenge
  send_security_type io with_password c =
      write_or_close io (put_32 (if with_password then 2 else 1)) c
        (λ c. if with_password then send_challenge io c else record c { state = initialisation })

  -- `rfbAuthNewClient`: the client is asked for a password where there is one, and the server has not
  -- called it. `securityType` is never `rfbSecTypeInvalid` there.
  unfoldable pub auth_new_client : ℕ → Io → Client → Registry → Option (Client × Registry)
  auth_new_client fuel io c r =
      let with_password = s.has_password && not c.reverse_connection in
      if c.major == 3 && ltb c.minor 7
      then some (send_security_type io with_password c, r)
      else elim (offer fuel with_password r) [
        | none ↦ none
        | some r' ↦ elim (links fuel r' r'.first) [
          | none ↦ none
          | some l ↦ some (send_types io l c, r')
        ]
      ]

  -- `rfbProcessClientProtocolVersion`: the version as `sscanf` has it, the message as it was read, and
  -- the whole.
  unfoldable pub use_version :
      ℕ → Io → Option (ℕ × ℕ) → Client → Registry → Option (Client × Registry)
  use_version fuel io none c r = some (close c, r)
  use_version fuel io (some (major, minor)) c r =
      if major == 3
      then auth_new_client fuel io (record c { major = major; minor = minor }) r
      else some (close c, r)

  unfoldable pub version_from :
      ℕ → Io → Option (List ℕ) → Client → Registry → Option (Client × Registry)
  version_from fuel io none c r = some (close c, r)
  version_from fuel io (some bytes) c r = use_version fuel io (s.scan_version bytes) c r

  unfoldable pub process_version : ℕ → Io → Client → Registry → Option (Client × Registry)
  unfolding version_from
  process_version fuel io c r = version_from fuel io io.received c r

  -- `rfbProcessClientSecurityType`
  unfoldable pub type_from :
      ℕ → Io → Option (List ℕ) → Client → Registry → Option (Client × Sharing)
  type_from fuel io none c r = some (close c, shares)
  type_from fuel io (some []) c r = some (close c, shares)
  type_from fuel io (some (b ∷ bytes)) c r = elim (links fuel r r.first) [
    | none ↦ none
    | some l ↦ some (choose_type io b l c)
  ]

  unfoldable pub process_security_type : ℕ → Io → Client → Registry → Option (Client × Sharing)
  unfolding type_from
  process_security_type fuel io c r = type_from fuel io io.received c r

  -- `rfbAuthProcessClientMessage`: a response that `passwordCheck` does not accept, the response as it
  -- was read, and the whole.
  unfoldable pub reject : Io → Client → Client
  reject io c =
      let failed = put_32 1 in
      let c' = if io.writes failed then record c { written = c.written ++ failed } else c in
      if ltb 7 c'.minor then send_string io s.reasons.1 c' else close c'

  unfoldable pub response_from : Io → Option (List ℕ) → Client → Client
  unfolding reject
  response_from io none c = close c
  response_from io (some response) c =
      if s.password_check c.challenge response
      then write_or_close io (put_32 0) c (λ c. record c { state = initialisation })
      else reject io c

  unfoldable pub process_response : Io → Client → Client
  unfolding response_from
  process_response io c = response_from io io.received c

  -- `rfbProcessClientMessage`: the client, what to do about other clients, and the list of handlers.
  unfoldable pub dispatch :
      ℕ → Io → ClientState → Client → Registry → Option (Client × Sharing × Registry)
  dispatch fuel io protocol_version c r = elim (process_version fuel io c r) [
    | none ↦ none
    | some (c', r') ↦ some (c', shares, r')
  ]
  dispatch fuel io security_type c r = elim (process_security_type fuel io c r) [
    | none ↦ none
    | some (c', what) ↦ some (c', what, r)
  ]
  dispatch fuel io authentication c r = some (process_response io c, shares, r)
  dispatch fuel io initialisation c r = (let i = process_init io c in some (i.0, i.1, r))
  dispatch fuel io initialisation_shared c r = (let i = process_init io c in some (i.0, i.1, r))
  dispatch fuel io normal c r = some (s.normal_message c, shares, r)

  -- What a message reads of the client: nothing where `rfbProcessClientInitMessage` is called without one.
  unfoldable pub reads : ClientState → Option (List ℕ) → Option (List ℕ)
  reads initialisation_shared o = none
  reads state o = o

  -- What is read, noted for the theorems; the code does not keep it.
  unfoldable pub hear : Option (List ℕ) → Client → Client
  hear none c = c
  hear (some bytes) c = record c { heard = bytes ∷ c.heard }

  unfoldable pub process_message : ℕ → Io → Client → Registry → Option (Client × Sharing × Registry)
  unfolding dispatch reads hear
  process_message fuel io c r = dispatch fuel io c.state (hear (reads c.state io.received) c) r
