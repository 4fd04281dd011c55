-- ===== src/Auth/Handshake.antt =====
-- The messages of a client up to its password: libvncserver/rfbserver.c and libvncserver/auth.c.
use libvncserver.Base.{
  length, ℕ, suc, true, false, ltb, if◌then◌else◌, ◌≡◌, inl, inr, refl, List, [], ◌∷◌, ◌++◌, Option,
  none, some, Bool-cases,
}
use libvncserver.Base.Bytes.{put_32}
use libvncserver.Auth.Registry.{vnc_auth, Registry, links}
use libvncserver.Auth.Session.{
  hear, Client, Io, Server, initialisation, shares, reject, response_from, process_response,
  process_security_type, type_from, choose_type, handle, type_of, send_challenge, write_or_close,
  send_string, close, send_types, auth_new_client, use_version, version_from, process_version,
  dispatch, process_message, security_type, authentication,
}
use libvncserver.Auth.Server.{connected_client}
use libvncserver.Auth.Guarded.{IsGuarded, Offers, guarded-Offers}

-- A message that is read, where everything that is sent is written.
abbrev pub sends : List ℕ → List ℕ → Io
sends bytes random = record { received = some bytes; writes = λ bytes. true; random = random }

-- The messages of one client, one after the other.
unfoldable pub conversation : Server → ℕ → List Io → Client → Registry → Option (Client × Registry)
unfolding process_message
conversation s fuel [] c r = some (c, r)
conversation s fuel (io ∷ ios) c r = elim (process_message s fuel io c r) [
  | none ↦ none
  | some (c', what, r') ↦ conversation s fuel ios c' r'
]

module _ (s : Server) (with_password : s.has_password ≡ true) (fuel minor : ℕ)
    (version challenge : List ℕ) (parsed : s.scan_version version ≡ some (3, minor))
    (recent : ltb minor 7 ≡ false) where
  -- The client with its version, with the challenge.
  greeted : Client
  greeted = record connected_client {
    state = security_type;
    major = 3;
    minor = minor;
    written = 1 ∷ 2 ∷ [];
    heard = version ∷ [];
  }

  abbrev pub challenged : Client
  challenged = record connected_client {
    state = authentication;
    major = 3;
    minor = minor;
    challenge = challenge;
    written = 1 ∷ 2 ∷ challenge;
    heard = (2 ∷ []) ∷ version ∷ [];
  }

  version_message :
      (r : Registry) (o : Offers (suc (suc fuel)) r)
      → process_message s (suc (suc fuel)) (sends version challenge) connected_client r
        ≡ some (greeted, shares, o.result)
  unfolding hear process_message dispatch process_version version_from use_version auth_new_client
      greeted send_types write_or_close type_of
  version_message r o =
      rw
        (
          process_message,
          dispatch,
          process_version,
          version_from,
          parsed,
          use_version,
          auth_new_client,
          recent,
          with_password,
          o.offers,
          o.listed (suc fuel),
        )
        refl

  type_message :
      (r : Registry)
      → links (suc (suc fuel)) r r.first ≡ some (vnc_auth ∷ [])
      → process_message s (suc (suc fuel)) (sends (2 ∷ []) challenge) greeted r
        ≡ some (challenged, shares, r)
  unfolding hear process_message dispatch process_security_type type_from greeted choose_type handle
      type_of send_challenge write_or_close
  type_message r l = rw (process_message, dispatch, process_security_type, type_from, l) refl

  -- What becomes of the client with its response.
  abbrev pub let_in : List ℕ → Client
  let_in response = record challenged {
    state = initialisation;
    heard = response ∷ (2 ∷ []) ∷ version ∷ [];
    written = (1 ∷ 2 ∷ challenge) ++ put_32 0;
  }

  abbrev pub refused : List ℕ → Client
  refused response = record challenged {
    heard = response ∷ (2 ∷ []) ∷ version ∷ [];
    open_socket = false;
    written =
        if ltb 7 minor
        then ((1 ∷ 2 ∷ challenge) ++ put_32 1) ++ (put_32 (length s.reasons.1) ++ s.reasons.1)
        else (1 ∷ 2 ∷ challenge) ++ put_32 1;
  }

  response_message :
      (response : List ℕ)
      → process_response s (sends response challenge) (hear s (some response) challenged)
        ≡ (if s.password_check challenge response then let_in response else refused response)
  unfolding hear process_response response_from reject send_string close write_or_close
  response_message response = elim (Bool-cases (s.password_check challenge response)) [
    | inl e ↦ rw e refl
    | inr e ↦ rw e (elim (Bool-cases (ltb 7 minor)) [ inl t ↦ rw t refl | inr t ↦ rw t refl ])
  ]

  -- A new client of a server with a password sends a version 3.x with x at least 7, then the type
  -- VncAuth, then its response, and all that is sent is written; nothing but the handler for
  -- passwords is registered. Then it comes to the state `initialisation` where `passwordCheck` accepts its response to
  -- the challenge; otherwise its socket is closed, with the reason for a version above 3.7. In both
  -- cases it was sent the types, the challenge and the result.
  pub conversation_lem :
      (r : Registry) (response : List ℕ)
      → IsGuarded r
      → (r' : Registry) × (conversation s
            (suc (suc fuel))
            (sends version challenge ∷ sends (2 ∷ []) challenge ∷ sends response challenge ∷ [])
            connected_client
            r
          ≡ some (
            if s.password_check challenge response then let_in response else refused response,
            r',
          ))
  unfolding conversation
  conversation_lem r response g =
      let o = guarded-Offers fuel r g in
      (
        o.result,
        rw
            (
              conversation,
              version_message r o,
              type_message o.result (o.listed (suc fuel)),
              response_message response,
            )
            refl,
      )
