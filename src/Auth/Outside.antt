-- ===== src/Auth/Outside.antt =====
-- What libvncserver/auth.c does to a client that is not let in.
use libvncserver.Base.{
  if_both, ℕ, suc, Bool, true, false, not, ◌&&◌, ◌==◌, ltb, if◌then◌else◌, ◌≡◌, ◌⊎◌, inl, inr, refl,
  List, [], ◌∷◌, ◌++◌, map, Option, none, some, Bool-cases,
}
use libvncserver.Base.{length, take}
use libvncserver.Base.Bytes.{put_32}
use libvncserver.Auth.Registry.{Handler, vnc_auth, Registry}
use libvncserver.Auth.Session.{
  ClientState, protocol_version, security_type, authentication, initialisation, normal,
  initialisation_shared, Client, Io, Server, close, write_or_close, send_string, send_challenge,
  handle, type_of, choose_type, send_types, send_security_type, auth_new_client, use_version,
  version_from, reject,
}
use libvncserver.Auth.Guarded.{IsGuarded, guarded-Offers, guarded-Links}

-- The states that a client is not to come to without the password.
abbrev pub is_inside : ClientState → Bool
is_inside protocol_version = false
is_inside security_type = false
is_inside authentication = false
is_inside initialisation = true
is_inside initialisation_shared = true
is_inside normal = true

-- A client that the server did not call, and that is not inside.
pub record IsOutside (c : Client) : Type 0 where
  pub not_called : c.reverse_connection ≡ false
  pub outside : is_inside c.state ≡ false

pub close-IsOutside : (c : Client) → IsOutside c → IsOutside (close c)
unfolding close
close-IsOutside c i = record { not_called = i.not_called; outside = i.outside }

written-IsOutside :
    (c : Client) (bytes : List ℕ)
    → IsOutside c
    → IsOutside (record c { written = c.written ++ bytes })
written-IsOutside c bytes i = record { not_called = i.not_called; outside = i.outside }

-- A client that goes on to a state outside.
state-IsOutside :
    (c : Client) (state : ClientState)
    → c.reverse_connection ≡ false
    → is_inside state ≡ false
    → IsOutside (record c { state = state })
state-IsOutside c state n e = record { not_called = n; outside = e }

write_or_close-IsOutside :
    (io : Io) (bytes : List ℕ) (c : Client) (f : Client → Client)
    → IsOutside c
    → ((c : Client) → IsOutside c → IsOutside (f c))
    → IsOutside (write_or_close io bytes c f)
unfolding write_or_close
write_or_close-IsOutside io bytes c f i g = elim (Bool-cases (io.writes bytes)) [
  | inl e ↦ rw e (g (record c { written = c.written ++ bytes }) (written-IsOutside c bytes i))
  | inr e ↦ rw e (close-IsOutside c i)
]

send_string-IsOutside :
    (io : Io) (reason : List ℕ) (c : Client) → IsOutside c → IsOutside (send_string io reason c)
unfolding send_string
send_string-IsOutside io reason c i =
    elim (Bool-cases (io.writes (put_32 (length reason) ++ reason))) [
      | inl e ↦ rw e (
          close-IsOutside (record c { written = c.written ++ (put_32 (length reason) ++ reason) })
            (written-IsOutside c (put_32 (length reason) ++ reason) i))
      | inr e ↦ rw e (close-IsOutside c i)
    ]

send_challenge-IsOutside : (io : Io) (c : Client) → IsOutside c → IsOutside (send_challenge io c)
unfolding send_challenge
send_challenge-IsOutside io c i =
    write_or_close-IsOutside io io.random (record c { challenge = io.random })
      (λ c. record c { state = authentication })
      (record { not_called = i.not_called; outside = i.outside })
      (λ c i. state-IsOutside c authentication i.not_called refl)

module _ (s : Server) where
  -- A client of a server with a password chooses from what such a server offers.
  pub choose_type-IsOutside :
      (io : Io) (chosen : ℕ) (l : List Handler) (c : Client)
      → (l ≡ []) ⊎ (l ≡ vnc_auth ∷ [])
      → IsOutside c
      → IsOutside (choose_type s io chosen l c).0
  unfolding choose_type handle type_of
  choose_type-IsOutside io chosen l c (inl e) i = rw e (close-IsOutside c i)
  choose_type-IsOutside io chosen l c (inr e) i = rw e (elim (Bool-cases (chosen == 2)) [
    | inl t ↦ rw (choose_type, t) (send_challenge-IsOutside io c i)
    | inr t ↦ rw (choose_type, t) (close-IsOutside c i)
  ])

  -- What the server sends to a client that it has not called, where it has a password.
  module _ (with_password : s.has_password ≡ true) where
    send_types-IsOutside :
        (io : Io) (l : List Handler) (c : Client) → IsOutside c → IsOutside (send_types s io l c)
    unfolding send_types
    send_types-IsOutside io l c i =
        write_or_close-IsOutside io
          (length (map (type_of s) (take 254 l)) ∷ map (type_of s) (take 254 l)) c
          (λ c.
            if length (map (type_of s) (take 254 l)) == 0
            then send_string io s.reasons.0 c
            else record c { state = security_type })
          i
          (λ c i.
            if_both IsOutside (length (map (type_of s) (take 254 l)) == 0)
              (send_string io s.reasons.0 c) (record c { state = security_type })
              (send_string-IsOutside io s.reasons.0 c i)
              (state-IsOutside c security_type i.not_called refl))

    send_security_type-IsOutside :
        (io : Io) (c : Client) → IsOutside c → IsOutside (send_security_type s io true c)
    unfolding send_security_type
    send_security_type-IsOutside io c i =
        write_or_close-IsOutside io (put_32 2) c (send_challenge io) i (send_challenge-IsOutside io)

    -- A result of the routines that use the list of handlers.
    pub record Negotiates (o : Option (Client × Registry)) : Type 0 where
      pub client : Client
      pub registry : Registry
      pub result : o ≡ some (client, registry)
      pub good : IsOutside client
      pub guarded : IsGuarded registry

    closed :
        (c : Client) (r : Registry) → IsOutside c → IsGuarded r → Negotiates (some (close c, r))
    closed c r i g = record {
      client = close c;
      registry = r;
      result = refl;
      good = close-IsOutside c i;
      guarded = g;
    }

    auth_new_client-Negotiates :
        (fuel : ℕ) (io : Io) (c : Client) (r : Registry)
        → IsOutside c
        → IsGuarded r
        → Negotiates (auth_new_client s (suc (suc fuel)) io c r)
    unfolding auth_new_client
    auth_new_client-Negotiates fuel io c r i g =
        let asks : s.has_password && not c.reverse_connection ≡ true =
          rw (with_password, i.not_called) refl in
        elim (Bool-cases (c.major == 3 && ltb c.minor 7)) [
          | inl e ↦ record {
            client = send_security_type s io true c;
            registry = r;
            result = rw (auth_new_client, e, asks) refl;
            good = send_security_type-IsOutside io c i;
            guarded = g;
          }
          | inr e ↦
              let o = guarded-Offers fuel r g in
              let l = guarded-Links (suc fuel) o.result o.guarded in
              record {
                client = send_types s io l.list c;
                registry = o.result;
                result = rw (auth_new_client, e, asks, o.offers, l.follows) refl;
                good = send_types-IsOutside io l.list c i;
                guarded = o.guarded;
              }
        ]

    use_version-Negotiates :
        (fuel : ℕ) (io : Io) (v : Option (ℕ × ℕ)) (c : Client) (r : Registry)
        → IsOutside c
        → IsGuarded r
        → Negotiates (use_version s (suc (suc fuel)) io v c r)
    unfolding use_version
    use_version-Negotiates fuel io none c r i g = closed c r i g
    use_version-Negotiates fuel io (some (major, minor)) c r i g =
        if_both Negotiates (major == 3)
          (auth_new_client s (suc (suc fuel)) io (record c { major = major; minor = minor }) r)
          (some (close c, r))
          (auth_new_client-Negotiates fuel io (record c { major = major; minor = minor }) r
            (record { not_called = i.not_called; outside = i.outside }) g)
          (closed c r i g)

    pub version_from-Negotiates :
        (fuel : ℕ) (io : Io) (o : Option (List ℕ)) (c : Client) (r : Registry)
        → IsOutside c
        → IsGuarded r
        → Negotiates (version_from s (suc (suc fuel)) io o c r)
    unfolding version_from
    version_from-Negotiates fuel io none c r i g = closed c r i g
    version_from-Negotiates fuel io (some bytes) c r i g =
        use_version-Negotiates fuel io (s.scan_version bytes) c r i g

  pub reject-IsOutside : (io : Io) (c : Client) → IsOutside c → IsOutside (reject s io c)
  unfolding reject
  reject-IsOutside io c i =
      let failed = put_32 1 in
      let c' : Client =
        if io.writes failed then record c { written = c.written ++ failed } else c in
      let j : IsOutside c' =
        if_both IsOutside (io.writes failed) (record c { written = c.written ++ failed }) c
          (written-IsOutside c failed i) i in
      if_both IsOutside (ltb 7 c'.minor) (send_string io s.reasons.1 c') (close c')
        (send_string-IsOutside io s.reasons.1 c' j) (close-IsOutside c' j)
