-- ===== src/Auth/Safety.antt =====
-- No client gets past libvncserver/auth.c without the password.
use libvncserver.Base.{
  if_both, ℕ, Bool, true, false, not, ◌==◌, ◌≡◌, refl, ap, inl, inr, List, [], ◌∷◌, ◌++◌, Option,
  none, some, Bool-cases,
}
use libvncserver.Base.Bytes.{put_32}
use libvncserver.Auth.Session.{
  initialisation, normal, Client, Io, Server, Sharing, close, write_or_close, hear, finish_init,
  is_implicit, init_from, process_init, reject, response_from,
}
use libvncserver.Auth.Outside.{is_inside, IsOutside, close-IsOutside, reject-IsOutside}

module _ (s : Server) where
  -- A message that was read of the client is a response to its challenge that `passwordCheck` accepts.
  abbrev pub Passed : Client → Type 0
  Passed c =
      (response : List ℕ) × (later earlier : List (List ℕ)) × (c.heard
        ≡ later ++ response ∷ earlier)
      × (s.password_check c.challenge response ≡ true)

  -- A client that the server did not call, and that is inside only where it has given the password.
  pub record IsAdmitted (c : Client) : Type 0 where
    pub not_called : c.reverse_connection ≡ false
    pub admitted : is_inside c.state ≡ true → Passed c

  pub outside-IsAdmitted : (c : Client) → IsOutside c → IsAdmitted c
  outside-IsAdmitted c i =
      let e = i.outside in record { not_called = i.not_called; admitted = λ h. absurd cc }

  pub close-IsAdmitted : (c : Client) → IsAdmitted c → IsAdmitted (close c)
  unfolding close
  close-IsAdmitted c i = record { not_called = i.not_called; admitted = i.admitted }

  -- A client that has given the password.
  accepted : (c : Client) → c.reverse_connection ≡ false → Passed c → IsAdmitted c
  accepted c n p = record { not_called = n; admitted = λ h. p }

  -- A message more that is read.
  pub hear-IsOutside : (o : Option (List ℕ)) (c : Client) → IsOutside c → IsOutside (hear s o c)
  unfolding hear
  hear-IsOutside none c i = i
  hear-IsOutside (some bytes) c i = record { not_called = i.not_called; outside = i.outside }

  pub hear-not_called :
      (o : Option (List ℕ)) (c : Client)
      → c.reverse_connection ≡ false
      → (hear s o c).reverse_connection ≡ false
  unfolding hear
  hear-not_called none c n = n
  hear-not_called (some bytes) c n = n

  pub hear-Passed : (o : Option (List ℕ)) (c : Client) → Passed c → Passed (hear s o c)
  unfolding hear
  hear-Passed none c p = p
  hear-Passed (some bytes) c (response, later, earlier, e, t) =
      (response, bytes ∷ later, earlier, ap (λ l. bytes ∷ l) e, t)

  -- A client that is inside already, at the end of its initialisation.
  finish_init-IsAdmitted :
      (io : Io) (shared : Bool) (c : Client)
      → c.reverse_connection ≡ false
      → Passed c
      → IsAdmitted (finish_init s io shared c).0
  unfolding finish_init close
  finish_init-IsAdmitted io shared c n p = elim (Bool-cases (io.writes s.server_init)) [
    | inl e ↦
        rw e (accepted (record c { written = c.written ++ s.server_init; state = normal }) n p)
    | inr e ↦ rw e (accepted (record c { open_socket = false }) n p)
  ]

  init_from-IsAdmitted :
      (io : Io) (o : Option (List ℕ)) (c : Client)
      → c.reverse_connection ≡ false
      → Passed c
      → IsAdmitted (init_from s io o c).0
  unfolding init_from
  init_from-IsAdmitted io none c n p = close-IsAdmitted c (accepted c n p)
  init_from-IsAdmitted io (some []) c n p = close-IsAdmitted c (accepted c n p)
  init_from-IsAdmitted io (some (b ∷ bytes)) c n p = finish_init-IsAdmitted io (not (b == 0)) c n p

  pub process_init-IsAdmitted :
      (io : Io) (c : Client)
      → c.reverse_connection ≡ false
      → Passed c
      → IsAdmitted (process_init s io c).0
  unfolding process_init
  process_init-IsAdmitted io c n p =
      if_both (λ (r : Client × Sharing). IsAdmitted r.0) (is_implicit c.state)
        (finish_init s io true (record c { state = initialisation })) (init_from s io io.received c)
        (finish_init-IsAdmitted io true (record c { state = initialisation }) n p)
        (init_from-IsAdmitted io io.received c n p)

  accepts-IsAdmitted :
      (io : Io) (c : Client)
      → c.reverse_connection ≡ false
      → Passed c
      → IsAdmitted (write_or_close io (put_32 0) c (λ c. record c { state = initialisation }))
  unfolding write_or_close close
  accepts-IsAdmitted io c n p =
      if_both IsAdmitted (io.writes (put_32 0))
        (record c { written = c.written ++ put_32 0; state = initialisation })
        (record c { open_socket = false }) (record { not_called = n; admitted = λ h. p })
        (record { not_called = n; admitted = λ h. p })

  -- A client that is asked for the password, at its message.
  pub response_from-IsAdmitted :
      (io : Io) (o : Option (List ℕ)) (c : Client)
      → IsOutside c
      → IsAdmitted (response_from s io o (hear s o c))
  unfolding response_from hear
  response_from-IsAdmitted io none c i = outside-IsAdmitted (close c) (close-IsOutside c i)
  response_from-IsAdmitted io (some response) c i =
      let d : Client = record c { heard = response ∷ c.heard } in
      let j : IsOutside d = record { not_called = i.not_called; outside = i.outside } in
      elim (Bool-cases (s.password_check c.challenge response)) [
        | inl e ↦ rw e (accepts-IsAdmitted io d i.not_called (response, [], c.heard, refl, e))
        | inr e ↦ rw e (outside-IsAdmitted (reject s io d) (reject-IsOutside s io d j))
      ]
