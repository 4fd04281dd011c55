-- ===== src/Auth/Admission.antt =====
-- No client gets past libvncserver/auth.c without the password, whatever the clients of a server send
-- and in whatever order.
use libvncserver.Base.{
  ℕ, suc, true, false, ◌≡◌, inl, refl, sym, ap, ◌∙◌, List, [], ◌∷◌, ◌++◌, map, Option, none, some,
  subst, if_both, All, All-append,
}
use libvncserver.Auth.Registry.{Registry}
use libvncserver.Auth.Session.{
  ClientState, protocol_version, security_type, authentication, initialisation, normal,
  initialisation_shared, Client, Io, Server, Sharing, shares, refuses_itself, closes_others, close,
  choose_type, hear, process_init, process_version, type_from, process_security_type,
  process_response, dispatch, process_message, reads,
}
use libvncserver.Auth.Server.{
  System, Step, connects, speaks, Run, start, step, share, any_normal, close_normal, is_normal,
}
use libvncserver.Auth.Guarded.{IsGuarded, guarded-Links}
use libvncserver.Auth.Outside.{
  is_inside, IsOutside, close-IsOutside, choose_type-IsOutside, version_from-Negotiates,
}
use libvncserver.Auth.Safety.{
  outside-IsAdmitted, hear-IsOutside, hear-not_called, hear-Passed, IsAdmitted, close-IsAdmitted,
  process_init-IsAdmitted, response_from-IsAdmitted,
}

-- The messages of `RFB_NORMAL` do not change who has called whom, nor the challenge, nor what was
-- read of the client before.
abbrev pub KeepsAdmission : Server → Type 0
KeepsAdmission s =
    (c : Client)
    → ((s.normal_message c).reverse_connection ≡ c.reverse_connection)
      × ((s.normal_message c).challenge ≡ c.challenge)
      × ((s.normal_message c).heard ≡ c.heard)

module _ (s : Server) (with_password : s.has_password ≡ true) (keeps : KeepsAdmission s) where
  -- A message is dealt with, and the client and the list of handlers are as they should be.
  record Serves (o : Option (Client × Sharing × Registry)) : Type 0 where
    client : Client
    what : Sharing
    registry : Registry
    result : o ≡ some (client, what, registry)
    good : IsAdmitted s client
    guarded : IsGuarded registry

  type_from-Serves :
      (fuel : ℕ) (io : Io) (o : Option (List ℕ)) (c : Client) (r : Registry)
      → IsOutside c
      → IsGuarded r
      → (c' : Client) × (what : Sharing) × (type_from s (suc (suc fuel)) io o c r ≡ some (c', what))
        × IsAdmitted s c'
  unfolding type_from
  type_from-Serves fuel io none c r i g =
      (close c, shares, refl, outside-IsAdmitted s (close c) (close-IsOutside c i))
  type_from-Serves fuel io (some []) c r i g =
      (close c, shares, refl, outside-IsAdmitted s (close c) (close-IsOutside c i))
  type_from-Serves fuel io (some (b ∷ bytes)) c r i g =
      let l = guarded-Links (suc fuel) r g in
      let q = choose_type s io b l.list c in
      (
        q.0,
        q.1,
        rw (type_from, l.follows) refl,
        outside-IsAdmitted s q.0 (choose_type-IsOutside s io b l.list c l.safe i),
      )

  -- A message that is read of a client that is outside, or inside.
  received-IsOutside :
      (io : Io) (c : Client)
      → IsAdmitted s c
      → is_inside c.state ≡ false
      → IsOutside (hear s io.received c)
  received-IsOutside io c i e =
      hear-IsOutside s io.received c (record { not_called = i.not_called; outside = e })

  init-Serves :
      (io : Io) (o : Option (List ℕ)) (c : Client) (r : Registry)
      → IsAdmitted s c
      → IsGuarded r
      → is_inside c.state ≡ true
      → let q = process_init s io (hear s o c) in Serves (some (q.0, q.1, r))
  init-Serves io o c r i g e =
      let d = hear s o c in
      let q = process_init s io d in
      record {
        client = q.0;
        what = q.1;
        registry = r;
        result = refl;
        good =
            process_init-IsAdmitted s io d (hear-not_called s o c i.not_called)
              (hear-Passed s o c (i.admitted e));
        guarded = g;
      }

  dispatch-Serves :
      (fuel : ℕ) (io : Io) (state : ClientState) (c : Client) (r : Registry)
      → c.state ≡ state
      → IsAdmitted s c
      → IsGuarded r
      → Serves (dispatch s (suc (suc fuel)) io state (hear s (reads s state io.received) c) r)
  unfolding dispatch reads process_version process_security_type process_response
  dispatch-Serves fuel io protocol_version c r e i g =
      let d = hear s io.received c in
      let n =
        version_from-Negotiates s with_password fuel io io.received d r
          (received-IsOutside io c i (ap is_inside e)) g in
      record {
        client = n.client;
        what = shares;
        registry = n.registry;
        result = rw (dispatch, n.result) refl;
        good = outside-IsAdmitted s n.client n.good;
        guarded = n.guarded;
      }
  dispatch-Serves fuel io security_type c r e i g =
      let d = hear s io.received c in
      let n =
        type_from-Serves fuel io io.received d r (received-IsOutside io c i (ap is_inside e)) g in
      record {
        client = n.0;
        what = n.1;
        registry = r;
        result = rw (dispatch, n.2) refl;
        good = n.3;
        guarded = g;
      }
  dispatch-Serves fuel io authentication c r e i g = record {
    client = process_response s io (hear s io.received c);
    what = shares;
    registry = r;
    result = refl;
    good =
        response_from-IsAdmitted s io io.received c
          (record { not_called = i.not_called; outside = ap is_inside e });
    guarded = g;
  }
  dispatch-Serves fuel io initialisation c r e i g =
      init-Serves io io.received c r i g (ap is_inside e)
  dispatch-Serves fuel io initialisation_shared c r e i g =
      init-Serves io none c r i g (ap is_inside e)
  dispatch-Serves fuel io normal c r e i g =
      let d = hear s io.received c in
      let k = keeps d in
      let p = hear-Passed s io.received c (i.admitted (ap is_inside e)) in
      record {
        client = s.normal_message d;
        what = shares;
        registry = r;
        result = refl;
        good = record {
          not_called = k.0 ∙ hear-not_called s io.received c i.not_called;
          admitted = λ h. (p.0, p.1, p.2, k.2 ∙ p.3, ap (λ l. s.password_check l p.0) k.1 ∙ p.4);
        };
        guarded = g;
      }

module _ (s : Server) where
  -- The two parts of a list of clients, and one between them.
  around :
      (before : List Client) (c : Client) (after : List Client)
      → All (IsAdmitted s) (before ++ c ∷ after)
      → All (IsAdmitted s) before × IsAdmitted s c × All (IsAdmitted s) after
  around [] c after p = (tt, p.0, p.1)
  around (b ∷ before) c after p = let q = around before c after p.1 in ((p.0, q.0), q.1, q.2)

  close_normal-IsAdmitted :
      (l : List Client) → All (IsAdmitted s) l → All (IsAdmitted s) (map close_normal l)
  unfolding close_normal
  close_normal-IsAdmitted [] p = tt
  close_normal-IsAdmitted (c ∷ l) p = (
    if_both (IsAdmitted s) (is_normal c) (close c) c (close-IsAdmitted s c p.0) p.0,
    close_normal-IsAdmitted l p.1,
  )

  share-IsAdmitted :
      (what : Sharing) (before : List Client) (c : Client) (after : List Client)
      → All (IsAdmitted s) before
      → IsAdmitted s c
      → All (IsAdmitted s) after
      → All (IsAdmitted s) (share what before c after)
  unfolding share
  share-IsAdmitted shares before c after p q r =
      All-append (IsAdmitted s) before (c ∷ after) p (q, r)
  share-IsAdmitted refuses_itself before c after p q r =
      if_both (All (IsAdmitted s)) (any_normal (before ++ after)) (before ++ close c ∷ after)
        (before ++ c ∷ after)
        (All-append (IsAdmitted s) before (close c ∷ after) p (close-IsAdmitted s c q, r))
        (All-append (IsAdmitted s) before (c ∷ after) p (q, r))
  share-IsAdmitted closes_others before c after p q r =
      All-append (IsAdmitted s) (map close_normal before) (c ∷ map close_normal after)
        (close_normal-IsAdmitted before p) (q, close_normal-IsAdmitted after r)

-- The client and the list of handlers of one result.
the_client :
    {c c' : Client} {w w' : Sharing} {r r' : Registry}
    → ◌≡◌ {A = Option (Client × Sharing × Registry)} (some (c, w, r)) (some (c', w', r'))
    → c' ≡ c
the_client e = cc

the_registry :
    {c c' : Client} {w w' : Sharing} {r r' : Registry}
    → ◌≡◌ {A = Option (Client × Sharing × Registry)} (some (c, w, r)) (some (c', w', r'))
    → r' ≡ r
the_registry e = cc

-- What holds of a system.
pub record IsSecure (s : Server) (y : System) : Type 0 where
  pub guarded : IsGuarded y.registry
  pub clients : All (IsAdmitted s) y.clients

module _ (s : Server) (with_password : s.has_password ≡ true) (keeps : KeepsAdmission s)
    (fuel : ℕ) where
  Step-IsSecure : (y z : System) → Step s (suc (suc fuel)) y z → IsSecure s y → IsSecure s z
  unfolding process_message
  Step-IsSecure y z connects i = record {
    guarded = i.guarded;
    clients = (record { not_called = refl; admitted = λ h. cc }, i.clients);
  }
  Step-IsSecure y z (speaks {r = r} before c after io c' what r' _ e) i =
      let q = around s before c after i.clients in
      let d = dispatch-Serves s with_password keeps fuel io c.state c r refl q.1 i.guarded in
      let same : ◌≡◌ {A = Option (Client × Sharing × Registry)} (some (c', what, r'))
          (some (d.client, d.what, d.registry)) =
        sym e ∙ d.result in
      let good : IsAdmitted s c' = subst (IsAdmitted s) (the_client same) d.good in
      let guarded : IsGuarded r' = subst IsGuarded (the_registry same) d.guarded in
      record { guarded = guarded; clients = share-IsAdmitted s what before c' after q.0 good q.2 }

  -- The server has a password; it calls no client itself, the application registers no handlers, and what a client
  -- says once it is in does not change who has called whom, its challenge, or what was read of it. Then, after
  -- any number of clients and messages in any order, of each client that was let in (its state is
  -- `initialisation`, `initialisation_shared` or `normal`) the server has read a response that
  -- `passwordCheck` accepts for the challenge of that client, and the list of handlers has at most
  -- that for passwords.
  pub Run-IsSecure : (y : System) → Run s (suc (suc fuel)) y → IsSecure s y
  Run-IsSecure y start = record {
    guarded = record { vnc_last = refl; none_last = refl; only_vnc = inl refl };
    clients = tt;
  }
  Run-IsSecure y (step {y = x} r t) = Step-IsSecure x y t (Run-IsSecure x r)

  -- In the same runs, under the same conditions, the next message of any client is dealt with: the loops
  -- over the list of handlers end (a fuel of two is enough), and of a client that is inside behind it the
  -- server has read a response that `passwordCheck` accepts for its challenge.
  pub Run-answers :
      (y : System) (before : List Client) (c : Client) (after : List Client) (io : Io)
      → Run s (suc (suc fuel)) y
      → y.clients ≡ before ++ c ∷ after
      → (c' : Client) × (what : Sharing) × (r' : Registry) × ◌≡◌
          {A = Option (Client × Sharing × Registry)}
          (process_message s (suc (suc fuel)) io c y.registry)
          (some (c', what, r'))
        × IsAdmitted s c'
  unfolding process_message
  Run-answers y before c after io t e =
      let i = Run-IsSecure y t in
      let q = around s before c after (subst (All (IsAdmitted s)) e i.clients) in
      let d =
        dispatch-Serves s with_password keeps fuel io c.state c y.registry refl q.1 i.guarded in
      (d.client, d.what, d.registry, d.result, d.good)
