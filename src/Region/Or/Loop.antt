-- ===== src/Region/Or/Loop.antt =====
-- The loop of `sraSpanListOr`: its invariant, and one round of it.
use libvncserver.Base.{
  ℕ, Bool, true, false, ◌&&◌, ◌||◌, List, [], ◌∷◌, ◌≡◌, refl, arith, Bool-cases, inl, inr, ◌+◌, ◌*◌,
  suc, ◌<◌, ◌≤◌, length, ap, ◌∙◌,
}
use libvncserver.Base.Int.{ℤ, ◌≤ℤ◌, ◌<ℤ◌, leb_ℤ, ltb_ℤ}
use libvncserver.Region.Span.{Span, SubOps, Cursor, merge_previous}
use libvncserver.Region.Laws.{
  SubLaws, within, list_holds, Chain, Below, IsPlaced, Below-weaken, leb_ℤ_true, ltb_ℤ_true,
}
use libvncserver.Region.Merge.{
  cursor_holds, merge_previous_holds, merge_previous_placed, merge_previous_behind,
}
use libvncserver.Region.Or.{OrState, start_of, or_overlap, or_add, or_advance, or_body, or_test}
use libvncserver.Region.Or.Step.{Overlaps, or_overlap_placed, or_overlap_holds}

module _ {S P : Type 0} (ops : SubOps S) (laws : SubLaws ops P) where
  -- What is left of `src`, from `s_start` on.
  abbrev pub pending_holds : ℤ → P → ℤ → List (Span S) → Bool
  pending_holds x p s_start [] = false
  pending_holds x p s_start (s ∷ src) =
      (within s_start s.end x && laws.holds p s.sub) || list_holds laws.holds x p src

  abbrev pub or_holds : ℤ → P → OrState S → Bool
  or_holds x p st =
      list_holds laws.holds x p st.prevs
      || (list_holds laws.holds x p st.dest || pending_holds x p st.s_start st.src)

  -- It is in order, and comes after the spans that were passed.
  abbrev pub Pending : ℤ → List (Span S) → List (Span S) → Type 0
  Pending s_start prevs [] = Unit
  Pending s_start prevs (s ∷ src) =
      Below laws.IsValid s_start prevs
      × (s_start <ℤ s.end)
      × laws.IsValid s.sub
      × Chain laws.IsValid s.end src

  pub record IsOrState (st : OrState S) : Type 0 where
    pub bound : ℤ
    pub before : Below laws.IsValid bound st.prevs
    pub after : Chain laws.IsValid bound st.dest
    pub pending : Pending st.s_start st.prevs st.src

  pub start_of_holds :
      (x : ℤ) (p : P) (src : List (Span S))
      → pending_holds x p (start_of src) src ≡ list_holds laws.holds x p src
  unfolding start_of
  start_of_holds x p [] = refl
  start_of_holds x p (s ∷ src) = refl

  pub start_of-Pending :
      (lo : ℤ) (prevs src : List (Span S))
      → Below laws.IsValid lo prevs
      → Chain laws.IsValid lo src
      → Pending (start_of src) prevs src
  unfolding start_of
  start_of-Pending lo prevs [] b c = tt
  start_of-Pending lo prevs (s ∷ src) b c =
      (Below-weaken laws.IsValid lo s.start prevs c.0 b, c.1, c.2, c.3)

  abbrev pub or_measure : OrState S → ℕ
  or_measure st = 2 * length st.src + length st.dest

  abbrev at : List (Span S) → ℤ → List (Span S) → List (Span S) → OrState S
  at prevs s_start dest src = record { prevs = prevs; dest = dest; s_start = s_start; src = src }

  abbrev record_at : List (Span S) → Span S → List (Span S) → Cursor S
  record_at prevs d dest = record { prevs = prevs; cur = d; next = dest }

  overlaps :
      (prevs : List (Span S)) (s_start : ℤ) (d s : Span S) (dest src : List (Span S))
      → IsOrState (at prevs s_start (d ∷ dest) (s ∷ src))
      → (ltb_ℤ s_start d.end && ltb_ℤ d.start s.end) ≡ true
      → Overlaps ops laws s_start s (record { prevs = prevs; cur = d; next = dest })
  overlaps prevs s_start d s dest src v t = record {
    placed = record {
      before = Below-weaken laws.IsValid v.bound d.start prevs v.after.0 v.before;
      proper = v.after.1;
      valid = v.after.2;
      after = v.after.3;
    };
    before = v.pending.0;
    valid = v.pending.2;
    nonempty = v.pending.1;
    left = ground arith;
    right = ground arith;
  }

  or_add_holds :
      (x : ℤ) (p : P) (prevs : List (Span S)) (s_start : ℤ) (d s : Span S)
      (dest src : List (Span S))
      → IsOrState (at prevs s_start (d ∷ dest) (s ∷ src))
      → leb_ℤ s.end d.start ≡ true
      → or_holds x p (or_add ops (at prevs s_start (d ∷ dest) (s ∷ src)) d dest s src)
        ≡ or_holds x p (at prevs s_start (d ∷ dest) (s ∷ src))
  unfolding or_add
  or_add_holds x p prevs s_start d s dest src v e = ground (
    arith,
    start_of_holds x p src,
    merge_previous_holds ops laws x p (record s { start = s_start } ∷ prevs) d
        (leb_ℤ_true s.end d.start e, v.pending.1, v.pending.2, v.pending.0) v.after.1,
  )

  or_advance_holds :
      (x : ℤ) (p : P) (c : Cursor S) (s : Span S) (src : List (Span S))
      → or_holds x p (or_advance ops c s src)
        ≡ (cursor_holds ops laws x p c || (within c.cur.end s.end x && laws.holds p s.sub))
          || list_holds laws.holds x p src
  unfolding or_advance
  or_advance_holds x p c s src = elim (Bool-cases (ltb_ℤ c.cur.end s.end)) [
    | inl u ↦ rw u (ground arith)
    | inr u ↦ rw u (ground (arith, start_of_holds x p src))
  ]

  -- A round keeps the points of the state.
  pub or_round_holds :
      (x : ℤ) (p : P) (prevs : List (Span S)) (s_start : ℤ) (dest src : List (Span S))
      → IsOrState (at prevs s_start dest src)
      → or_holds x p (or_body ops (at prevs s_start dest src))
        ≡ or_holds x p (at prevs s_start dest src)
  unfolding or_body
  or_round_holds x p prevs s_start dest [] v = refl
  or_round_holds x p prevs s_start [] (s ∷ src) v = ground (arith, start_of_holds x p src)
  or_round_holds x p prevs s_start (d ∷ dest) (s ∷ src) v =
      elim (Bool-cases (leb_ℤ s.end d.start)) [
        | inl e ↦ rw e (or_add_holds x p prevs s_start d s dest src v e)
        | inr e ↦ rw e (elim (Bool-cases (ltb_ℤ s_start d.end && ltb_ℤ d.start s.end)) [
          | inl t ↦
              let here = record_at prevs d dest in
              let c = or_overlap ops s_start s here in
              let o = overlaps prevs s_start d s dest src v t in
              rw t (
                or_advance_holds x p c s src
                ∙ ap (λ b. b || list_holds laws.holds x p src)
                    (or_overlap_holds ops laws s_start s here x p o)
                ∙ ground arith)
          | inr t ↦ rw t (ground arith)
        ])
      ]

  or_add-IsOrState :
      (prevs : List (Span S)) (s_start : ℤ) (d s : Span S) (dest src : List (Span S))
      → IsOrState (at prevs s_start (d ∷ dest) (s ∷ src))
      → leb_ℤ s.end d.start ≡ true
      → IsOrState (or_add ops (at prevs s_start (d ∷ dest) (s ∷ src)) d dest s src)
        × (length (or_add ops (at prevs s_start (d ∷ dest) (s ∷ src)) d dest s src).dest
            ≡ length (d ∷ dest))
        × ((or_add ops (at prevs s_start (d ∷ dest) (s ∷ src)) d dest s src).src ≡ src)
  unfolding or_add
  or_add-IsOrState prevs s_start d s dest src v e =
      let q = v.pending in
      let l = leb_ℤ_true s.end d.start e in
      let m =
        merge_previous_placed ops laws (record s { start = s_start } ∷ prevs) d (l, q.1, q.2, q.0)
          v.after.1 in
      (
        record {
          bound = (merge_previous ops (record s { start = s_start } ∷ prevs) d).1.start;
          before = m.0;
          after = (
            omega arith,
            rw m.2 (let h = v.after.1 in omega arith),
            rw m.3 v.after.2,
            rw m.2 v.after.3,
          );
          pending =
              start_of-Pending s.end (merge_previous ops (record s { start = s_start } ∷ prevs) d).0
                src
                (merge_previous_behind ops laws s.end (record s { start = s_start } ∷ prevs) d
                  (omega arith, q.1, q.2, q.0))
                q.3;
        },
        refl,
        refl,
      )

  or_advance-IsOrState :
      (c : Cursor S) (s : Span S) (src : List (Span S))
      → IsPlaced laws.IsValid c
      → c.cur.start <ℤ s.end
      → laws.IsValid s.sub
      → Chain laws.IsValid s.end src
      → IsOrState (or_advance ops c s src)
  unfolding or_advance
  or_advance-IsOrState c s src v h vs k = elim (Bool-cases (ltb_ℤ c.cur.end s.end)) [
    | inl u ↦
        let behind : Below laws.IsValid c.cur.end (c.cur ∷ c.prevs) =
          (omega arith, v.proper, v.valid, v.before) in
        rw u (record {
          bound = c.cur.end;
          before = behind;
          after = v.after;
          pending = (behind, ltb_ℤ_true c.cur.end s.end u, vs, k);
        })
    | inr u ↦ rw u (record {
      bound = c.cur.start;
      before = v.before;
      after = (omega arith, v.proper, v.valid, v.after);
      pending =
          start_of-Pending s.end c.prevs src
            (Below-weaken laws.IsValid c.cur.start s.end c.prevs (omega arith) v.before) k;
    })
  ]

  or_advance_measure :
      (c : Cursor S) (s : Span S) (src : List (Span S)) (n : ℕ)
      → length c.next ≤ suc n
      → (ltb_ℤ c.cur.end s.end ≡ true → length c.next ≤ n)
      → or_measure (or_advance ops c s src) < 2 * length (s ∷ src) + suc n
  unfolding or_advance
  or_advance_measure c s src n h k = elim (Bool-cases (ltb_ℤ c.cur.end s.end)) [
    | inl u ↦ rw u (omega (arith, k u))
    | inr u ↦ rw u (omega arith)
  ]

  overlap_round :
      (prevs : List (Span S)) (s_start : ℤ) (d s : Span S) (dest src : List (Span S))
      → IsOrState (at prevs s_start (d ∷ dest) (s ∷ src))
      → (ltb_ℤ s_start d.end && ltb_ℤ d.start s.end) ≡ true
      → let c = or_overlap ops s_start s (record { prevs = prevs; cur = d; next = dest }) in
        IsOrState (or_advance ops c s src)
        × (or_measure (or_advance ops c s src) < or_measure (at prevs s_start (d ∷ dest) (s ∷ src)))
  overlap_round prevs s_start d s dest src v t =
      let here = record_at prevs d dest in
      let o = overlaps prevs s_start d s dest src v t in
      let r = or_overlap_placed ops laws s_start s here o in
      let high = r.start_high in
      let low = r.end_low in
      let l = o.right in
      let n = o.nonempty in
      (
        or_advance-IsOrState (or_overlap ops s_start s here) s src r.placed (omega arith) o.valid
            v.pending.3,
        or_advance_measure (or_overlap ops s_start s here) s src (length dest) r.grows (λ u.
            r.same
              (let u' = ltb_ℤ_true (or_overlap ops s_start s here).cur.end s.end u in omega arith)),
      )

  skip_round :
      (prevs : List (Span S)) (s_start : ℤ) (d s : Span S) (dest src : List (Span S))
      → IsOrState (at prevs s_start (d ∷ dest) (s ∷ src))
      → leb_ℤ s.end d.start ≡ false
      → (ltb_ℤ s_start d.end && ltb_ℤ d.start s.end) ≡ false
      → IsOrState (at (d ∷ prevs) s_start dest (s ∷ src))
        × (or_measure (at (d ∷ prevs) s_start dest (s ∷ src))
            < or_measure (at prevs s_start (d ∷ dest) (s ∷ src)))
  skip_round prevs s_start d s dest src v e t =
      let a = v.after in
      let q = v.pending in
      let l : d.end ≤ℤ s_start = ground arith in
      let low = Below-weaken laws.IsValid v.bound d.start prevs a.0 v.before in
      (
        record {
          bound = d.end;
          before = (omega arith, a.1, a.2, low);
          after = a.3;
          pending = ((l, a.1, a.2, low), q.1, q.2, q.3);
        },
        omega arith,
      )

  -- A round keeps the order, and comes nearer to the end.
  pub or_round-IsOrState :
      (prevs : List (Span S)) (s_start : ℤ) (dest src : List (Span S))
      → IsOrState (at prevs s_start dest src)
      → or_test ops (at prevs s_start dest src) ≡ true
      → IsOrState (or_body ops (at prevs s_start dest src))
        × (or_measure (or_body ops (at prevs s_start dest src))
            < or_measure (at prevs s_start dest src))
  unfolding or_body or_test
  or_round-IsOrState prevs s_start dest [] v g = cc
  or_round-IsOrState prevs s_start [] (s ∷ src) v g =
      let q = v.pending in
      let behind : Below laws.IsValid s.end (record s { start = s_start } ∷ prevs) =
        (omega arith, q.1, q.2, q.0) in
      (
        record {
          bound = s.end;
          before = behind;
          after = tt;
          pending = start_of-Pending s.end (record s { start = s_start } ∷ prevs) src behind q.3;
        },
        omega arith,
      )
  or_round-IsOrState prevs s_start (d ∷ dest) (s ∷ src) v g =
      elim (Bool-cases (leb_ℤ s.end d.start)) [
        | inl e ↦
            let a = or_add-IsOrState prevs s_start d s dest src v e in
            rw e (a.0, rw (a.1, a.2) (omega arith))
        | inr e ↦ rw e (elim (Bool-cases (ltb_ℤ s_start d.end && ltb_ℤ d.start s.end)) [
          | inl t ↦ rw t (overlap_round prevs s_start d s dest src v t)
          | inr t ↦ rw t (skip_round prevs s_start d s dest src v e t)
        ])
      ]
