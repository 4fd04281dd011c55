-- ===== src/Region/And/Cut.antt =====
-- The loops of `sraSpanListAnd` and `sraSpanListSubtract`: their invariant, and how the spans that
-- overlap are cut in `sraSpanListAnd`.
use libvncserver.Base.{
  ℕ, Bool, false, ◌&&◌, ◌||◌, List, [], ◌∷◌, ◌≡◌, arith, Bool-cases, inl, inr, ◌+◌, ◌*◌, ◌≤◌, suc,
  length, ap, if◌then◌else◌,
}
use libvncserver.Base.Int.{ℤ, ◌<ℤ◌, leb_ℤ, ltb_ℤ}
use libvncserver.Region.Span.{Span, SubOps, Cursor, split_end}
use libvncserver.Region.Laws.{
  SubLaws, within, list_holds, Chain, Below, IsPlaced, IsSorted, Below-weaken, leb_ℤ_false,
  Chain-outside,
}
use libvncserver.Region.Split.{split_end-IsPlaced}
use libvncserver.Region.And.{Walk, and_trim}

module _ {S P : Type 0} (ops : SubOps S) (laws : SubLaws ops P) where
  abbrev pub and_holds : ℤ → P → Walk S → Bool
  and_holds x p st =
      list_holds laws.holds x p st.prevs
      || (list_holds laws.holds x p st.dest && list_holds laws.holds x p st.src)

  -- The invariant of both loops over a destination and a source.
  pub record IsWalk (st : Walk S) : Type 0 where
    pub bound : ℤ
    pub before : Below laws.IsValid bound st.prevs
    pub after : Chain laws.IsValid bound st.dest
    pub source : IsSorted laws.IsValid st.src

  -- 1 where the span of the destination may still be cut by that of the source.
  abbrev pub ahead : List (Span S) → List (Span S) → ℕ
  ahead [] src = 0
  ahead (d ∷ dest) [] = 0
  ahead (d ∷ dest) (s ∷ src) = if ltb_ℤ d.start s.end then 1 else 0

  pub ahead-le : (dest src : List (Span S)) → ahead dest src ≤ 1
  ahead-le [] src = omega arith
  ahead-le (d ∷ dest) [] = omega arith
  ahead-le (d ∷ dest) (s ∷ src) = ground arith

  abbrev pub walk_measure : Walk S → ℕ
  walk_measure st = 2 * length st.src + length st.dest + ahead st.dest st.src

  abbrev pub walk : List (Span S) → List (Span S) → List (Span S) → Walk S
  walk prevs dest src = record { prevs = prevs; dest = dest; src = src }

  abbrev pub position : List (Span S) → Span S → List (Span S) → Cursor S
  position prevs d dest = record { prevs = prevs; cur = d; next = dest }

  -- Cutting at the end of the source's span leaves one more span ahead at most, and then none that
  -- the same span of the source could cut again.
  pub split_ahead :
      (s : Span S) (src : List (Span S)) (c : Cursor S)
      → IsPlaced laws.IsValid c
      → c.cur.start <ℤ s.end
      → (length (split_end s c).next ≤ suc (length c.next))
        × ((split_end s c).cur.end <ℤ s.end → length (split_end s c).next ≤ length c.next)
        × (length (split_end s c).next + ahead (split_end s c).next (s ∷ src) ≤ suc (length c.next))
  split_ahead s src c v r =
      let e = split_end-IsPlaced ops laws s c v r in
      elim e.4 [
        | inl q ↦
            let l : length (split_end s c).next ≡ suc (length c.next) = ap length q.2 in
            (
              omega arith,
              λ h. let h' : s.end <ℤ s.end = rw q.1 at h in omega arith,
              rw q.2 (ground arith),
            )
        | inr q ↦
            let l : length (split_end s c).next ≡ length c.next = ap length q.1 in
            (omega arith, λ h. omega arith, omega (arith, ahead-le (split_end s c).next (s ∷ src)))
      ]

  -- The two spans overlap, and each list goes on in order.
  pub record Meets (prevs : List (Span S)) (d : Span S) (dest : List (Span S)) (s : Span S)
      (src : List (Span S)) : Type 0 where
    pub placed : IsPlaced laws.IsValid (position prevs d dest)
    pub s_proper : s.start <ℤ s.end
    pub s_valid : laws.IsValid s.sub
    pub rest : Chain laws.IsValid s.end src
    pub left : s.start <ℤ d.end
    pub right : d.start <ℤ s.end

  pub meets :
      (prevs : List (Span S)) (d : Span S) (dest : List (Span S)) (s : Span S) (src : List (Span S))
      → IsWalk (walk prevs (d ∷ dest) (s ∷ src))
      → leb_ℤ s.end d.start ≡ false
      → leb_ℤ d.end s.start ≡ false
      → Meets prevs d dest s src
  meets prevs d dest s src v e t = record {
    placed = record {
      before = Below-weaken laws.IsValid v.bound d.start prevs v.after.0 v.before;
      proper = v.after.1;
      valid = v.after.2;
      after = v.after.3;
    };
    s_proper = v.source.1.1;
    s_valid = v.source.1.2;
    rest = v.source.1.3;
    left = leb_ℤ_false d.end s.start t;
    right = leb_ℤ_false s.end d.start e;
  }

  module _ (prevs : List (Span S)) (d : Span S) (dest : List (Span S)) (s : Span S)
      (src : List (Span S)) (m : Meets prevs d dest s src) where
    abbrev pub cut : Cursor S
    cut = split_end s (position prevs (and_trim s d) dest)

    pub and_trim-IsPlaced :
        IsPlaced laws.IsValid (position prevs (and_trim s d) dest) × ((and_trim s d).start <ℤ s.end)
    unfolding and_trim
    and_trim-IsPlaced =
        let r = m.right in
        let q = m.s_proper in
        let l = m.left in
        elim (Bool-cases (ltb_ℤ d.start s.start)) [
          | inl e ↦ rw e (
            record {
              before =
                  Below-weaken laws.IsValid d.start s.start prevs (ground arith) m.placed.before;
              proper = l;
              valid = m.placed.valid;
              after = m.placed.after;
            },
            q,
          )
          | inr e ↦ rw e (m.placed, r)
        ]

    -- Inside the overlap both spans decide; behind it nothing has changed.
    pub cut_holds :
        (x : ℤ) (p : P)
        → (list_holds laws.holds x p (d ∷ dest) && list_holds laws.holds x p (s ∷ src))
          ≡ (within cut.cur.start cut.cur.end x && (laws.holds p d.sub && laws.holds p s.sub))
            || (list_holds laws.holds x p cut.next && list_holds laws.holds x p (s ∷ src))
    unfolding split_end and_trim
    cut_holds x p =
        let a = Chain-outside laws.holds laws.IsValid x p d.end dest m.placed.after in
        let b = Chain-outside laws.holds laws.IsValid x p s.end src m.rest in
        let r = m.right in
        let q = m.s_proper in let l = m.left in let n = m.placed.proper in ground arith
