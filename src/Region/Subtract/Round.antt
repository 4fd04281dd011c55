-- ===== src/Region/Subtract/Round.antt =====
-- One round of `sraSpanListSubtract`.
use libvncserver.Base.{
  ℕ, suc, true, false, not, ◌&&◌, ◌||◌, List, [], ◌∷◌, ◌≡◌, refl, arith, Bool-cases, inl, inr, ◌+◌,
  ◌*◌, ◌<◌, ◌≤◌, length, ap, ◌∙◌,
}
use libvncserver.Base.Int.{ℤ, ◌<ℤ◌, leb_ℤ, ltb_ℤ}
use libvncserver.Region.Span.{Span, SubOps, Cursor, split_start}
use libvncserver.Region.Laws.{SubLaws, within, list_holds, ltb_ℤ_true, Chain-outside, Below-weaken}
use libvncserver.Region.Split.{split_start-IsPlaced}
use libvncserver.Region.And.{walk_test}
use libvncserver.Region.And.Cut.{
  IsWalk, ahead, ahead-le, walk_measure, walk, position, Meets, meets, split_ahead,
}
use libvncserver.Region.Subtract.{
  subtract_advance, subtract_merge, subtract_subspans, subtract_body,
}
use libvncserver.Region.Subtract.Loop.{
  subtract_holds, IsCut, Merged, merged, pieces, pieces_hold, pieces-IsCut,
}
use libvncserver.Region.Subtract.Advance.{advance_holds}

module _ {S P : Type 0} (ops : SubOps S) (laws : SubLaws ops P) where
  subspans_holds :
      (x : ℤ) (p : P) (c : Cursor S) (s : Span S) (src : List (Span S))
      → IsCut ops laws c s src
      → subtract_holds ops laws x p (subtract_subspans ops c s src)
        ≡ list_holds laws.holds x p c.prevs
          || ((within c.cur.start c.cur.end x
                && (laws.holds p c.cur.sub && not (laws.holds p s.sub)))
              || (list_holds laws.holds x p c.next && not (list_holds laws.holds x p (s ∷ src))))
  unfolding subtract_subspans
  subspans_holds x p c s src k =
      let null = λ (h : ops.is_null c.cur.sub ≡ true). laws.subtract_null c.cur.sub s.sub h p in
      let law = λ (h : ops.is_null c.cur.sub ≡ false).
        laws.subtract_holds c.cur.sub s.sub k.placed.valid k.s_valid h p in
      elim (Bool-cases (ops.is_null c.cur.sub || not (ops.minus c.cur.sub s.sub).1)) [
        | inl e ↦ rw e (ground arith)
        | inr e ↦
            rw e (advance_holds ops laws x p c s src k (merged ops laws c s src k e) (ground arith))
      ]

  advance-IsWalk :
      (c : Cursor S) (s : Span S) (src : List (Span S)) (n : ℕ)
      → IsCut ops laws c s src
      → Merged ops laws c s
      → length c.next ≤ suc n
      → (c.cur.end <ℤ s.end → length c.next ≤ n)
      → IsWalk ops laws (subtract_advance (subtract_merge ops c s) s src)
        × (walk_measure ops laws (subtract_advance (subtract_merge ops c s) s src)
            < 2 * length (s ∷ src) + suc n + 1)
  unfolding subtract_advance
  advance-IsWalk c s src n k m l below =
      let v = m.placed in
      let shorter = m.shorter in
      let to = m.to in
      let now = subtract_merge ops c s in
      elim (Bool-cases (ltb_ℤ now.cur.end s.end)) [
        | inl u ↦
            let u' = ltb_ℤ_true now.cur.end s.end u in
            let b = below (omega arith) in
            rw u (
              record {
                bound = now.cur.end;
                before = (omega arith, v.proper, v.valid, v.before);
                after = v.after;
                source = (s.start, (omega arith, k.s_proper, k.s_valid, k.rest));
              },
              omega (arith, ahead-le ops laws now.next (s ∷ src)),
            )
        | inr u ↦ rw u (
          record {
            bound = now.cur.start;
            before = v.before;
            after = (omega arith, v.proper, v.valid, v.after);
            source = (s.end, k.rest);
          },
          omega (arith, ahead-le ops laws (now.cur ∷ now.next) src),
        )
      ]

  subspans-IsWalk :
      (c : Cursor S) (s : Span S) (src : List (Span S)) (n : ℕ)
      → IsCut ops laws c s src
      → length c.next ≤ suc n
      → (c.cur.end <ℤ s.end → length c.next ≤ n)
      → length c.next + ahead ops laws c.next (s ∷ src) ≤ suc n
      → IsWalk ops laws (subtract_subspans ops c s src)
        × (walk_measure ops laws (subtract_subspans ops c s src) < 2 * length (s ∷ src) + suc n + 1)
  unfolding subtract_subspans
  subspans-IsWalk c s src n k l below a =
      elim (Bool-cases (ops.is_null c.cur.sub || not (ops.minus c.cur.sub s.sub).1)) [
        | inl e ↦ rw e (
          record {
            bound = c.cur.end;
            before =
                Below-weaken laws.IsValid c.cur.start c.cur.end c.prevs
                  (let h = k.placed.proper in omega arith) k.placed.before;
            after = k.placed.after;
            source = (s.start, (omega arith, k.s_proper, k.s_valid, k.rest));
          },
          omega arith,
        )
        | inr e ↦ rw e (advance-IsWalk c s src n k (merged ops laws c s src k e) l below)
      ]

  -- A round keeps the points of the destination that are not in the source.
  pub subtract_round_holds :
      (x : ℤ) (p : P) (prevs dest src : List (Span S))
      → IsWalk ops laws (walk ops laws prevs dest src)
      → subtract_holds ops laws x p (subtract_body ops (walk ops laws prevs dest src))
        ≡ subtract_holds ops laws x p (walk ops laws prevs dest src)
  unfolding subtract_body
  subtract_round_holds x p prevs dest [] v = refl
  subtract_round_holds x p prevs [] (s ∷ src) v = refl
  subtract_round_holds x p prevs (d ∷ dest) (s ∷ src) v =
      let a = v.after in
      let q = v.source.1 in
      elim (Bool-cases (leb_ℤ s.end d.start)) [
        | inl e ↦
            let n =
              Chain-outside laws.holds laws.IsValid x p d.start (d ∷ dest)
                (omega arith, a.1, a.2, a.3) in
            rw e (ground arith)
        | inr e ↦ rw e (elim (Bool-cases (leb_ℤ d.end s.start)) [
          | inl t ↦
              let n =
                Chain-outside laws.holds laws.IsValid x p s.start (s ∷ src)
                  (omega arith, q.1, q.2, q.3) in
              rw t (ground arith)
          | inr t ↦
              let m = meets ops laws prevs d dest s src v e t in
              rw t (
                subspans_holds x p (pieces ops laws prevs d dest s) s src
                  (pieces-IsCut ops laws prevs d dest s src m)
                ∙ pieces_hold ops laws x p prevs d dest s src m)
        ])
      ]

  pieces-ahead :
      (prevs : List (Span S)) (d : Span S) (dest : List (Span S)) (s : Span S) (src : List (Span S))
      → Meets ops laws prevs d dest s src
      → let c = pieces ops laws prevs d dest s in
        (length c.next ≤ suc (length dest))
        × (c.cur.end <ℤ s.end → length c.next ≤ length dest)
        × (length c.next + ahead ops laws c.next (s ∷ src) ≤ suc (length dest))
  pieces-ahead prevs d dest s src m =
      let c = position ops laws prevs d dest in
      let t = split_start-IsPlaced ops laws s.start c m.placed m.left in
      let q = m.s_proper in
      let r = m.right in
      let high : (split_start s.start c).cur.start <ℤ s.end = elim t.2 [
        | inl z ↦ rw z q
        | inr z ↦ rw z r
      ] in
      let h = split_ahead ops laws s src (split_start s.start c) t.0 high in
      let l : length (split_start s.start c).next ≡ length dest = ap length t.4 in
      (omega (arith, h.0), λ z. omega (arith, h.1 z), omega (arith, h.2))

  -- A round keeps the order, and comes nearer to the end.
  pub subtract_round-IsWalk :
      (prevs dest src : List (Span S))
      → IsWalk ops laws (walk ops laws prevs dest src)
      → walk_test (walk ops laws prevs dest src) ≡ true
      → IsWalk ops laws (subtract_body ops (walk ops laws prevs dest src))
        × (walk_measure ops laws (subtract_body ops (walk ops laws prevs dest src))
            < walk_measure ops laws (walk ops laws prevs dest src))
  unfolding subtract_body walk_test
  subtract_round-IsWalk prevs dest [] v g = cc
  subtract_round-IsWalk prevs [] (s ∷ src) v g = cc
  subtract_round-IsWalk prevs (d ∷ dest) (s ∷ src) v g =
      let a = v.after in
      let q = v.source.1 in
      elim (Bool-cases (leb_ℤ s.end d.start)) [
        | inl e ↦ rw e (
          record { bound = v.bound; before = v.before; after = a; source = (s.end, q.3) },
          omega (arith, ahead-le ops laws (d ∷ dest) src),
        )
        | inr e ↦
            let one : ahead ops laws (d ∷ dest) (s ∷ src) ≡ 1 = ground arith in
            rw e (elim (Bool-cases (leb_ℤ d.end s.start)) [
              | inl t ↦ rw t (
                record {
                  bound = d.end;
                  before = (
                    omega arith,
                    a.1,
                    a.2,
                    Below-weaken laws.IsValid v.bound d.start prevs a.0 v.before,
                  );
                  after = a.3;
                  source = v.source;
                },
                omega (arith, one, ahead-le ops laws dest (s ∷ src)),
              )
              | inr t ↦
                  let m = meets ops laws prevs d dest s src v e t in
                  let h = pieces-ahead prevs d dest s src m in
                  let w =
                    subspans-IsWalk (pieces ops laws prevs d dest s) s src (length dest)
                      (pieces-IsCut ops laws prevs d dest s src m) h.0 h.1 h.2 in
                  rw t (w.0, omega (arith, one, w.1))
            ])
      ]
