-- ===== src/Region/Subtract/Advance.antt =====
-- `sraSpanListSubtract` moving on after an overlap.
use libvncserver.Base.{
  Bool, true, false, not, ◌&&◌, ◌||◌, List, ◌∷◌, ◌≡◌, arith, Bool-cases, inl, inr, ap, ◌∙◌,
}
use libvncserver.Base.Int.{ℤ, ◌<ℤ◌, ltb_ℤ}
use libvncserver.Region.Span.{Span, SubOps, Cursor}
use libvncserver.Region.Laws.{
  SubLaws, within, span_holds, list_holds, ltb_ℤ_true, ltb_ℤ_false, Chain-outside, Below-outside,
}
use libvncserver.Region.Subtract.{subtract_advance, subtract_merge}
use libvncserver.Region.Subtract.Loop.{subtract_holds, IsCut, Merged}

-- The points, by whether they lie before (`b`), at (`c`) or after (`a`) the position, in the old
-- and the new state: `q` is what the overlap leaves, `s` the source's span and `r` those after it.
passed_early :
    (b q a b' c' a' t : Bool)
    → a ≡ false
    → a' ≡ false
    → (b' || (c' || a')) ≡ b || (q || a)
    → ((c' || b') || (a' && not t)) ≡ b || (q || (a && not t))
passed_early b q a b' c' a' t h k e = ground arith

stayed_early :
    (b q a b' c' a' t r : Bool)
    → a ≡ false
    → a' ≡ false
    → r ≡ false
    → (b' || (c' || a')) ≡ b || (q || a)
    → (b' || ((c' || a') && not r)) ≡ b || (q || (a && not t))
stayed_early b q a b' c' a' t r h k n e = ground arith

passed_late :
    (b q a b' c' a' s r : Bool)
    → b ≡ false
    → b' ≡ false
    → q ≡ false
    → (c' ≡ true → s ≡ false)
    → (c' ≡ true → r ≡ false)
    → (b' || (c' || a')) ≡ b || (q || a)
    → ((c' || b') || (a' && not (s || r))) ≡ b || (q || (a && not (s || r)))
passed_late b q a b' c' a' s r h k n f g e = ground arith

stayed_late :
    (b q a b' c' a' s r : Bool)
    → b ≡ false
    → b' ≡ false
    → q ≡ false
    → (c' ≡ true → s ≡ false)
    → (s ≡ true → a' ≡ false)
    → (b' || (c' || a')) ≡ b || (q || a)
    → (b' || ((c' || a') && not r)) ≡ b || (q || (a && not (s || r)))
stayed_late b q a b' c' a' s r h k n f g e = ground arith

module _ {S P : Type 0} (ops : SubOps S) (laws : SubLaws ops P) where
  module _ (x : ℤ) (p : P) (c : Cursor S) (s : Span S) (src : List (Span S))
      (k : IsCut ops laws c s src) (m : Merged ops laws c s)
      (q : (laws.holds p c.cur.sub && not (laws.holds p s.sub))
        ≡ laws.holds p (ops.minus c.cur.sub s.sub).0) where
    abbrev target : Bool
    target =
        list_holds laws.holds x p c.prevs
        || ((within c.cur.start c.cur.end x && (laws.holds p c.cur.sub && not (laws.holds p s.sub)))
            || (list_holds laws.holds x p c.next && not (list_holds laws.holds x p (s ∷ src))))

    abbrev now : Cursor S
    now = subtract_merge ops c s

    stays :
        (list_holds laws.holds x p now.prevs
          || (span_holds laws.holds x p now.cur || list_holds laws.holds x p now.next))
        ≡ list_holds laws.holds x p c.prevs
          || ((within c.cur.start c.cur.end x
                && (laws.holds p c.cur.sub && not (laws.holds p s.sub)))
              || list_holds laws.holds x p c.next)
    stays = m.points x p ∙ rw (← q)

    -- What is left at the position is not in the source's span.
    taken : span_holds laws.holds x p now.cur ≡ true → span_holds laws.holds x p s ≡ false
    taken h = let e = ap (laws.holds p) m.same_sub in ground arith

    start_of_now : span_holds laws.holds x p now.cur ≡ true → x <ℤ now.cur.end
    start_of_now h = ground arith

    start_of_s : span_holds laws.holds x p s ≡ true → x <ℤ s.end
    start_of_s h = ground arith

    pub advance_holds : subtract_holds ops laws x p (subtract_advance now s src) ≡ target
    unfolding subtract_advance
    advance_holds =
        let to = m.to in
        let from = m.from in
        let high = k.high in
        let v = k.placed.proper in
        let after = Chain-outside laws.holds laws.IsValid x p c.cur.end c.next k.placed.after in
        let after' =
          Chain-outside laws.holds laws.IsValid x p now.cur.end now.next m.placed.after in
        let rest = Chain-outside laws.holds laws.IsValid x p s.end src k.rest in
        let before =
          Below-outside laws.holds laws.IsValid x p c.cur.start c.prevs k.placed.before in
        let before' =
          Below-outside laws.holds laws.IsValid x p now.cur.start now.prevs m.placed.before in
        elim (Bool-cases (ltb_ℤ now.cur.end s.end)) [
          | inl u ↦
              let u' = ltb_ℤ_true now.cur.end s.end u in
              rw u (elim (Bool-cases (ltb_ℤ x c.cur.end)) [
                | inl t ↦
                    let t' = ltb_ℤ_true x c.cur.end t in
                    passed_early _ _ _ _ _ _ _ (after t') (after' (omega arith)) stays
                | inr t ↦
                    let t' = ltb_ℤ_false x c.cur.end t in
                    passed_late _ _ _ _ _ _ _ _ (before (omega arith)) (before' (omega arith))
                      (ground arith) taken (λ h. rest (let z = start_of_now h in omega arith)) stays
              ])
          | inr u ↦
              let u' = ltb_ℤ_false now.cur.end s.end u in
              rw u (elim (Bool-cases (ltb_ℤ x c.cur.end)) [
                | inl t ↦
                    let t' = ltb_ℤ_true x c.cur.end t in
                    stayed_early _ _ _ _ _ _ _ _ (after t') (after' (omega arith))
                      (rest (omega arith)) stays
                | inr t ↦
                    let t' = ltb_ℤ_false x c.cur.end t in
                    stayed_late _ _ _ _ _ _ _ _ (before (omega arith)) (before' (omega arith))
                      (ground arith) taken (λ h. after' (let z = start_of_s h in omega arith)) stays
              ])
        ]
