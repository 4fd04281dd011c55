-- ===== src/Region/Split.antt =====
-- Cutting the span under the cursor keeps the points and the order.
use libvncserver.Base.{◌∷◌, ◌≡◌, refl, arith, Bool-cases, inl, inr, ◌⊎◌}
use libvncserver.Base.Int.{ℤ, ◌≤ℤ◌, ◌<ℤ◌, ltb_ℤ}
use libvncserver.Region.Span.{Span, SubOps, Cursor, split_end, split_start}
use libvncserver.Region.Laws.{SubLaws, IsPlaced}
use libvncserver.Region.Merge.{cursor_holds}

module _ {S P : Type 0} (ops : SubOps S) (laws : SubLaws ops P) where
  pub split_end_holds :
      (x : ℤ) (p : P) (s : Span S) (c : Cursor S)
      → IsPlaced laws.IsValid c
      → c.cur.start <ℤ s.end
      → cursor_holds ops laws x p (split_end s c) ≡ cursor_holds ops laws x p c
  unfolding split_end
  split_end_holds x p s c v h = ground arith

  pub split_end-IsPlaced :
      (s : Span S) (c : Cursor S)
      → IsPlaced laws.IsValid c
      → c.cur.start <ℤ s.end
      → let m = split_end s c in
        IsPlaced laws.IsValid m
        × (m.cur.start ≡ c.cur.start)
        × (m.cur.end ≤ℤ c.cur.end)
        × (m.cur.end ≤ℤ s.end)
        × ((s.end <ℤ c.cur.end)
              × (m.cur.end ≡ s.end)
              × (m.next ≡ record c.cur { start = s.end } ∷ c.next)
            ⊎ (m.cur.end ≡ c.cur.end) × (m.next ≡ c.next))
  unfolding split_end
  split_end-IsPlaced s c v h = elim (Bool-cases (ltb_ℤ s.end c.cur.end)) [
    | inl e ↦
        let l : s.end <ℤ c.cur.end = ground arith in
        rw e (
          record {
            before = v.before;
            proper = h;
            valid = v.valid;
            after = (omega arith, l, v.valid, v.after);
          },
          refl,
          omega arith,
          omega arith,
          inl (l, refl, refl),
        )
    | inr e ↦ rw e (v, refl, omega arith, ground arith, inr (refl, refl))
  ]

  pub split_start_holds :
      (x : ℤ) (p : P) (s_start : ℤ) (c : Cursor S)
      → IsPlaced laws.IsValid c
      → s_start <ℤ c.cur.end
      → cursor_holds ops laws x p (split_start s_start c) ≡ cursor_holds ops laws x p c
  unfolding split_start
  split_start_holds x p s_start c v h = ground arith

  pub split_start-IsPlaced :
      (s_start : ℤ) (c : Cursor S)
      → IsPlaced laws.IsValid c
      → s_start <ℤ c.cur.end
      → let m = split_start s_start c in
        IsPlaced laws.IsValid m
        × (s_start ≤ℤ m.cur.start)
        × ((m.cur.start ≡ s_start) ⊎ (m.cur.start ≡ c.cur.start))
        × (m.cur.end ≡ c.cur.end)
        × (m.next ≡ c.next)
  unfolding split_start
  split_start-IsPlaced s_start c v h = elim (Bool-cases (ltb_ℤ c.cur.start s_start)) [
    | inl e ↦
        let l : c.cur.start <ℤ s_start = ground arith in
        rw e (
          record {
            before = (omega arith, l, v.valid, v.before);
            proper = h;
            valid = v.valid;
            after = v.after;
          },
          omega arith,
          inl refl,
          refl,
          refl,
        )
    | inr e ↦ rw e (v, ground arith, inr refl, refl, refl)
  ]
