-- ===== src/Region/Or/Overlap.antt =====
-- The stages of the overlap of two spans in `sraSpanListOr`: the points and the order.
use libvncserver.Base.{◌&&◌, ◌||◌, ◌∷◌, ◌≡◌, refl, arith, Bool-cases, inl, inr}
use libvncserver.Base.Int.{ℤ, ◌≤ℤ◌, ◌<ℤ◌, ltb_ℤ}
use libvncserver.Region.Span.{Span, SubOps, Cursor}
use libvncserver.Region.Laws.{SubLaws, within, Below, IsPlaced}
use libvncserver.Region.Merge.{cursor_holds, merge_back_holds, merge_back-IsPlaced}
use libvncserver.Region.Or.{or_insert, or_subspans}

module _ {S P : Type 0} (ops : SubOps S) (laws : SubLaws ops P) where
  -- The new span stands between the spans before the position and the one under it.
  insert-IsPlaced :
      (s_start : ℤ) (s : Span S) (c : Cursor S)
      → IsPlaced laws.IsValid c
      → Below laws.IsValid s_start c.prevs
      → laws.IsValid s.sub
      → s_start <ℤ c.cur.start
      → IsPlaced laws.IsValid
          (record c { prevs = record s { start = s_start; end = c.cur.start } ∷ c.prevs })
  insert-IsPlaced s_start s c v b vs h = record {
    before = (omega arith, h, vs, b);
    proper = v.proper;
    valid = v.valid;
    after = v.after;
  }

  -- The new span's points before the destination's start are added.
  pub or_insert_holds :
      (x : ℤ) (p : P) (s_start : ℤ) (s : Span S) (c : Cursor S)
      → IsPlaced laws.IsValid c
      → Below laws.IsValid s_start c.prevs
      → laws.IsValid s.sub
      → cursor_holds ops laws x p (or_insert ops s_start s c)
        ≡ cursor_holds ops laws x p c || (within s_start c.cur.start x && laws.holds p s.sub)
  unfolding or_insert
  or_insert_holds x p s_start s c v b vs = elim (Bool-cases (ltb_ℤ s_start c.cur.start)) [
    | inl e ↦ rw e (
        ground (
          arith,
          merge_back_holds ops laws x p _ (insert-IsPlaced s_start s c v b vs (ground arith)),
        ))
    | inr e ↦ rw e (ground arith)
  ]

  pub or_insert-IsPlaced :
      (s_start : ℤ) (s : Span S) (c : Cursor S)
      → IsPlaced laws.IsValid c
      → Below laws.IsValid s_start c.prevs
      → laws.IsValid s.sub
      → let m = or_insert ops s_start s c in
        IsPlaced laws.IsValid m
        × (m.cur.start ≤ℤ c.cur.start)
        × (m.cur.end ≡ c.cur.end)
        × (m.next ≡ c.next)
  unfolding or_insert
  or_insert-IsPlaced s_start s c v b vs = elim (Bool-cases (ltb_ℤ s_start c.cur.start)) [
    | inl e ↦
        let m =
          merge_back-IsPlaced ops laws _ (insert-IsPlaced s_start s c v b vs (ground arith)) in
        rw e (m.0, m.1, m.2, m.4)
    | inr e ↦ rw e (v, omega arith, refl, refl)
  ]

  pub or_subspans_holds :
      (x : ℤ) (p : P) (s : Span S) (c : Cursor S)
      → IsPlaced laws.IsValid c
      → laws.IsValid s.sub
      → cursor_holds ops laws x p (or_subspans ops s c)
        ≡ cursor_holds ops laws x p c || (within c.cur.start c.cur.end x && laws.holds p s.sub)
  unfolding or_subspans
  or_subspans_holds x p s c v vs = ground (arith, laws.union_holds c.cur.sub s.sub v.valid vs p)

  pub or_subspans-IsPlaced :
      (s : Span S) (c : Cursor S)
      → IsPlaced laws.IsValid c
      → laws.IsValid s.sub
      → IsPlaced laws.IsValid (or_subspans ops s c)
  unfolding or_subspans
  or_subspans-IsPlaced s c v vs = record {
    before = v.before;
    proper = v.proper;
    valid = laws.union-IsValid c.cur.sub s.sub v.valid vs;
    after = v.after;
  }
