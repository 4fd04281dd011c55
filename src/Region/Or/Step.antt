-- ===== src/Region/Or/Step.antt =====
-- One round of `sraSpanListOr`.
use libvncserver.Base.{
  Bool, true, false, ◌&&◌, ◌||◌, ◌≡◌, arith, Bool-cases, inl, inr, ◌⊎◌, ◌≤◌, length, suc, ap, ◌∙◌,
}
use mathlib.Core.Bool.{or-true}
use libvncserver.Base.Int.{ℤ, ◌≤ℤ◌, ◌<ℤ◌, ltb_ℤ}
use libvncserver.Region.Span.{Span, SubOps, Cursor, merge_back, split_end, split_start}
use libvncserver.Region.Laws.{
  SubLaws, within, Below, IsPlaced, within_intro, within_low, within_high, within_narrow,
  ltb_ℤ_true, ltb_ℤ_false,
}
use libvncserver.Region.Merge.{
  cursor_holds, merge_back_holds, merge_back-IsPlaced, merge_forward_holds, merge_forward-IsPlaced,
}
use libvncserver.Region.Or.{or_insert, or_subspans, or_overlap}
use libvncserver.Region.Or.Overlap.{
  or_insert_holds, or_insert-IsPlaced, or_subspans_holds, or_subspans-IsPlaced,
}
use libvncserver.Region.Split.{
  split_end_holds, split_end-IsPlaced, split_start_holds, split_start-IsPlaced,
}

covered :
    (old now h n1 n2 c rest all : Bool)
    → now ≡ old || (n1 && h) || (n2 && h)
    → (c ≡ true → h ≡ true → now ≡ true)
    → (all ≡ true → (n1 ≡ true) ⊎ (n2 ≡ true) ⊎ (c ≡ true) ⊎ (rest ≡ true))
    → (all ≡ false → (n1 ≡ false) × (n2 ≡ false) × (rest ≡ false))
    → (now || (rest && h)) ≡ old || (all && h)
covered old now h n1 n2 c rest all e cover inside outside = ground arith

-- The new span is `[ss, se)`, what was put in `[ss, ds)` and `[a1, a2)`, and the span under the
-- cursor reaches from `f1` to `f2` in the end.
module _ (x ss se ds de a1 a2 f1 f2 : ℤ) (low : ss ≤ℤ a1) (first : (a1 ≡ ss) ⊎ (a1 ≤ℤ ds))
    (high : a2 ≤ℤ se) (last : (a2 ≡ se) ⊎ (a2 ≡ de)) (meet : ds <ℤ se) (meet' : ss <ℤ de)
    (from : f1 ≤ℤ a1) (to : a2 ≤ℤ f2) (proper : a1 <ℤ a2) where
  inside :
      within ss se x ≡ true
      → (within ss ds x ≡ true)
        ⊎ (within a1 a2 x ≡ true)
        ⊎ (within f1 f2 x ≡ true)
        ⊎ (within f2 se x ≡ true)
  inside e =
      let l = within_low ss se x e in
      let h = within_high ss se x e in
      elim (Bool-cases (ltb_ℤ x ds)) [
        | inl t ↦ inl (within_intro ss ds x l (ltb_ℤ_true x ds t))
        | inr t ↦
            let t' = ltb_ℤ_false x ds t in
            let a1x : a1 ≤ℤ x = elim first [ inl q ↦ rw q l | inr q ↦ omega arith ] in
            elim (Bool-cases (ltb_ℤ x a2)) [
              | inl u ↦ inr (inl (within_intro a1 a2 x a1x (ltb_ℤ_true x a2 u)))
              | inr u ↦
                  let u' = ltb_ℤ_false x a2 u in
                  elim (Bool-cases (ltb_ℤ x f2)) [
                    | inl v ↦
                        inr (inr (inl (within_intro f1 f2 x (omega arith) (ltb_ℤ_true x f2 v))))
                    | inr v ↦ inr (inr (inr (within_intro f2 se x (ltb_ℤ_false x f2 v) h)))
                  ]
            ]
      ]

  outside :
      within ss se x ≡ false
      → (within ss ds x ≡ false) × (within a1 a2 x ≡ false) × (within f2 se x ≡ false)
  outside e = (
    within_narrow ss se ss ds x (omega arith) (omega arith) e,
    within_narrow ss se a1 a2 x (omega arith) (omega arith) e,
    within_narrow ss se f2 se x (omega arith) (omega arith) e,
  )

  points_covered :
      (old now h : Bool)
      → now ≡ old || (within ss ds x && h) || (within a1 a2 x && h)
      → (within f1 f2 x ≡ true → h ≡ true → now ≡ true)
      → (now || (within f2 se x && h)) ≡ old || (within ss se x && h)
  points_covered old now h e cover = covered old now h _ _ _ _ _ e cover inside outside

module _ {S P : Type 0} (ops : SubOps S) (laws : SubLaws ops P) where
  cursor_true :
      (x : ℤ) (p : P) (c : Cursor S)
      → within c.cur.start c.cur.end x ≡ true
      → laws.holds p c.cur.sub ≡ true
      → cursor_holds ops laws x p c ≡ true
  cursor_true x p c w h = rw (w, h, or-true)

module _ {S P : Type 0} (ops : SubOps S) (laws : SubLaws ops P) (s_start : ℤ) (s : Span S)
    (c : Cursor S) where
  abbrev after_insert : Cursor S
  after_insert = or_insert ops s_start s c

  abbrev after_end : Cursor S
  after_end = split_end s after_insert

  abbrev after_start : Cursor S
  after_start = split_start s_start after_end

  abbrev after_subspans : Cursor S
  after_subspans = or_subspans ops s after_start

  abbrev after_back : Cursor S
  after_back = merge_back ops after_subspans

  -- When the code comes to the overlap.
  pub record Overlaps : Type 0 where
    pub placed : IsPlaced laws.IsValid c
    pub before : Below laws.IsValid s_start c.prevs
    pub valid : laws.IsValid s.sub
    pub nonempty : s_start <ℤ s.end
    pub left : s_start <ℤ c.cur.end
    pub right : c.cur.start <ℤ s.end

  -- How far the overlap is from the spans that go in.
  record Pieces : Type 0 where
    placed1 : IsPlaced laws.IsValid after_insert
    placed2 : IsPlaced laws.IsValid after_end
    placed3 : IsPlaced laws.IsValid after_start
    start_low : (s_start ≤ℤ after_start.cur.start)
    start_high : (after_start.cur.start ≡ s_start) ⊎ (after_start.cur.start ≤ℤ c.cur.start)
    end_low : after_start.cur.end ≤ℤ s.end
    end_high : (after_start.cur.end ≡ s.end) ⊎ (after_start.cur.end ≡ c.cur.end)
    end_le : after_start.cur.end ≤ℤ c.cur.end
    grows : length after_start.next ≤ suc (length c.next)
    same : c.cur.end ≤ℤ s.end → length after_start.next ≤ length c.next

  Overlaps-Pieces : Overlaps → Pieces
  Overlaps-Pieces o =
      let i = or_insert-IsPlaced ops laws s_start s c o.placed o.before o.valid in
      let r = o.right in
      let l = o.left in
      let n = o.nonempty in
      let e = split_end-IsPlaced ops laws s after_insert i.0 (omega arith) in
      let t = split_start-IsPlaced ops laws s_start after_end e.0 (ground arith) in
      record {
        placed1 = i.0;
        placed2 = e.0;
        placed3 = t.0;
        start_low = t.1;
        start_high = ground arith;
        end_low = ground arith;
        end_high = ground arith;
        end_le = ground arith;
        grows = ground arith;
        same = λ h. ground arith;
      }

  -- The order after the overlap, how far the span under the cursor reaches, and how many spans are
  -- still ahead: one more only where the destination reached beyond the new span.
  pub record Overlapped : Type 0 where
    pub placed : IsPlaced laws.IsValid (or_overlap ops s_start s c)
    from : (or_overlap ops s_start s c).cur.start ≤ℤ after_start.cur.start
    to : after_start.cur.end ≤ℤ (or_overlap ops s_start s c).cur.end
    joined : (or_overlap ops s_start s c).cur.sub ≡ ops.join after_start.cur.sub s.sub
    pub start_high :
        ((or_overlap ops s_start s c).cur.start ≤ℤ s_start)
        ⊎ ((or_overlap ops s_start s c).cur.start ≤ℤ c.cur.start)
    pub end_low :
        (s.end ≤ℤ (or_overlap ops s_start s c).cur.end)
        ⊎ (c.cur.end ≤ℤ (or_overlap ops s_start s c).cur.end)
    pub grows : length (or_overlap ops s_start s c).next ≤ suc (length c.next)
    pub same : c.cur.end ≤ℤ s.end → length (or_overlap ops s_start s c).next ≤ length c.next

  pub or_overlap_placed : Overlaps → Overlapped
  unfolding or_overlap or_subspans
  or_overlap_placed o =
      let q = Overlaps-Pieces o in
      let b =
        merge_back-IsPlaced ops laws after_subspans
          (or_subspans-IsPlaced ops laws s after_start q.placed3 o.valid) in
      let f = merge_forward-IsPlaced ops laws after_back b.0 in
      record {
        placed = f.0;
        from = ground arith;
        to = ground arith;
        joined = f.3 ∙ b.3;
        start_high = ground arith;
        end_low = ground arith;
        grows = ground arith;
        same = λ h. let k = q.same h in ground arith;
      }

  stages_hold :
      (x : ℤ) (p : P)
      → Overlaps
      → cursor_holds ops laws x p (or_overlap ops s_start s c)
        ≡ cursor_holds ops laws x p c
          || (within s_start c.cur.start x && laws.holds p s.sub)
          || (within after_start.cur.start after_start.cur.end x && laws.holds p s.sub)
  unfolding or_overlap
  stages_hold x p o =
      let q = Overlaps-Pieces o in
      let r = o.right in
      let l = o.left in
      let i = or_insert-IsPlaced ops laws s_start s c o.placed o.before o.valid in
      let e = split_end-IsPlaced ops laws s after_insert i.0 (omega arith) in
      let u = or_subspans-IsPlaced ops laws s after_start q.placed3 o.valid in
      let b = merge_back-IsPlaced ops laws after_subspans u in
      merge_forward_holds ops laws x p after_back b.0
      ∙ merge_back_holds ops laws x p after_subspans u
      ∙ or_subspans_holds ops laws x p s after_start q.placed3 o.valid
      ∙ ap (λ v. v || (within after_start.cur.start after_start.cur.end x && laws.holds p s.sub))
          (split_start_holds ops laws x p s_start after_end q.placed2 (ground arith)
            ∙ split_end_holds ops laws x p s after_insert q.placed1 (omega arith)
            ∙ or_insert_holds ops laws x p s_start s c o.placed o.before o.valid)

  covers :
      (x : ℤ) (p : P)
      → Overlaps
      → within (or_overlap ops s_start s c).cur.start (or_overlap ops s_start s c).cur.end x ≡ true
      → laws.holds p s.sub ≡ true
      → cursor_holds ops laws x p (or_overlap ops s_start s c) ≡ true
  covers x p o w h =
      let q = Overlaps-Pieces o in
      let u = laws.union_holds after_start.cur.sub s.sub q.placed3.valid o.valid p in
      let j = ap (laws.holds p) (or_overlap_placed o).joined in
      cursor_true ops laws x p (or_overlap ops s_start s c) w (j ∙ u ∙ rw (h, or-true))

  -- With what is left of the new span, the points are those of the destination and of the new span.
  pub or_overlap_holds :
      (x : ℤ) (p : P)
      → Overlaps
      → (cursor_holds ops laws x p (or_overlap ops s_start s c)
          || (within (or_overlap ops s_start s c).cur.end s.end x && laws.holds p s.sub))
        ≡ cursor_holds ops laws x p c || (within s_start s.end x && laws.holds p s.sub)
  or_overlap_holds x p o =
      let q = Overlaps-Pieces o in
      let r = or_overlap_placed o in
      points_covered x s_start s.end c.cur.start c.cur.end after_start.cur.start after_start.cur.end
        (or_overlap ops s_start s c).cur.start (or_overlap ops s_start s c).cur.end q.start_low
        q.start_high q.end_low q.end_high o.right o.left r.from r.to q.placed3.proper
        (cursor_holds ops laws x p c) (cursor_holds ops laws x p (or_overlap ops s_start s c))
        (laws.holds p s.sub) (stages_hold x p o) (covers x p o)
