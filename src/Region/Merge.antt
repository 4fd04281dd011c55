-- ===== src/Region/Merge.antt =====
-- `sraSpanMergePrevious` and `sraSpanMergeNext` keep the points and the order of a list.
use libvncserver.Base.{
  Bool, true, ◌&&◌, ◌||◌, List, [], ◌∷◌, ◌≡◌, ◌≤◌, refl, arith, length, Bool-cases, inl, inr,
}
use libvncserver.Base.Int.{ℤ, ◌≤ℤ◌, ◌<ℤ◌, eqb_ℤ}
use libvncserver.Region.Span.{
  Span, SubOps, Cursor, unwind, merge_previous, merge_next, merge_back, merge_forward,
}
use libvncserver.Region.Laws.{
  SubLaws, span_holds, list_holds, Chain, Below, IsPlaced, IsSorted, Chain-weaken, Below-weaken,
}

module _ {S P : Type 0} (ops : SubOps S) (laws : SubLaws ops P) where
  abbrev pub cursor_holds : ℤ → P → Cursor S → Bool
  cursor_holds x p c =
      list_holds laws.holds x p c.prevs
      || (span_holds laws.holds x p c.cur || list_holds laws.holds x p c.next)

  pub unwind_holds :
      (x : ℤ) (p : P) (prevs right : List (Span S))
      → list_holds laws.holds x p (unwind prevs right)
        ≡ list_holds laws.holds x p prevs || list_holds laws.holds x p right
  unfolding unwind
  unwind_holds x p [] right = refl
  unwind_holds x p (s ∷ prevs) right = ground (arith, unwind_holds x p prevs (s ∷ right))

  pub unwind-IsSorted :
      (hi : ℤ) (prevs right : List (Span S))
      → Below laws.IsValid hi prevs
      → Chain laws.IsValid hi right
      → IsSorted laws.IsValid (unwind prevs right)
  unfolding unwind
  unwind-IsSorted hi [] right b c = (hi, c)
  unwind-IsSorted hi (s ∷ prevs) right b c =
      unwind-IsSorted s.start prevs (s ∷ right) b.3
        (omega arith, b.1, b.2, Chain-weaken laws.IsValid hi s.end right b.0 c)

  -- Two spans that touch, with equal subspans, have the points of the span that covers both.
  join_holds :
      (x : ℤ) (p : P) (s t : Span S)
      → (eqb_ℤ s.end t.start && ops.equal s.sub t.sub) ≡ true
      → s.start <ℤ s.end
      → t.start <ℤ t.end
      → (span_holds laws.holds x p s || span_holds laws.holds x p t)
        ≡ span_holds laws.holds x p (record t { start = s.start })
  join_holds x p s t e hs ht = ground (arith, laws.equal_sound s.sub t.sub)

  pub merge_previous_holds :
      (x : ℤ) (p : P) (prevs : List (Span S)) (s : Span S)
      → Below laws.IsValid s.start prevs
      → s.start <ℤ s.end
      → (let m = merge_previous ops prevs s in
          list_holds laws.holds x p m.0 || span_holds laws.holds x p m.1)
        ≡ list_holds laws.holds x p prevs || span_holds laws.holds x p s
  unfolding merge_previous
  merge_previous_holds x p [] s b h = refl
  merge_previous_holds x p (t ∷ prevs) s b h =
      elim (Bool-cases (eqb_ℤ t.end s.start && ops.equal t.sub s.sub)) [
        | inl e ↦ rw e (
            ground (
              arith,
              join_holds x p t s e b.1 h,
              merge_previous_holds x p prevs (record s { start = t.start }) b.3 (omega arith),
            ))
        | inr e ↦ rw e
      ]

  pub merge_previous_placed :
      (prevs : List (Span S)) (s : Span S)
      → Below laws.IsValid s.start prevs
      → s.start <ℤ s.end
      → let m = merge_previous ops prevs s in
        Below laws.IsValid m.1.start m.0
        × (m.1.start ≤ℤ s.start)
        × (m.1.end ≡ s.end)
        × (m.1.sub ≡ s.sub)
  unfolding merge_previous
  merge_previous_placed [] s b h = (tt, omega arith, refl, refl)
  merge_previous_placed (t ∷ prevs) s b h =
      elim (Bool-cases (eqb_ℤ t.end s.start && ops.equal t.sub s.sub)) [
        | inl e ↦ rw e (
            let ih = merge_previous_placed prevs (record s { start = t.start }) b.3 (omega arith) in
            (ih.0, omega arith, ih.2, ih.3))
        | inr e ↦ rw e (b, omega arith, refl, refl)
      ]

  -- What was before a bound stays before it.
  pub merge_previous_behind :
      (b : ℤ) (prevs : List (Span S)) (s : Span S)
      → Below laws.IsValid b prevs
      → Below laws.IsValid b (merge_previous ops prevs s).0
  unfolding merge_previous
  merge_previous_behind b [] s h = tt
  merge_previous_behind b (t ∷ prevs) s h =
      elim (Bool-cases (eqb_ℤ t.end s.start && ops.equal t.sub s.sub)) [
        | inl e ↦ rw e (
            merge_previous_behind b prevs (record s { start = t.start })
              (Below-weaken laws.IsValid t.start b prevs (let l = h.1 in omega arith) h.3))
        | inr e ↦ rw e h
      ]

  pub merge_next_holds :
      (x : ℤ) (p : P) (s : Span S) (next : List (Span S))
      → s.start <ℤ s.end
      → Chain laws.IsValid s.end next
      → (let m = merge_next ops s next in
          span_holds laws.holds x p m.0 || list_holds laws.holds x p m.1)
        ≡ span_holds laws.holds x p s || list_holds laws.holds x p next
  unfolding merge_next
  merge_next_holds x p s [] h c = refl
  merge_next_holds x p s (t ∷ next) h c =
      elim (Bool-cases (eqb_ℤ t.start s.end && ops.equal t.sub s.sub)) [
        | inl e ↦ rw e (
            ground (
              arith,
              laws.equal_sound t.sub s.sub,
              merge_next_holds x p (record s { end = t.end }) next (omega arith) c.3,
            ))
        | inr e ↦ rw e
      ]

  pub merge_next_placed :
      (s : Span S) (next : List (Span S))
      → s.start <ℤ s.end
      → Chain laws.IsValid s.end next
      → let m = merge_next ops s next in
        Chain laws.IsValid m.0.end m.1
        × (s.end ≤ℤ m.0.end)
        × (m.0.start ≡ s.start)
        × (m.0.sub ≡ s.sub)
        × (length m.1 ≤ length next)
  unfolding merge_next
  merge_next_placed s [] h c = (tt, omega arith, refl, refl, omega arith)
  merge_next_placed s (t ∷ next) h c =
      elim (Bool-cases (eqb_ℤ t.start s.end && ops.equal t.sub s.sub)) [
        | inl e ↦ rw e (
            let ih = merge_next_placed (record s { end = t.end }) next (omega arith) c.3 in
            (ih.0, omega arith, ih.2, ih.3, omega arith))
        | inr e ↦ rw e (c, omega arith, refl, refl, omega arith)
      ]

  pub merge_back_holds :
      (x : ℤ) (p : P) (c : Cursor S)
      → IsPlaced laws.IsValid c
      → cursor_holds x p (merge_back ops c) ≡ cursor_holds x p c
  unfolding merge_back
  merge_back_holds x p c v =
      ground (arith, merge_previous_holds x p c.prevs c.cur v.before v.proper)

  pub merge_forward_holds :
      (x : ℤ) (p : P) (c : Cursor S)
      → IsPlaced laws.IsValid c
      → cursor_holds x p (merge_forward ops c) ≡ cursor_holds x p c
  unfolding merge_forward
  merge_forward_holds x p c v = ground (arith, merge_next_holds x p c.cur c.next v.proper v.after)

  -- The span under the cursor grows at its start only.
  pub merge_back-IsPlaced :
      (c : Cursor S)
      → IsPlaced laws.IsValid c
      → let m = merge_back ops c in
        IsPlaced laws.IsValid m
        × (m.cur.start ≤ℤ c.cur.start)
        × (m.cur.end ≡ c.cur.end)
        × (m.cur.sub ≡ c.cur.sub)
        × (m.next ≡ c.next)
  unfolding merge_back
  merge_back-IsPlaced c v =
      let m = merge_previous_placed c.prevs c.cur v.before v.proper in
      (
        record {
          before = m.0;
          proper = rw m.2 (let h = v.proper in omega arith);
          valid = rw m.3 v.valid;
          after = rw m.2 v.after;
        },
        m.1,
        m.2,
        m.3,
        refl,
      )

  -- The span under the cursor grows at its end only.
  pub merge_forward-IsPlaced :
      (c : Cursor S)
      → IsPlaced laws.IsValid c
      → let m = merge_forward ops c in
        IsPlaced laws.IsValid m
        × (c.cur.end ≤ℤ m.cur.end)
        × (m.cur.start ≡ c.cur.start)
        × (m.cur.sub ≡ c.cur.sub)
        × (length m.next ≤ length c.next)
  unfolding merge_forward
  merge_forward-IsPlaced c v =
      let m = merge_next_placed c.cur c.next v.proper v.after in
      (
        record {
          before = rw m.2 v.before;
          proper = rw m.2 (let h = v.proper in omega arith);
          valid = rw m.3 v.valid;
          after = m.0;
        },
        m.1,
        m.2,
        m.3,
        m.4,
      )
