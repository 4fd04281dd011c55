-- ===== src/Region/Subtract/Loop.antt =====
-- One round of `sraSpanListSubtract`.
use libvncserver.Base.{
  Bool, false, not, ◌&&◌, ◌||◌, List, ◌∷◌, ◌≡◌, arith, Bool-cases, inl, inr, ◌≤◌, length, ap, sym,
  ◌∙◌,
}
use libvncserver.Base.Int.{ℤ, pos_part, neg_part, ◌≤ℤ◌, ◌<ℤ◌, ltb_ℤ}
use libvncserver.Region.Span.{Span, SubOps, Cursor, merge_back, split_end, split_start}
use libvncserver.Region.Laws.{
  SubLaws, within, span_holds, list_holds, Chain, IsPlaced, Chain-outside,
}
use libvncserver.Region.Merge.{
  cursor_holds, merge_back_holds, merge_back-IsPlaced, merge_forward_holds, merge_forward-IsPlaced,
}
use libvncserver.Region.Split.{split_end-IsPlaced, split_start-IsPlaced}
use libvncserver.Region.And.{Walk}
use libvncserver.Region.And.Cut.{walk, position, Meets}
use libvncserver.Region.Subtract.{subtract_merge}

module _ {S P : Type 0} (ops : SubOps S) (laws : SubLaws ops P) where
  abbrev pub subtract_holds : ℤ → P → Walk S → Bool
  subtract_holds x p st =
      list_holds laws.holds x p st.prevs
      || (list_holds laws.holds x p st.dest && not (list_holds laws.holds x p st.src))

  abbrev pub pieces : List (Span S) → Span S → List (Span S) → Span S → Cursor S
  pieces prevs d dest s = split_end s (split_start s.start (position ops laws prevs d dest))

  -- What is known at the position that is cut to the overlap.
  pub record IsCut (c : Cursor S) (s : Span S) (src : List (Span S)) : Type 0 where
    pub placed : IsPlaced laws.IsValid c
    pub s_proper : s.start <ℤ s.end
    pub s_valid : laws.IsValid s.sub
    pub rest : Chain laws.IsValid s.end src
    pub low : s.start ≤ℤ c.cur.start
    pub high : c.cur.end ≤ℤ s.end

  -- Before the overlap nothing is taken away.
  start_holds :
      (x : ℤ) (p : P) (c : Cursor S) (s : Span S) (src : List (Span S))
      → IsPlaced laws.IsValid c
      → s.start <ℤ c.cur.end
      → s.start <ℤ s.end
      → laws.IsValid s.sub
      → Chain laws.IsValid s.end src
      → (let c' = split_start s.start c in
          list_holds laws.holds x p c'.prevs
          || ((span_holds laws.holds x p c'.cur || list_holds laws.holds x p c'.next)
              && not (list_holds laws.holds x p (s ∷ src))))
        ≡ list_holds laws.holds x p c.prevs
          || ((span_holds laws.holds x p c.cur || list_holds laws.holds x p c.next)
              && not (list_holds laws.holds x p (s ∷ src)))
  unfolding split_start
  start_holds x p c s src v l q u k =
      let b = Chain-outside laws.holds laws.IsValid x p s.start (s ∷ src) (omega arith, q, u, k) in
      elim (Bool-cases (ltb_ℤ c.cur.start s.start)) [ inl e ↦ rw e (ground arith) | inr e ↦ rw e ]

  -- Inside it both spans decide; behind it nothing has changed.
  end_holds :
      (x : ℤ) (p : P) (c : Cursor S) (s : Span S) (src : List (Span S))
      → IsPlaced laws.IsValid c
      → c.cur.start <ℤ s.end
      → s.start ≤ℤ c.cur.start
      → Chain laws.IsValid s.end src
      → ((span_holds laws.holds x p c.cur || list_holds laws.holds x p c.next)
          && not (list_holds laws.holds x p (s ∷ src)))
        ≡ let c' = split_end s c in
          (within c'.cur.start c'.cur.end x && (laws.holds p c.cur.sub && not (laws.holds p s.sub)))
          || (list_holds laws.holds x p c'.next && not (list_holds laws.holds x p (s ∷ src)))
  unfolding split_end
  end_holds x p c s src v r l k =
      let a = Chain-outside laws.holds laws.IsValid x p c.cur.end c.next v.after in
      let b = Chain-outside laws.holds laws.IsValid x p s.end src k in
      let n = v.proper in
      elim (Bool-cases (ltb_ℤ s.end c.cur.end)) [
        | inl e ↦ rw e (ground arith)
        | inr e ↦ rw e (ground arith)
      ]

  pub pieces-IsCut :
      (prevs : List (Span S)) (d : Span S) (dest : List (Span S)) (s : Span S) (src : List (Span S))
      → Meets ops laws prevs d dest s src
      → IsCut (pieces prevs d dest s) s src
  pieces-IsCut prevs d dest s src m =
      let t =
        split_start-IsPlaced ops laws s.start (position ops laws prevs d dest) m.placed m.left in
      let q = m.s_proper in
      let r = m.right in
      let e =
        split_end-IsPlaced ops laws s (split_start s.start (position ops laws prevs d dest)) t.0
          (elim t.2 [ inl z ↦ rw z q | inr z ↦ rw z r ]) in
      record {
        placed = e.0;
        s_proper = q;
        s_valid = m.s_valid;
        rest = m.rest;
        low = rw e.1 t.1;
        high = e.3;
      }

  split_same :
      (c : Cursor S) (s : Span S)
      → ((split_end s (split_start s.start c)).prevs ≡ (split_start s.start c).prevs)
        × ((split_end s (split_start s.start c)).cur.sub ≡ (split_start s.start c).cur.sub)
  unfolding split_end
  split_same c s = ground arith

  pub pieces_hold :
      (x : ℤ) (p : P) (prevs : List (Span S)) (d : Span S) (dest : List (Span S)) (s : Span S)
      (src : List (Span S))
      → Meets ops laws prevs d dest s src
      → (let c = pieces prevs d dest s in
          list_holds laws.holds x p c.prevs
          || ((within c.cur.start c.cur.end x
                && (laws.holds p c.cur.sub && not (laws.holds p s.sub)))
              || (list_holds laws.holds x p c.next && not (list_holds laws.holds x p (s ∷ src)))))
        ≡ subtract_holds x p (walk ops laws prevs (d ∷ dest) (s ∷ src))
  pieces_hold x p prevs d dest s src m =
      let c = position ops laws prevs d dest in
      let t = split_start-IsPlaced ops laws s.start c m.placed m.left in
      let q = m.s_proper in
      let r = m.right in
      let high : (split_start s.start c).cur.start <ℤ s.end = elim t.2 [
        | inl z ↦ rw z q
        | inr z ↦ rw z r
      ] in
      let same = split_same c s in
      rw (same.0, same.1)
        (ap (λ b. list_holds laws.holds x p (split_start s.start c).prevs || b)
            (sym (end_holds x p (split_start s.start c) s src t.0 high t.1 m.rest))
          ∙ start_holds x p c s src m.placed m.left q m.s_valid m.rest)

  -- The position with the rest of the subspan.
  abbrev pub reduced : Cursor S → Span S → Cursor S
  reduced c s = record c { cur = record c.cur { sub = (ops.minus c.cur.sub s.sub).0 } }

  pub record Merged (c : Cursor S) (s : Span S) : Type 0 where
    pub placed : IsPlaced laws.IsValid (subtract_merge ops c s)
    pub from : (subtract_merge ops c s).cur.start ≤ℤ c.cur.start
    pub to : c.cur.end ≤ℤ (subtract_merge ops c s).cur.end
    pub same_sub : (subtract_merge ops c s).cur.sub ≡ (ops.minus c.cur.sub s.sub).0
    pub shorter : length (subtract_merge ops c s).next ≤ length c.next
    pub points :
        (x : ℤ) (p : P)
        → cursor_holds ops laws x p (subtract_merge ops c s)
          ≡ cursor_holds ops laws x p (reduced c s)

  pub merged :
      (c : Cursor S) (s : Span S) (src : List (Span S))
      → IsCut c s src
      → (ops.is_null c.cur.sub || not (ops.minus c.cur.sub s.sub).1) ≡ false
      → Merged c s
  unfolding subtract_merge
  merged c s src k e =
      let v : IsPlaced laws.IsValid (reduced c s) = record {
        before = k.placed.before;
        proper = k.placed.proper;
        valid =
            laws.subtract-IsValid c.cur.sub s.sub k.placed.valid k.s_valid (ground arith)
              (ground arith);
        after = k.placed.after;
      } in
      let b = merge_back-IsPlaced ops laws (reduced c s) v in
      let f = merge_forward-IsPlaced ops laws (merge_back ops (reduced c s)) b.0 in
      record {
        placed = f.0;
        from = rw f.2 b.1;
        to = omega (arith, ap pos_part b.2, ap neg_part b.2, f.1);
        same_sub = f.3 ∙ b.3;
        shorter = omega (arith, ap length b.4, f.4);
        points = λ x p.
            merge_forward_holds ops laws x p (merge_back ops (reduced c s)) b.0
            ∙ merge_back_holds ops laws x p (reduced c s) v;
      }
