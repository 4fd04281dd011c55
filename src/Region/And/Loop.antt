-- ===== src/Region/And/Loop.antt =====
-- One round of `sraSpanListAnd`.
use libvncserver.Base.{
  ℕ, suc, true, ◌&&◌, ◌||◌, List, [], ◌∷◌, ◌≡◌, refl, arith, Bool-cases, inl, inr, ◌+◌, ◌*◌, ◌<◌,
  ◌≤◌, length, ap, ap₂, ◌∙◌,
}
use libvncserver.Base.Int.{ℤ, ◌≤ℤ◌, ◌<ℤ◌, leb_ℤ}
use libvncserver.Region.Span.{Span, SubOps, Cursor, merge_back, split_end}
use libvncserver.Region.Laws.{
  SubLaws, within, span_holds, list_holds, Chain, IsPlaced, Below-weaken, Chain-weaken, leb_ℤ_false,
  Chain-outside,
}
use libvncserver.Region.Merge.{merge_previous_holds, merge_back-IsPlaced}
use libvncserver.Region.Split.{split_end-IsPlaced}
use libvncserver.Region.And.{walk_test, and_trim, and_advance, and_subspans, and_body}
use libvncserver.Region.And.Cut.{
  and_holds, IsWalk, ahead, ahead-le, walk_measure, walk, position, Meets, meets, cut,
  and_trim-IsPlaced, cut_holds, split_ahead,
}

module _ {S P : Type 0} (ops : SubOps S) (laws : SubLaws ops P) where
  -- What is known at the position that is cut to the overlap.
  record IsCut (c : Cursor S) (s : Span S) (src : List (Span S)) : Type 0 where
    placed : IsPlaced laws.IsValid c
    s_proper : s.start <ℤ s.end
    s_valid : laws.IsValid s.sub
    rest : Chain laws.IsValid s.end src
    high : c.cur.end ≤ℤ s.end

  advance_holds :
      (x : ℤ) (p : P) (c : Cursor S) (s : Span S) (src : List (Span S))
      → IsCut c s src
      → and_holds ops laws x p (and_advance c s src)
        ≡ (list_holds laws.holds x p c.prevs || span_holds laws.holds x p c.cur)
          || (list_holds laws.holds x p c.next && list_holds laws.holds x p (s ∷ src))
  unfolding and_advance
  advance_holds x p c s src k =
      let n = Chain-outside laws.holds laws.IsValid x p c.cur.end c.next k.placed.after in
      let h = k.high in ground arith

  advance-IsWalk :
      (c : Cursor S) (s : Span S) (src : List (Span S))
      → IsCut c s src
      → IsWalk ops laws (and_advance c s src)
  unfolding and_advance
  advance-IsWalk c s src k =
      let h = k.high in
      let e : leb_ℤ c.cur.end s.end ≡ true = ground arith in
      rw e (record {
        bound = c.cur.end;
        before = (omega arith, k.placed.proper, k.placed.valid, k.placed.before);
        after = k.placed.after;
        source = elim (Bool-cases (leb_ℤ s.end c.cur.end)) [
          | inl t ↦ rw t (s.end, k.rest)
          | inr t ↦ rw t (s.start, (omega arith, k.s_proper, k.s_valid, k.rest))
        ];
      })

  advance_measure :
      (c : Cursor S) (s : Span S) (src : List (Span S)) (n : ℕ)
      → c.cur.end ≤ℤ s.end
      → length c.next ≤ suc n
      → (c.cur.end <ℤ s.end → length c.next ≤ n)
      → walk_measure ops laws (and_advance c s src) < 2 * length (s ∷ src) + suc n + 1
  unfolding and_advance
  advance_measure c s src n h l k =
      let e : leb_ℤ c.cur.end s.end ≡ true = ground arith in
      rw e (elim (Bool-cases (leb_ℤ s.end c.cur.end)) [
        | inl t ↦ rw t (omega (arith, ahead-le ops laws c.next src))
        | inr t ↦
            rw t
              (omega (arith, ahead-le ops laws c.next (s ∷ src), k (leb_ℤ_false s.end c.cur.end t)))
      ])

  -- The position with the intersection below it, merged with what is before it.
  abbrev joined : Cursor S → Span S → Cursor S
  joined c s =
      merge_back ops (record c { cur = record c.cur { sub = (ops.cut c.cur.sub s.sub).0 } })

  narrowed :
      (c : Cursor S) (s : Span S) (src : List (Span S))
      → IsCut c s src
      → (ops.cut c.cur.sub s.sub).1 ≡ true
      → IsPlaced laws.IsValid
          (record c { cur = record c.cur { sub = (ops.cut c.cur.sub s.sub).0 } })
  narrowed c s src k e = record {
    before = k.placed.before;
    proper = k.placed.proper;
    valid = laws.inter-IsValid c.cur.sub s.sub k.placed.valid k.s_valid e;
    after = k.placed.after;
  }

  joined-IsCut :
      (c : Cursor S) (s : Span S) (src : List (Span S))
      → IsCut c s src
      → (ops.cut c.cur.sub s.sub).1 ≡ true
      → IsCut (joined c s) s src × ((joined c s).cur.end ≡ c.cur.end) × ((joined c s).next ≡ c.next)
  joined-IsCut c s src k e =
      let m = merge_back-IsPlaced ops laws _ (narrowed c s src k e) in
      (
        record {
          placed = m.0;
          s_proper = k.s_proper;
          s_valid = k.s_valid;
          rest = k.rest;
          high = rw m.2 k.high;
        },
        m.2,
        m.4,
      )

  joined_holds :
      (x : ℤ) (p : P) (c : Cursor S) (s : Span S) (src : List (Span S))
      → IsCut c s src
      → (ops.cut c.cur.sub s.sub).1 ≡ true
      → (list_holds laws.holds x p (joined c s).prevs || span_holds laws.holds x p (joined c s).cur)
        ≡ list_holds laws.holds x p c.prevs
          || (within c.cur.start c.cur.end x && (laws.holds p c.cur.sub && laws.holds p s.sub))
  unfolding merge_back
  joined_holds x p c s src k e =
      let i = laws.inter_holds c.cur.sub s.sub k.placed.valid k.s_valid p in
      let n = narrowed c s src k e in
      ground (
        arith,
        merge_previous_holds ops laws x p c.prevs
            (record c.cur { sub = (ops.cut c.cur.sub s.sub).0 }) n.before n.proper,
      )

  subspans_holds :
      (x : ℤ) (p : P) (c : Cursor S) (s : Span S) (src : List (Span S))
      → IsCut c s src
      → and_holds ops laws x p (and_subspans ops c s src)
        ≡ list_holds laws.holds x p c.prevs
          || (within c.cur.start c.cur.end x && (laws.holds p c.cur.sub && laws.holds p s.sub))
          || (list_holds laws.holds x p c.next && list_holds laws.holds x p (s ∷ src))
  unfolding and_subspans
  subspans_holds x p c s src k = elim (Bool-cases (ops.cut c.cur.sub s.sub).1) [
    | inl e ↦
        let j = joined-IsCut c s src k e in
        rw e (
          advance_holds x p (joined c s) s src j.0
          ∙ ap₂ ◌||◌ (joined_holds x p c s src k e)
              (ap (λ l. list_holds laws.holds x p l && list_holds laws.holds x p (s ∷ src)) j.2))
    | inr e ↦
        let i = laws.inter_holds c.cur.sub s.sub k.placed.valid k.s_valid p in rw e (ground arith)
  ]

  cut-IsCut :
      (prevs : List (Span S)) (d : Span S) (dest : List (Span S)) (s : Span S) (src : List (Span S))
      (m : Meets ops laws prevs d dest s src)
      → IsCut (cut ops laws prevs d dest s src m) s src
  cut-IsCut prevs d dest s src m =
      let t = and_trim-IsPlaced ops laws prevs d dest s src m in
      let e = split_end-IsPlaced ops laws s (position ops laws prevs (and_trim s d) dest) t.0 t.1 in
      record { placed = e.0; s_proper = m.s_proper; s_valid = m.s_valid; rest = m.rest; high = e.3 }

  cut_prevs :
      (prevs : List (Span S)) (d : Span S) (dest : List (Span S)) (s : Span S) (src : List (Span S))
      (m : Meets ops laws prevs d dest s src)
      → ((cut ops laws prevs d dest s src m).prevs ≡ prevs)
        × ((cut ops laws prevs d dest s src m).cur.sub ≡ d.sub)
  unfolding split_end and_trim
  cut_prevs prevs d dest s src m = ground arith

  overlap_points :
      (x : ℤ) (p : P) (prevs : List (Span S)) (d : Span S) (dest : List (Span S)) (s : Span S)
      (src : List (Span S)) (m : Meets ops laws prevs d dest s src)
      → let c = cut ops laws prevs d dest s src m in
        (list_holds laws.holds x p c.prevs
          || (within c.cur.start c.cur.end x && (laws.holds p c.cur.sub && laws.holds p s.sub))
          || (list_holds laws.holds x p c.next && list_holds laws.holds x p (s ∷ src)))
        ≡ list_holds laws.holds x p prevs
          || (list_holds laws.holds x p (d ∷ dest) && list_holds laws.holds x p (s ∷ src))
  overlap_points x p prevs d dest s src m =
      let q = cut_prevs prevs d dest s src m in
      rw (cut_holds ops laws prevs d dest s src m x p, q.0, q.1) (ground arith)

  -- A round keeps the points that are in both lists.
  pub and_round_holds :
      (x : ℤ) (p : P) (prevs dest src : List (Span S))
      → IsWalk ops laws (walk ops laws prevs dest src)
      → and_holds ops laws x p (and_body ops (walk ops laws prevs dest src))
        ≡ and_holds ops laws x p (walk ops laws prevs dest src)
  unfolding and_body
  and_round_holds x p prevs dest [] v = refl
  and_round_holds x p prevs [] (s ∷ src) v = refl
  and_round_holds x p prevs (d ∷ dest) (s ∷ src) v = elim (Bool-cases (leb_ℤ s.end d.start)) [
    | inl e ↦
        let n =
          Chain-outside laws.holds laws.IsValid x p d.start (d ∷ dest)
            (omega arith, v.after.1, v.after.2, v.after.3) in
        rw e (ground arith)
    | inr e ↦ rw e (elim (Bool-cases (leb_ℤ d.end s.start)) [
      | inl t ↦
          let n =
            Chain-outside laws.holds laws.IsValid x p s.start (s ∷ src)
              (omega arith, v.source.1.1, v.source.1.2, v.source.1.3) in
          rw t (ground arith)
      | inr t ↦
          let m = meets ops laws prevs d dest s src v e t in
          rw t (
            subspans_holds x p (cut ops laws prevs d dest s src m) s src
              (cut-IsCut prevs d dest s src m)
            ∙ overlap_points x p prevs d dest s src m)
    ])
  ]

  subspans-IsWalk :
      (c : Cursor S) (s : Span S) (src : List (Span S)) (n : ℕ)
      → IsCut c s src
      → length c.next ≤ suc n
      → (c.cur.end <ℤ s.end → length c.next ≤ n)
      → length c.next + ahead ops laws c.next (s ∷ src) ≤ suc n
      → IsWalk ops laws (and_subspans ops c s src)
        × (walk_measure ops laws (and_subspans ops c s src) < 2 * length (s ∷ src) + suc n + 1)
  unfolding and_subspans
  subspans-IsWalk c s src n k l below a = elim (Bool-cases (ops.cut c.cur.sub s.sub).1) [
    | inl e ↦
        let j = joined-IsCut c s src k e in
        rw e (
          advance-IsWalk (joined c s) s src j.0,
          advance_measure (joined c s) s src n j.0.high (rw j.2 l) (rw (j.1, j.2) below),
        )
    | inr e ↦ rw e (
      record {
        bound = c.cur.end;
        before =
            Below-weaken laws.IsValid c.cur.start c.cur.end c.prevs
              (let h = k.placed.proper in omega arith) k.placed.before;
        after = k.placed.after;
        source = (s.start, (omega arith, k.s_proper, k.s_valid, k.rest));
      },
      omega arith,
    )
  ]

  cut-ahead :
      (prevs : List (Span S)) (d : Span S) (dest : List (Span S)) (s : Span S) (src : List (Span S))
      (m : Meets ops laws prevs d dest s src)
      → let c = cut ops laws prevs d dest s src m in
        (length c.next ≤ suc (length dest))
        × (c.cur.end <ℤ s.end → length c.next ≤ length dest)
        × (length c.next + ahead ops laws c.next (s ∷ src) ≤ suc (length dest))
  cut-ahead prevs d dest s src m =
      let t = and_trim-IsPlaced ops laws prevs d dest s src m in
      split_ahead ops laws s src (position ops laws prevs (and_trim s d) dest) t.0 t.1

  -- A round keeps the order, and comes nearer to the end.
  pub and_round-IsWalk :
      (prevs dest src : List (Span S))
      → IsWalk ops laws (walk ops laws prevs dest src)
      → walk_test (walk ops laws prevs dest src) ≡ true
      → IsWalk ops laws (and_body ops (walk ops laws prevs dest src))
        × (walk_measure ops laws (and_body ops (walk ops laws prevs dest src))
            < walk_measure ops laws (walk ops laws prevs dest src))
  unfolding and_body walk_test
  and_round-IsWalk prevs dest [] v g = cc
  and_round-IsWalk prevs [] (s ∷ src) v g = cc
  and_round-IsWalk prevs (d ∷ dest) (s ∷ src) v g =
      let a = v.after in
      let q = v.source.1 in
      elim (Bool-cases (leb_ℤ s.end d.start)) [
        | inl e ↦ rw e (
          record { bound = v.bound; before = v.before; after = a; source = (s.end, q.3) },
          omega (arith, ahead-le ops laws (d ∷ dest) src),
        )
        | inr e ↦
            let one : ahead ops laws (d ∷ dest) (s ∷ src) ≡ 1 = ground arith in
            rw e (elim (Bool-cases (leb_ℤ d.end s.start)) [
              | inl t ↦ rw t (
                record {
                  bound = v.bound;
                  before = v.before;
                  after = Chain-weaken laws.IsValid d.end v.bound dest (omega arith) a.3;
                  source = v.source;
                },
                omega (arith, one, ahead-le ops laws dest (s ∷ src)),
              )
              | inr t ↦
                  let m = meets ops laws prevs d dest s src v e t in
                  let h = cut-ahead prevs d dest s src m in
                  let w =
                    subspans-IsWalk (cut ops laws prevs d dest s src m) s src (length dest)
                      (cut-IsCut prevs d dest s src m) h.0 h.1 h.2 in
                  rw t (w.0, omega (arith, one, w.1))
            ])
      ]
