-- ===== src/Region/Pop.antt =====
-- `sraRgnPopRect` of libvncserver/rfbregion.c takes a rectangle out of a region.
use libvncserver.Base.{
  ◌+◌, Bool, true, false, ◌&&◌, ◌||◌, ◌≡◌, refl, sym, ap, arith, [], ◌∷◌, ◌++◌, ◌∙◌, none, some,
  Bool-cases, ◌⊎◌, inl, inr, subst,
}
use mathlib.Core.List.{append-nil}
use libvncserver.Base.Int.{ℤ, ◌<ℤ◌}
use libvncserver.Region.Span
use libvncserver.Region.Span.{Span, SubOps, is_empty}
use libvncserver.Region.Laws.{within, Chain}
use libvncserver.Region.Nested.{
  Columns, Region, IsRegion, IsColumns, contains, in_columns, null_ops, column_ops,
}
use libvncserver.Region.Rgn.{Rect, pop_last, pop_column, keep_row, pop_rect, count_rects}
use libvncserver.Region.Pick.{
  Picked, pop_last-Picked, proper, removed, replaced, holds-append, alone, count-append,
}

-- The column that is taken, and the columns that are left.
record Column (right2left : Bool) (v : Span Columns) : Type 0 where
  column : Span (Unit {0})
  rest : Columns
  pops :
      pop_column right2left v
      ≡ some (record { x1 = column.start; y1 = v.start; x2 = column.end; y2 = v.end }, rest)
  ordered : column.start <ℤ column.end
  valid : is_empty rest ≡ false → IsColumns rest
  points :
      (x : ℤ)
      → in_columns (x, tt) v.sub ≡ in_columns (x, tt) rest || within column.start column.end x
  apart : (x : ℤ) → in_columns (x, tt) rest && within column.start column.end x ≡ false
  fewer : Span.count null_ops v.sub ≡ Span.count null_ops rest + 1

Picked-Column :
    (right2left : Bool) (v : Span Columns) (h : Span (Unit {0})) (rest : Columns)
    → pop_column right2left v
      ≡ some (record { x1 = h.start; y1 = v.start; x2 = h.end; y2 = v.end }, rest)
    → IsColumns v.sub
    → Picked v.sub rest h
    → Column right2left v
unfolding Span.count
Picked-Column right2left v h rest e c k =
    let holds : Unit {0} → Unit {0} → Bool = λ p a. true in
    let valid : Unit {0} → Type 0 = λ a. Unit {0} in
    let chain : Chain valid c.0.0 (k.before ++ h ∷ k.after) =
      subst (Chain valid c.0.0) k.whole c.0.1 in
    record {
      column = h;
      rest = rest;
      pops = e;
      ordered = (proper valid c.0.0 k.before k.after h chain).0;
      valid = λ n. (
        (
          c.0.0,
          subst (Chain valid c.0.0) (sym k.left) (removed valid c.0.0 k.before k.after h chain),
        ),
        n,
      );
      points = λ x.
          let a = ap (in_columns (x, tt)) k.whole in
          let b = ap (in_columns (x, tt)) k.left in
          let p = holds-append holds valid x tt k.before (h ∷ k.after) in
          let q = holds-append holds valid x tt k.before k.after in ground (arith, a, b, p, q);
      apart = λ x. elim (Bool-cases (within h.start h.end x)) [
        | inr t ↦ ground (arith, t)
        | inl t ↦
            let b = ap (in_columns (x, tt)) k.left in
            let q = alone holds valid x tt c.0.0 k.before k.after h chain t in ground (arith, b, q)
      ];
      fewer =
          let m = count-append null_ops k.before (h ∷ k.after) in
          let n = count-append null_ops k.before k.after in
          rw (k.whole, k.left) (ground (arith, m, n));
    }

pop_column_lem :
    (right2left : Bool) (a b : ℤ) (l : Columns)
    → IsColumns l
    → Column right2left (record { start = a; end = b; sub = l })
unfolding pop_column is_empty
pop_column_lem right2left a b [] c = absurd (ground (arith, c.1))
pop_column_lem true a b (h ∷ l) c =
    let r = pop_last h l in
    Picked-Column true (record { start = a; end = b; sub = h ∷ l }) r.1 r.0 refl c
      (record {
        before = r.0;
        after = [];
        whole = pop_last-Picked h l;
        left = sym (append-nil r.0);
      })
pop_column_lem false a b (h ∷ l) c =
    Picked-Column false (record { start = a; end = b; sub = h ∷ l }) h l refl c
      (record { before = []; after = l; whole = refl; left = refl })

abbrev pub in_rectangle : Rect → ℤ → ℤ → Bool
in_rectangle r x y = within r.x1 r.x2 x && within r.y1 r.y2 y

-- What is taken out of a region, and what is left.
pub record Popped (right2left bottom2top : Bool) (r : Region) : Type 0 where
  pub rect : Rect
  pub rest : Region
  pub pops : pop_rect right2left bottom2top r ≡ some (rect, rest)
  pub wide : rect.x1 <ℤ rect.x2
  pub high : rect.y1 <ℤ rect.y2
  pub valid : IsRegion rest
  pub points : (x y : ℤ) → contains r x y ≡ contains rest x y || in_rectangle rect x y
  pub apart : (x y : ℤ) → contains rest x y && in_rectangle rect x y ≡ false
  pub fewer : count_rects r ≡ count_rects rest + 1

module _ (lo : ℤ) (a b : Region) (v : Span Columns) (c : Chain IsColumns lo (a ++ v ∷ b)) where
  -- The rows around the one that is taken, with what is left of it.
  abbrev kept : Columns → Region
  kept left = a ++ (keep_row v left ++ b)

  kept-Chain :
      (left : Columns) → (is_empty left ≡ false → IsColumns left) → Chain IsColumns lo (kept left)
  unfolding keep_row
  kept-Chain left p = elim (Bool-cases (is_empty left)) [
    | inl t ↦ rw (keep_row, t) (removed IsColumns lo a b v c)
    | inr t ↦ rw (keep_row, t) (replaced IsColumns lo a b v left (p t) c)
  ]

  nothing : (left : Columns) (x : ℤ) → is_empty left ≡ true → in_columns (x, tt) left ≡ false
  unfolding is_empty
  nothing [] x e = refl
  nothing (h ∷ l) x e = absurd (ground (arith, e))

  kept_points :
      (left : Columns) (x y : ℤ)
      → contains (kept left) x y
        ≡ contains a x y || ((within v.start v.end y && in_columns (x, tt) left) || contains b x y)
  unfolding keep_row
  kept_points left x y =
      holds-append in_columns IsColumns y (x, tt) a (keep_row v left ++ b)
      ∙ ap (λ t. contains a x y || t)
          (elim (Bool-cases (is_empty left)) [
            | inl t ↦ let n = nothing left x t in rw (keep_row, t) (ground (arith, n))
            | inr t ↦ rw (keep_row, t) refl
          ])

  kept_count :
      (left : Columns)
      → Span.count column_ops (kept left)
        ≡ Span.count column_ops a + (Span.count null_ops left + Span.count column_ops b)
  unfolding keep_row Span.count is_empty
  kept_count [] = omega (arith, count-append column_ops a b)
  kept_count (h ∷ left) = count-append column_ops a (record v { sub = h ∷ left } ∷ b)

  row-Popped :
      (right2left bottom2top : Bool) (q : Column right2left v)
      → pop_rect right2left bottom2top (a ++ v ∷ b)
        ≡ some (
          record { x1 = q.column.start; y1 = v.start; x2 = q.column.end; y2 = v.end },
          kept q.rest,
        )
      → Popped right2left bottom2top (a ++ v ∷ b)
  unfolding count_rects Span.count
  row-Popped right2left bottom2top q e = record {
    rect = record { x1 = q.column.start; y1 = v.start; x2 = q.column.end; y2 = v.end };
    rest = kept q.rest;
    pops = e;
    wide = q.ordered;
    high = (proper IsColumns lo a b v c).0;
    valid = (lo, kept-Chain q.rest q.valid);
    points = λ x y.
        let k = kept_points q.rest x y in
        let w = holds-append in_columns IsColumns y (x, tt) a (v ∷ b) in
        ground (arith, k, w, q.points x);
    apart = λ x y. elim (Bool-cases (within v.start v.end y)) [
      | inr t ↦ ground (arith, t)
      | inl t ↦
          let k = kept_points q.rest x y in
          let w = holds-append in_columns IsColumns y (x, tt) a b in
          let n = alone in_columns IsColumns y (x, tt) lo a b v c t in
          ground (arith, k, w, n, t, q.apart x)
    ];
    fewer =
        let m = count-append column_ops a (v ∷ b) in
        let n = kept_count q.rest in let u = q.fewer in omega (arith, m, n, u);
  }

first-Popped :
    (right2left : Bool) (v : Span Columns) (l : Region)
    → IsRegion (v ∷ l)
    → Popped right2left false (v ∷ l)
unfolding pop_rect
first-Popped right2left v l c =
    let q = pop_column_lem right2left v.start v.end v.sub c.1.2 in
    row-Popped c.0 [] l v c.1 right2left false q (rw (pop_rect, q.pops) refl)

last-Popped :
    (right2left : Bool) (v : Span Columns) (l : Region)
    → IsRegion (v ∷ l)
    → Popped right2left true (v ∷ l)
unfolding pop_rect
last-Popped right2left v l c =
    let r = pop_last v l in
    let e = pop_last-Picked v l in
    let chain : Chain IsColumns c.0 (r.0 ++ r.1 ∷ []) = subst (Chain IsColumns c.0) e c.1 in
    let q =
      pop_column_lem right2left r.1.start r.1.end r.1.sub
        (proper IsColumns c.0 r.0 [] r.1 chain).1 in
    let rect : Rect = record {
      x1 = q.column.start;
      y1 = r.1.start;
      x2 = q.column.end;
      y2 = r.1.end;
    } in
    let popped : pop_rect right2left true (v ∷ l) ≡ some (rect, r.0 ++ keep_row r.1 q.rest) =
      rw (pop_rect, q.pops) refl in
    let whole = popped ∙ ap (λ t. some (rect, r.0 ++ t)) (sym (append-nil (keep_row r.1 q.rest))) in
    subst (Popped right2left true) (sym e) (
      row-Popped c.0 r.0 [] r.1 chain right2left true q (
        subst (λ t. pop_rect right2left true t ≡ some (rect, r.0 ++ (keep_row r.1 q.rest ++ []))) e
          whole))

-- `sraRgnPopRect` on a well-formed region, by any flags: it returns 0 where there is no pixel, or takes
-- a rectangle with pixels out of the region: what is left is well-formed, and each pixel of the region
-- is in the rectangle or in what is left, none in both, and `sraRgnCountRects` gives one less for it.
pub pop_rect_lem :
    (right2left bottom2top : Bool) (r : Region)
    → IsRegion r
    → ((pop_rect right2left bottom2top r ≡ none) × ((x y : ℤ) → contains r x y ≡ false))
      ⊎ Popped right2left bottom2top r
unfolding pop_rect
pop_rect_lem right2left bottom2top [] c = inl (refl, λ x y. refl)
pop_rect_lem right2left false (v ∷ l) c = inr (first-Popped right2left v l c)
pop_rect_lem right2left true (v ∷ l) c = inr (last-Popped right2left v l c)
