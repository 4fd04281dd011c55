-- ===== src/Region/Tight.antt =====
-- `sraRgnBBox` of libvncserver/rfbregion.c makes no larger a rectangle than it must.
use libvncserver.Base.{Bool, true, ◌&&◌, ◌||◌, ◌≡◌, refl, [], ◌∷◌, arith, Bool-cases, inl, inr}
use libvncserver.Base.Int.{ℤ, pos, ◌≤ℤ◌, ◌<ℤ◌, ◌-ℤ◌, ltb_ℤ, -ℤ_parts}
use libvncserver.Region.Span.{is_empty}
use libvncserver.Region.Laws.{within, Chain, within_low, within_high, within_intro}
use libvncserver.Region.Rgn.{Rect, bbox, grow, grow_columns, bbox_start, create, create_rect}
use libvncserver.Region.Nested.{Columns, Region, IsRegion, IsColumns, contains, in_columns}

-- The bounds that the loops have come to are within those of a rectangle.
record Within (s b : Rect) : Type 0 where
  left : b.x1 ≤ℤ s.x1
  right : s.x2 ≤ℤ b.x2
  top : b.y1 ≤ℤ s.y1
  bottom : s.y2 ≤ℤ b.y2

-- A range of which each point is within bounds.
pub range_within :
    (a b lo hi : ℤ)
    → a <ℤ b
    → ((x : ℤ) → within a b x ≡ true → within lo hi x ≡ true)
    → (lo ≤ℤ a) × (b ≤ℤ hi)
range_within a b lo hi h f =
    let last = b -ℤ pos 1 in
    let p = -ℤ_parts b (pos 1) in
    let q = within_low lo hi a (f a (ground arith)) in
    let r =
      within_high lo hi last
        (f last (within_intro a b last (omega (arith, p, h)) (omega (arith, p, h)))) in
    (q, omega (arith, p, r))

grow_columns-Within :
    (lo : ℤ) (l : Columns) (s b : Rect)
    → Chain (λ a. Unit {0}) lo l
    → ((x : ℤ) → in_columns (x, tt) l ≡ true → within b.x1 b.x2 x ≡ true)
    → Within s b
    → Within (grow_columns l s) b
unfolding grow_columns
grow_columns-Within lo [] s b c f w = w
grow_columns-Within lo (h ∷ l) s b c f w =
    let q = range_within h.start h.end b.x1 b.x2 c.1 (λ x e. f x (ground (arith, e))) in
    grow_columns-Within h.end l _ b c.3 (λ x e. f x (ground (arith, e)))
      (record {
        left = ground (arith, q.0, w.left);
        right = ground (arith, q.1, w.right);
        top = w.top;
        bottom = w.bottom;
      })

first_column : (l : Columns) → IsColumns l → (x : ℤ) × (in_columns (x, tt) l ≡ true)
unfolding is_empty
first_column [] c = absurd (ground (arith, c.1))
first_column (h ∷ l) c = (h.start, let q = c.0.1.1 in ground (arith, q))

grow-Within :
    (lo : ℤ) (r : Region) (s b : Rect)
    → Chain IsColumns lo r
    → ((x y : ℤ) → contains r x y ≡ true → (within b.x1 b.x2 x && within b.y1 b.y2 y) ≡ true)
    → Within s b
    → Within (grow r s) b
unfolding grow
grow-Within lo [] s b c f w = w
grow-Within lo (v ∷ r) s b c f w =
    let x0 = first_column v.sub c.2 in
    let q =
      range_within v.start v.end b.y1 b.y2 c.1
        (λ y e. let k = f x0.0 y (ground (arith, e, x0.1)) in ground (arith, k)) in
    let start : within v.start v.end v.start ≡ true = let h = c.1 in ground (arith, h) in
    grow-Within v.end r _ b c.3 (λ x y e. f x y (ground (arith, e)))
      (grow_columns-Within c.2.0.0 v.sub _ b c.2.0.1
        (λ x e. let k = f x v.start (ground (arith, e, start)) in ground (arith, k))
        (record {
          left = w.left;
          right = w.right;
          top = ground (arith, q.0, w.top);
          bottom = ground (arith, q.1, w.bottom);
        }))

-- A pixel in a rectangle is in one around it.
within_widen : (a b lo hi x : ℤ) → lo ≤ℤ a → b ≤ℤ hi → within a b x ≡ true → within lo hi x ≡ true
within_widen a b lo hi x p q h =
    let k = within_low a b x h in
    let l = within_high a b x h in within_intro lo hi x (omega (arith, p, k)) (omega (arith, q, l))

both : (p q : Bool) → (p && q) ≡ true → (p ≡ true) × (q ≡ true)
both p q e = (ground arith, ground arith)

-- The pixels of the rectangle that is made.
bbox_inside :
    (r : Region) (x y : ℤ)
    → contains (bbox r) x y ≡ true
    → (within (grow r bbox_start).x1 (grow r bbox_start).x2 x
        && within (grow r bbox_start).y1 (grow r bbox_start).y2 y)
      ≡ true
unfolding bbox create create_rect
bbox_inside r x y =
    let s = grow r bbox_start in
    elim (Bool-cases (ltb_ℤ s.x2 s.x1 || ltb_ℤ s.y2 s.y1)) [
      | inl t ↦ rw (bbox, t) (λ h. cc)
      | inr t ↦ rw (bbox, t) (λ h. ground (arith, h))
    ]

-- Where a rectangle has all pixels of a well-formed region, and its bounds are in the range in which
-- `sraRgnBBox` looks for them, it has all pixels of the rectangle that `sraRgnBBox` makes.
pub bbox_least :
    (r : Region) (b : Rect) (x y : ℤ)
    → IsRegion r
    → b.x1 ≤ℤ bbox_start.x1
    → bbox_start.x2 ≤ℤ b.x2
    → b.y1 ≤ℤ bbox_start.y1
    → bbox_start.y2 ≤ℤ b.y2
    → ((i j : ℤ) → contains r i j ≡ true → (within b.x1 b.x2 i && within b.y1 b.y2 j) ≡ true)
    → contains (bbox r) x y ≡ true
    → (within b.x1 b.x2 x && within b.y1 b.y2 y) ≡ true
bbox_least r b x y v p q m n f h =
    let s = grow r bbox_start in
    let w =
      grow-Within v.0 r bbox_start b v.1 f (record { left = p; right = q; top = m; bottom = n }) in
    let k = both (within s.x1 s.x2 x) (within s.y1 s.y2 y) (bbox_inside r x y h) in
    rw
      (
        within_widen s.x1 s.x2 b.x1 b.x2 x w.left w.right k.0,
        within_widen s.y1 s.y2 b.y1 b.y2 y w.top w.bottom k.1,
      )
      refl
