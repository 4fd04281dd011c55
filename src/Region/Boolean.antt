-- ===== src/Region/Boolean.antt =====
-- The Boolean operations on regions are those on sets of pixels.
use libvncserver.Base.{Bool, true, false, not, ◌&&◌, ◌||◌, ◌≡◌, [], ◌∷◌, refl, arith}
use libvncserver.Base.Int.{ℤ, ◌<ℤ◌}
use libvncserver.Region.Span.{is_empty}
use libvncserver.Region.Laws.{within}
use libvncserver.Region.Or.Union.{union_points, union-IsSorted}
use libvncserver.Region.And.Inter.{inter_points, inter-IsSorted, inter_flag}
use libvncserver.Region.Subtract.Difference.{
  difference_points, difference-IsSorted, difference_flag,
}
use libvncserver.Region.Levels.{list_inhabited}
use libvncserver.Region.Rgn.{create_rect, rgn_and, rgn_or, rgn_subtract, rgn_empty}
use libvncserver.Region.Nested.{IsRegion, Region, column_ops, contains}
use libvncserver.Region.Levels.{column_laws}

-- `sraRgnOr` leaves the pixels of both regions, and a well-formed region.
pub rgn_or_lem :
    (a b : Region)
    → IsRegion a
    → IsRegion b
    → IsRegion (rgn_or a b)
      × ((x y : ℤ) → contains (rgn_or a b) x y ≡ contains a x y || contains b x y)
unfolding rgn_or
rgn_or_lem a b v w = (
  union-IsSorted column_ops column_laws a b v w,
  λ x y. union_points column_ops column_laws a b v w y (x, tt),
)

-- A pixel of a region.
abbrev pub Pixel : Region → Type 0
Pixel r = (x : ℤ) × (y : ℤ) × (contains r x y ≡ true)

occupied : (r : Region) → IsRegion r → is_empty r ≡ false → Pixel r
occupied r v e = let q = list_inhabited column_ops column_laws r (v, e) in (q.0.1.0, q.0.0, q.1)

no_pixel : (r : Region) → is_empty r ≡ true → (x y : ℤ) → contains r x y ≡ false
unfolding is_empty
no_pixel [] e x y = refl
no_pixel (v ∷ r) e x y = cc

-- A well-formed region is empty, for `sraRgnEmpty`, exactly when no pixel is in it.
pub rgn_empty_lem :
    (r : Region)
    → IsRegion r
    → (rgn_empty r ≡ true → (x y : ℤ) → contains r x y ≡ false) × (rgn_empty r ≡ false → Pixel r)
unfolding rgn_empty
rgn_empty_lem r v = (no_pixel r, occupied r v)

flag_means :
    (f : Bool) (r : Region)
    → IsRegion r
    → f ≡ not (is_empty r)
    → (f ≡ true → Pixel r) × (f ≡ false → (x y : ℤ) → contains r x y ≡ false)
flag_means f r v e = (λ h. occupied r v (ground arith), λ h. no_pixel r (ground arith))

-- `sraRgnAnd` leaves the pixels that are in both regions, and a well-formed region; it returns true
-- where some pixel is in both, and false where none is.
pub rgn_and_lem :
    (a b : Region)
    → IsRegion a
    → IsRegion b
    → IsRegion (rgn_and a b).0
      × ((x y : ℤ) → contains (rgn_and a b).0 x y ≡ contains a x y && contains b x y)
      × ((rgn_and a b).1 ≡ true → Pixel (rgn_and a b).0)
      × ((rgn_and a b).1 ≡ false → (x y : ℤ) → contains (rgn_and a b).0 x y ≡ false)
unfolding rgn_and
rgn_and_lem a b v w =
    let sorted = inter-IsSorted column_ops column_laws a b v w in
    let flag =
      flag_means (rgn_and a b).1 (rgn_and a b).0 sorted (inter_flag column_ops column_laws a b) in
    (sorted, λ x y. inter_points column_ops column_laws a b v w y (x, tt), flag.0, flag.1)

-- `sraRgnSubtract` leaves the pixels that are in the first region and not in the second, and a
-- well-formed region; it returns true where some pixel is left, and false where none is.
pub rgn_subtract_lem :
    (a b : Region)
    → IsRegion a
    → IsRegion b
    → IsRegion (rgn_subtract a b).0
      × ((x y : ℤ) → contains (rgn_subtract a b).0 x y ≡ contains a x y && not (contains b x y))
      × ((rgn_subtract a b).1 ≡ true → Pixel (rgn_subtract a b).0)
      × ((rgn_subtract a b).1 ≡ false → (x y : ℤ) → contains (rgn_subtract a b).0 x y ≡ false)
unfolding rgn_subtract
rgn_subtract_lem a b v w =
    let sorted = difference-IsSorted column_ops column_laws a b v w in
    let flag =
      flag_means (rgn_subtract a b).1 (rgn_subtract a b).0 sorted
        (difference_flag column_ops column_laws a b) in
    (sorted, λ x y. difference_points column_ops column_laws a b v w y (x, tt), flag.0, flag.1)

-- `sraRgnCreateRect` makes a well-formed region of the pixels from `x1` up to, not including, `x2`
-- and from `y1` up to `y2`, where neither range is empty.
pub create_rect_lem :
    (x1 y1 x2 y2 : ℤ)
    → x1 <ℤ x2
    → y1 <ℤ y2
    → IsRegion (create_rect x1 y1 x2 y2)
      × ((x y : ℤ) → contains (create_rect x1 y1 x2 y2) x y ≡ within y1 y2 y && within x1 x2 x)
unfolding create_rect is_empty
create_rect_lem x1 y1 x2 y2 h k =
    ((y1, (omega arith, k, ((x1, (omega arith, h, tt, tt)), refl), tt)), λ x y. ground arith)
