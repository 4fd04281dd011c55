-- ===== src/Region/Examples.antt =====
-- The routines of libvncserver/rfbregion.c on small regions, and the theorems on them.
use libvncserver.Base.{
  true, false, not, ◌&&◌, ◌||◌, ◌≡◌, [], refl, arith, length, some, ◌+◌, while, none, ◌⊎◌,
}
use libvncserver.Base.Int.{ℤ, pos, ◌+ℤ◌}
use libvncserver.Region.Span.{unwind}
use libvncserver.Region.Laws.{within}
use libvncserver.Region.Or.{union, or_test, or_body, start_of}
use libvncserver.Region.Or.Union.{union_rounds}
use libvncserver.Region.And.{inter, walk_test, and_body}
use libvncserver.Region.And.Inter.{inter_rounds}
use libvncserver.Region.Subtract.{subtract, subtract_body}
use libvncserver.Region.Subtract.Difference.{difference_rounds}
use libvncserver.Region.Rgn.{create_rect, rgn_and, rgn_or, rgn_subtract, offset, bbox, pop_rect}
use libvncserver.Region.Boolean.{Pixel, rgn_or_lem, rgn_and_lem, rgn_subtract_lem, create_rect_lem}
use libvncserver.Region.Offset.{offset_lem}
use libvncserver.Region.Pop.{Popped, pop_rect_lem}
use libvncserver.Region.Iterator.{get_reverse_iterator, iterate, rects}
use libvncserver.Region.Iterate.{iterate_lem}
use libvncserver.Region.Tight.{bbox_least}
use libvncserver.Region.Rgn.{Rect, create, grow, grow_columns, count_rects}
use libvncserver.Region.Box.{bbox_covers}
use libvncserver.Region.Clip.{Extent}
use libvncserver.Region.Nested.{IsRegion, Region, column_ops, contains}
use libvncserver.Region.Levels.{column_laws}

-- Two rectangles that overlap, and what is well-formed about them.
abbrev low : Region
low = create_rect (pos 0) (pos 0) (pos 10) (pos 10)

abbrev high : Region
high = create_rect (pos 5) (pos 5) (pos 20) (pos 8)

low-IsRegion : IsRegion low
low-IsRegion = (create_rect_lem (pos 0) (pos 0) (pos 10) (pos 10) (omega arith) (omega arith)).0

high-IsRegion : IsRegion high
high-IsRegion = (create_rect_lem (pos 5) (pos 5) (pos 20) (pos 8) (omega arith) (omega arith)).0

rgn_or_lem_example :
    IsRegion (rgn_or low high)
    × ((x y : ℤ) → contains (rgn_or low high) x y ≡ contains low x y || contains high x y)
rgn_or_lem_example = rgn_or_lem low high low-IsRegion high-IsRegion

rgn_and_lem_example :
    IsRegion (rgn_and low high).0
    × ((x y : ℤ) → contains (rgn_and low high).0 x y ≡ contains low x y && contains high x y)
    × ((rgn_and low high).1 ≡ true → Pixel (rgn_and low high).0)
    × ((rgn_and low high).1 ≡ false → (x y : ℤ) → contains (rgn_and low high).0 x y ≡ false)
rgn_and_lem_example = rgn_and_lem low high low-IsRegion high-IsRegion

rgn_subtract_lem_example :
    IsRegion (rgn_subtract low high).0
    × ((x y : ℤ)
        → contains (rgn_subtract low high).0 x y ≡ contains low x y && not (contains high x y))
    × ((rgn_subtract low high).1 ≡ true → Pixel (rgn_subtract low high).0)
    × ((rgn_subtract low high).1 ≡ false
        → (x y : ℤ) → contains (rgn_subtract low high).0 x y ≡ false)
rgn_subtract_lem_example = rgn_subtract_lem low high low-IsRegion high-IsRegion

union_rounds_example :
    let end =
      while 100
        (or_test column_ops)
        (or_body column_ops)
        (record { prevs = []; dest = low; s_start = start_of high; src = high }) in
    (or_test column_ops end ≡ false) × (union column_ops low high ≡ unwind end.prevs end.dest)
unfolding create_rect
union_rounds_example =
    union_rounds column_ops column_laws low high low-IsRegion high-IsRegion 100 (omega arith)

inter_rounds_example :
    let end =
      while 100 walk_test (and_body column_ops) (record { prevs = []; dest = low; src = high }) in
    (walk_test end ≡ false) × ((inter column_ops low high).0 ≡ unwind end.prevs [])
unfolding create_rect
inter_rounds_example =
    inter_rounds column_ops column_laws low high low-IsRegion high-IsRegion 100 (omega arith)

difference_rounds_example :
    let end =
      while 100 walk_test
        (subtract_body column_ops)
        (record { prevs = []; dest = low; src = high }) in
    (walk_test end ≡ false) × ((subtract column_ops low high).0 ≡ unwind end.prevs end.dest)
unfolding create_rect
difference_rounds_example =
    difference_rounds column_ops column_laws low high low-IsRegion high-IsRegion 100 (omega arith)

offset_lem_example :
    IsRegion (offset low (pos 3) (pos 4))
    × ((x y : ℤ)
        → contains (offset low (pos 3) (pos 4)) (x +ℤ pos 3) (y +ℤ pos 4) ≡ contains low x y)
offset_lem_example = offset_lem low (pos 3) (pos 4) low-IsRegion

low_has : contains low (pos 3) (pos 4) ≡ true
unfolding create_rect
low_has = refl

bbox_covers_example : contains (bbox low) (pos 3) (pos 4) ≡ true
bbox_covers_example = bbox_covers low (pos 3) (pos 4) low_has

abbrev wide : Extent
wide = record { at = pos 5; size = pos 100 }

abbrev clip : Extent
clip = record { at = pos 20; size = pos 30 }

pop_rect_lem_example :
    ((pop_rect true true low ≡ none) × ((x y : ℤ) → contains low x y ≡ false))
    ⊎ Popped true true low
pop_rect_lem_example = pop_rect_lem true true low low-IsRegion

abbrev frame : Rect
frame = record { x1 = pos 0; y1 = pos 0; x2 = pos 30; y2 = pos 40 }

low_framed :
    (i j : ℤ)
    → contains low i j ≡ true
    → (within (pos 0) (pos 30) i && within (pos 0) (pos 40) j) ≡ true
low_framed i j e =
    let c = create_rect_lem (pos 0) (pos 0) (pos 10) (pos 10) (omega arith) (omega arith) in
    ground (arith, e, c.1 i j)

low_boxed : contains (bbox low) (pos 2) (pos 3) ≡ true
unfolding bbox create create_rect grow grow_columns
low_boxed = refl

bbox_least_example : (within (pos 0) (pos 30) (pos 2) && within (pos 0) (pos 40) (pos 3)) ≡ true
bbox_least_example =
    bbox_least low frame (pos 2) (pos 3) low-IsRegion (omega arith) (omega arith) (omega arith)
      (omega arith) low_framed low_boxed

iterate_lem_example :
    (iterate (count_rects low + 1) (get_reverse_iterator low true true)
      ≡ some (rects true true low))
    × (length (rects true true low) ≡ count_rects low)
iterate_lem_example = iterate_lem true true low low-IsRegion
