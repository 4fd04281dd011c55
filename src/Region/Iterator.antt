-- ===== src/Region/Iterator.antt =====
-- The rectangle iterator of libvncserver/rfbregion.c.
use libvncserver.Base.{
  ℕ, zero, suc, Bool, if◌then◌else◌, List, [], ◌∷◌, ◌++◌, map, Option, none, some,
}
use libvncserver.Region.Span.{Span}
use libvncserver.Region.Nested.{Columns, Region}
use libvncserver.Region.Rgn.{Rect}

-- The spans of a list from its end to its start, as the `_prev` links have them.
unfoldable pub backwards {ℓ} : {A : Type ℓ} → List A → List A
backwards [] = []
backwards (s ∷ l) = backwards l ++ s ∷ []

-- The spans in the direction of a flag.
abbrev pub directed {ℓ} : {A : Type ℓ} → Bool → List A → List A
directed reverse l = if reverse then backwards l else l

-- `sraRectangleIterator`: `rows` are the spans behind `sPtrs[0]`, up to the end `sPtrs[1]`; where
-- `ptrPos` is 2, `columns` is the row and the spans behind `sPtrs[2]`.
pub record Iterator : Type 0 where
  pub rows : List (Span Columns)
  pub columns : Option (Span Columns × Columns)
  pub reverse_x : Bool

-- `sraRgnGetReverseIterator`; `sraRgnGetIterator` has both flags down.
unfoldable pub get_reverse_iterator : Region → Bool → Bool → Iterator
unfolding backwards
get_reverse_iterator r reverse_x reverse_y = record {
  rows = directed reverse_y r;
  columns = none;
  reverse_x = reverse_x;
}

abbrev pub rect_of : Span Columns → Span (Unit {0}) → Rect
rect_of v h = record { x1 = h.start; y1 = v.start; x2 = h.end; y2 = v.end }

-- "is this a new subspan?": the first column of the next row. The code expects one in each row.
unfoldable pub enter_row : Bool → List (Span Columns) → Option (Rect × Iterator)
unfolding backwards
enter_row reverse_x [] = none
enter_row reverse_x (v ∷ rows) = elim (directed reverse_x v.sub) [
  | [] ↦ none
  | h ∷ l ↦ some (rect_of v h, record { rows = rows; columns = some (v, l); reverse_x = reverse_x })
]

-- `sraRgnIteratorNext`: none is the return of 0.
unfoldable pub iterator_next : Iterator → Option (Rect × Iterator)
unfolding enter_row
iterator_next i = elim i.columns [
  | none ↦ enter_row i.reverse_x i.rows
  | some (v, l) ↦ elim l [
    | [] ↦ enter_row i.reverse_x i.rows
    | h ∷ l' ↦ some (rect_of v h, record i { columns = some (v, l') })
  ]
]

-- `while(sraRgnIteratorNext(i,&rect))`: the rectangles that the body meets; none is a loop of the model
-- without fuel.
unfoldable pub iterate : ℕ → Iterator → Option (List Rect)
unfolding iterator_next
iterate zero i = none
iterate (suc fuel) i = elim (iterator_next i) [
  | none ↦ some []
  | some (rect, i') ↦ elim (iterate fuel i') [ none ↦ none | some rects ↦ some (rect ∷ rects) ]
]

-- The rectangles of a region, by rows and columns in two directions.
unfoldable pub row_rects : Bool → Span Columns → List Rect
unfolding backwards
row_rects reverse_x v = map (rect_of v) (directed reverse_x v.sub)

unfoldable pub rows_rects : Bool → List (Span Columns) → List Rect
unfolding row_rects
rows_rects reverse_x [] = []
rows_rects reverse_x (v ∷ rows) = row_rects reverse_x v ++ rows_rects reverse_x rows

unfoldable pub rects : Bool → Bool → Region → List Rect
unfolding rows_rects backwards
rects reverse_x reverse_y r = rows_rects reverse_x (directed reverse_y r)
