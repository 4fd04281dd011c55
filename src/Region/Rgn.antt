-- ===== src/Region/Rgn.antt =====
-- The exported routines of libvncserver/rfbregion.c, on regions: spans of rows, each with the list of
-- its spans of columns.
use libvncserver.Base.{ℕ, Bool, List, [], ◌∷◌, ◌||◌, if◌then◌else◌, Option, none, some, ◌++◌}
use libvncserver.Base.Int.{ℤ, pos, negsuc, ◌+ℤ◌, ltb_ℤ}
use libvncserver.Region.Span
use libvncserver.Region.Span.{Span, SubOps, is_empty, unwind}
use libvncserver.Region.Or.{union}
use libvncserver.Region.And.{inter}
use libvncserver.Region.Subtract.{subtract}
use libvncserver.Region.Nested.{Columns, Region, column_ops}

-- `sraRect`
pub record Rect : Type 0 where
  pub x1 : ℤ
  pub y1 : ℤ
  pub x2 : ℤ
  pub y2 : ℤ

-- `sraRgnCreate`, and what `sraRgnMakeEmpty` leaves
unfoldable pub create : Region
create = []

unfoldable pub create_rect : ℤ → ℤ → ℤ → ℤ → Region
create_rect x1 y1 x2 y2 =
    record { start = y1; end = y2; sub = record { start = x1; end = x2; sub = tt } ∷ [] } ∷ []

-- The two Boolean operations that say whether anything is left return it behind the new region.
unfoldable pub rgn_and : Region → Region → Region × Bool
rgn_and dst src = inter column_ops dst src

unfoldable pub rgn_or : Region → Region → Region
rgn_or dst src = union column_ops dst src

unfoldable pub rgn_subtract : Region → Region → Region × Bool
rgn_subtract dst src = subtract column_ops dst src

-- The inner and the outer loop of `sraRgnOffset`
unfoldable pub offset_columns : ℤ → Columns → Columns
offset_columns dx [] = []
offset_columns dx (h ∷ l) =
    record h { start = h.start +ℤ dx; end = h.end +ℤ dx } ∷ offset_columns dx l

unfoldable pub offset : Region → ℤ → ℤ → Region
unfolding offset_columns
offset [] dx dy = []
offset (v ∷ l) dx dy =
    record { start = v.start +ℤ dy; end = v.end +ℤ dy; sub = offset_columns dx v.sub }
    ∷ offset l dx dy

-- The inner and the outer loop of `sraRgnBBox`, over `xmin`, `ymin`, `xmax` and `ymax`
unfoldable pub grow_columns : Columns → Rect → Rect
grow_columns [] b = b
grow_columns (h ∷ l) b = grow_columns l (record b {
  x1 = if ltb_ℤ h.start b.x1 then h.start else b.x1;
  x2 = if ltb_ℤ b.x2 h.end then h.end else b.x2;
})

unfoldable pub grow : Region → Rect → Rect
unfolding grow_columns
grow [] b = b
grow (v ∷ l) b = grow l (
    grow_columns v.sub (record b {
      y1 = if ltb_ℤ v.start b.y1 then v.start else b.y1;
      y2 = if ltb_ℤ b.y2 v.end then v.end else b.y2;
    }))

-- `((unsigned int)(int)-1)>>1`; the other bounds start at `1-xmin`.
abbrev pub int_max : ℤ
int_max = pos 2147483647

abbrev pub bbox_start : Rect
bbox_start = record { x1 = int_max; y1 = int_max; x2 = negsuc 2147483645; y2 = negsuc 2147483645 }

-- `sraRgnBBox` of a region that is not NULL
unfoldable pub bbox : Region → Region
unfolding grow create create_rect
bbox src =
    let b = grow src bbox_start in
    if ltb_ℤ b.x2 b.x1 || ltb_ℤ b.y2 b.y1 then create else create_rect b.x1 b.y1 b.x2 b.y2

-- The last span of a list and the spans before it, as `back._prev` finds them.
unfoldable pub pop_last : {S : Type 0} → Span S → List (Span S) → List (Span S) × Span S
pop_last s [] = ([], s)
pop_last s (t ∷ l) = let r = pop_last t l in (s ∷ r.0, r.1)

-- What `sraRgnPopRect` does with the row that it picks: the rectangle, and the columns left.
unfoldable pub pop_column : Bool → Span Columns → Option (Rect × Columns)
unfolding pop_last
pop_column right2left v = elim v.sub [
  | [] ↦ none
  | h ∷ l ↦
      let r = if right2left then pop_last h l else (l, h) in
      some (record { x1 = r.1.start; y1 = v.start; x2 = r.1.end; y2 = v.end }, r.0)
]

-- The row is removed with its last column.
unfoldable pub keep_row : Span Columns → Columns → Region
unfolding is_empty
keep_row v left = if is_empty left then [] else record v { sub = left } ∷ []

-- `sraRgnPopRect`: by the flags, the last row or the first, and in it the last column or the first.
unfoldable pub pop_rect : Bool → Bool → Region → Option (Rect × Region)
unfolding pop_column pop_last keep_row
pop_rect right2left bottom2top [] = none
pop_rect right2left bottom2top (v ∷ l) =
    let r = if bottom2top then pop_last v l else (l, v) in
    elim (pop_column right2left r.1) [
      | none ↦ none
      | some (rect, left) ↦
          some (rect, if bottom2top then r.0 ++ keep_row r.1 left else keep_row r.1 left ++ r.0)
    ]

unfoldable pub count_rects : Region → ℕ
unfolding Span.count
count_rects r = Span.count column_ops r

unfoldable pub rgn_empty : Region → Bool
unfolding is_empty
rgn_empty r = is_empty r
