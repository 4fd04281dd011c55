-- ===== src/Region/Iterate.antt =====
-- What a loop over the rectangle iterator of libvncserver/rfbregion.c meets.
use libvncserver.Base.{
  ℕ, zero, suc, ◌+◌, ◌<◌, Bool, true, false, ◌≡◌, refl, sym, ap, ◌∙◌, arith, List, [], ◌∷◌, ◌++◌,
  map, Option, none, some, length, length-append,
}
use libvncserver.Base.Int.{ℤ}
use libvncserver.Region.Span
use libvncserver.Region.Span.{Span, is_empty}
use libvncserver.Region.Laws.{Chain}
use libvncserver.Region.Nested.{Columns, Region, IsColumns, IsRegion, column_ops, null_ops}
use libvncserver.Region.Rgn.{Rect, count_rects}
use libvncserver.Region.Pick.{count-append}
use libvncserver.Region.Iterator.{
  Iterator, backwards, directed, get_reverse_iterator, rect_of, enter_row, iterator_next, iterate,
  row_rects, rows_rects, rects,
}

-- What is left for an iterator.
abbrev ahead : Iterator → List Rect
ahead i = elim i.columns [
  | none ↦ rows_rects i.reverse_x i.rows
  | some (v, l) ↦ map (rect_of v) l ++ rows_rects i.reverse_x i.rows
]

-- Each row has a column.
abbrev IsFilled : List (Span Columns) → Type 0
IsFilled [] = Unit
IsFilled (v ∷ rows) = (is_empty v.sub ≡ false) × IsFilled rows

-- What a call of `sraRgnIteratorNext` finds.
data Next (i : Iterator) : Type 0 where
  finished : iterator_next i ≡ none → ahead i ≡ [] → Next i
  found :
      (rect : Rect) (i' : Iterator)
      → iterator_next i ≡ some (rect, i')
      → ahead i ≡ rect ∷ ahead i'
      → IsFilled i'.rows
      → Next i

not_empty :
    (reverse : Bool) (l : Columns)
    → is_empty l ≡ false
    → (h : Span (Unit {0})) × (t : Columns) × (directed reverse l ≡ h ∷ t)
unfolding is_empty backwards
not_empty reverse [] e = cc
not_empty false (h ∷ l) e = (h, l, refl)
not_empty true (h ∷ l) e =
    elim (backwards l) as (λ b. (g : Span (Unit {0})) × (t : Columns) × (b ++ h ∷ [] ≡ g ∷ t)) [
      | [] ↦ (h, [], refl)
      | g ∷ t ↦ (g, t ++ h ∷ [], refl)
    ]

enter_row-Next :
    (i : Iterator) (rows : List (Span Columns))
    → IsFilled rows
    → iterator_next i ≡ enter_row i.reverse_x rows
    → ahead i ≡ rows_rects i.reverse_x rows
    → Next i
unfolding enter_row rows_rects row_rects
enter_row-Next i [] f e a = finished e a
enter_row-Next i (v ∷ rows) f e a =
    let (h, t, d) = not_empty i.reverse_x v.sub f.0 in
    found (rect_of v h) (record { rows = rows; columns = some (v, t); reverse_x = i.reverse_x })
      (e ∙ rw (enter_row, d) refl)
      (a ∙ ap (λ l. map (rect_of v) l ++ rows_rects i.reverse_x rows) d) f.1

goes_on :
    (c : Option (Span Columns × Columns)) (rows : List (Span Columns)) (b : Bool)
    → IsFilled rows
    → Next (record { rows = rows; columns = c; reverse_x = b })
unfolding iterator_next
goes_on none rows b f = enter_row-Next _ rows f refl refl
goes_on (some (v, [])) rows b f = enter_row-Next _ rows f refl refl
goes_on (some (v, h ∷ l)) rows b f =
    found (rect_of v h) (record { rows = rows; columns = some (v, l); reverse_x = b }) refl refl f

loop_meets :
    (fuel : ℕ) (i : Iterator)
    → IsFilled i.rows
    → length (ahead i) < fuel
    → iterate fuel i ≡ some (ahead i)
unfolding iterate
loop_meets zero i f n = absurd (omega (arith, n))
loop_meets (suc fuel) i f n = elim (goes_on i.columns i.rows i.reverse_x f) [
  | finished e a ↦ rw (iterate, e) (ap some (sym a))
  | found rect i' e a g ↦
      let less : length (ahead i') < fuel = omega (arith, n, ap length a) in
      rw (iterate, e, loop_meets fuel i' g less) (ap some (sym a))
]

IsFilled-append : (a b : Region) → IsFilled a → IsFilled b → IsFilled (a ++ b)
IsFilled-append [] b f g = g
IsFilled-append (v ∷ a) b f g = (f.0, IsFilled-append a b f.1 g)

IsFilled-backwards : (r : Region) → IsFilled r → IsFilled (backwards r)
unfolding backwards
IsFilled-backwards [] f = tt
IsFilled-backwards (v ∷ r) f =
    IsFilled-append (backwards r) (v ∷ []) (IsFilled-backwards r f.1) (f.0, tt)

IsFilled-directed : (b : Bool) (r : Region) → IsFilled r → IsFilled (directed b r)
IsFilled-directed false r f = f
IsFilled-directed true r f = IsFilled-backwards r f

Chain-IsFilled : (lo : ℤ) (r : Region) → Chain IsColumns lo r → IsFilled r
Chain-IsFilled lo [] c = tt
Chain-IsFilled lo (v ∷ r) c = (c.2.1, Chain-IsFilled v.end r c.3)

length-backwards : {A : Type 0} (l : List A) → length (backwards l) ≡ length l
unfolding backwards
length-backwards [] = refl
length-backwards (s ∷ l) = omega (arith, length-append (backwards l) (s ∷ []), length-backwards l)

length-map : {A B : Type 0} (f : A → B) (l : List A) → length (map f l) ≡ length l
length-map f [] = refl
length-map f (s ∷ l) = ap suc (length-map f l)

length-directed : {A : Type 0} (b : Bool) (l : List A) → length (directed b l) ≡ length l
length-directed false l = refl
length-directed true l = length-backwards l

count-length : (l : Columns) → Span.count null_ops l ≡ length l
unfolding Span.count
count-length [] = refl
count-length (h ∷ l) = omega (arith, count-length l)

length-row_rects :
    (b : Bool) (v : Span Columns) → length (row_rects b v) ≡ Span.count null_ops v.sub
unfolding row_rects
length-row_rects b v =
    length-map (rect_of v) (directed b v.sub) ∙ length-directed b v.sub ∙ sym (count-length v.sub)

length-rows_rects : (b : Bool) (r : Region) → length (rows_rects b r) ≡ Span.count column_ops r
unfolding rows_rects Span.count
length-rows_rects b [] = refl
length-rows_rects b (v ∷ r) = omega (
  arith,
  length-append (row_rects b v) (rows_rects b r),
  length-row_rects b v,
  length-rows_rects b r,
)

count-backwards : (r : Region) → Span.count column_ops (backwards r) ≡ Span.count column_ops r
unfolding backwards Span.count
count-backwards [] = refl
count-backwards (v ∷ r) =
    omega (arith, count-append column_ops (backwards r) (v ∷ []), count-backwards r)

count-directed :
    (b : Bool) (r : Region) → Span.count column_ops (directed b r) ≡ Span.count column_ops r
count-directed false r = refl
count-directed true r = count-backwards r

-- With as many rounds as `sraRgnCountRects` says, and one to see the end, a loop over a well-formed
-- region ends: it meets the rows in the direction of one flag, and in each the columns in
-- the direction of the other, as many rectangles as `sraRgnCountRects` says.
pub iterate_lem :
    (reverse_x reverse_y : Bool) (r : Region)
    → IsRegion r
    → (iterate (count_rects r + 1) (get_reverse_iterator r reverse_x reverse_y)
        ≡ some (rects reverse_x reverse_y r))
      × (length (rects reverse_x reverse_y r) ≡ count_rects r)
unfolding rects get_reverse_iterator count_rects
iterate_lem reverse_x reverse_y r v =
    let f = IsFilled-directed reverse_y r (Chain-IsFilled v.0 r v.1) in
    let n = length-rows_rects reverse_x (directed reverse_y r) ∙ count-directed reverse_y r in
    (
      loop_meets (Span.count column_ops r + 1) (get_reverse_iterator r reverse_x reverse_y) f
          (omega (arith, n)),
      n,
    )
