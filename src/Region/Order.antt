-- ===== src/Region/Order.antt =====
-- The pixels and the order of the rectangles that the iterator of libvncserver/rfbregion.c gives.
use libvncserver.Base.{
  All, All-append, All-map, Bool, true, false, ◌||◌, ◌&&◌, ◌≡◌, refl, ◌∙◌, arith, List, [], ◌∷◌,
  ◌++◌, map,
}
use libvncserver.Base.Int.{ℤ, pos, ◌≤ℤ◌, ◌<ℤ◌, ◌-ℤ◌, ltb_ℤ, -ℤ_parts}
use libvncserver.Region.Span.{Span}
use libvncserver.Region.Laws.{
  within, within_low, within_high, ltb_ℤ_true, ltb_ℤ_false, list_holds, Chain,
}
use libvncserver.Region.Nested.{Columns, Region, IsColumns, IsRegion, contains, in_columns}
use libvncserver.Region.Rgn.{Rect}
use libvncserver.Region.Pick.{holds-append}
use libvncserver.Region.Iterator.{backwards, directed, rect_of, row_rects, rows_rects, rects}

abbrev pub in_rectangle : Rect → ℤ → ℤ → Bool
in_rectangle r x y = within r.x1 r.x2 x && within r.y1 r.y2 y

above : (lo hi x : ℤ) → hi ≤ℤ x → within lo hi x ≡ false
above lo hi x h = ground arith

below : (lo hi x : ℤ) → x <ℤ lo → within lo hi x ≡ false
below lo hi x h = ground arith

-- Whether a pixel is in one of some rectangles.
abbrev pub in_some : List Rect → ℤ → ℤ → Bool
in_some [] x y = false
in_some (r ∷ rs) x y = in_rectangle r x y || in_some rs x y

in_some-append : (a b : List Rect) (x y : ℤ) → in_some (a ++ b) x y ≡ in_some a x y || in_some b x y
in_some-append [] b x y = refl
in_some-append (r ∷ a) b x y = ground (arith, in_some-append a b x y)

holds-backwards :
    {S P : Type 0} (holds : P → S → Bool) (x : ℤ) (p : P) (l : List (Span S))
    → list_holds holds x p (backwards l) ≡ list_holds holds x p l
unfolding backwards
holds-backwards holds x p [] = refl
holds-backwards holds x p (s ∷ l) =
    let q = holds-append holds (λ s. Unit {0}) x p (backwards l) (s ∷ []) in
    let i = holds-backwards holds x p l in ground (arith, q, i)

holds-directed :
    {S P : Type 0} (holds : P → S → Bool) (x : ℤ) (p : P) (b : Bool) (l : List (Span S))
    → list_holds holds x p (directed b l) ≡ list_holds holds x p l
holds-directed holds x p false l = refl
holds-directed holds x p true l = holds-backwards holds x p l

in_some-columns :
    (v : Span Columns) (l : Columns) (x y : ℤ)
    → in_some (map (rect_of v) l) x y ≡ in_columns (x, tt) l && within v.start v.end y
in_some-columns v [] x y = refl
in_some-columns v (h ∷ l) x y = ground (arith, in_some-columns v l x y)

in_some-rows : (b : Bool) (r : Region) (x y : ℤ) → in_some (rows_rects b r) x y ≡ contains r x y
unfolding rows_rects row_rects
in_some-rows b [] x y = refl
in_some-rows b (v ∷ r) x y =
    let p = in_some-append (row_rects b v) (rows_rects b r) x y in
    let q = in_some-columns v (directed b v.sub) x y in
    let d = holds-directed (λ (p : Unit {0}) (a : Unit {0}). true) x tt b v.sub in
    let i = in_some-rows b r x y in ground (arith, p, q, d, i)

-- The rectangles have the pixels of the region.
pub rects_points :
    (reverse_x reverse_y : Bool) (r : Region) (x y : ℤ)
    → in_some (rects reverse_x reverse_y r) x y ≡ contains r x y
unfolding rects
rects_points reverse_x reverse_y r x y =
    in_some-rows reverse_x (directed reverse_y r) x y
    ∙ holds-directed in_columns y (x, tt) reverse_y r

module _ {A : Type 0} where
  -- Each has the relation to all that come behind it.
  abbrev pub Ordered : (A → A → Type 0) → List A → Type 0
  Ordered R [] = Unit
  Ordered R (s ∷ l) = All (R s) l × Ordered R l

  Ordered-append :
      (R : A → A → Type 0) (a b : List A)
      → Ordered R a
      → Ordered R b
      → All (λ s. All (R s) b) a
      → Ordered R (a ++ b)
  Ordered-append R [] b p q c = q
  Ordered-append R (s ∷ a) b p q c = (All-append (R s) a b p.0 c.0, Ordered-append R a b p.1 q c.1)

  All-backwards : (P : A → Type 0) (l : List A) → All P l → All P (backwards l)
  unfolding backwards
  All-backwards P [] p = tt
  All-backwards P (s ∷ l) p = All-append P (backwards l) (s ∷ []) (All-backwards P l p.1) (p.0, tt)

  Ordered-backwards :
      (R : A → A → Type 0) (l : List A) → Ordered R l → Ordered (λ s t. R t s) (backwards l)
  unfolding backwards
  Ordered-backwards R [] p = tt
  Ordered-backwards R (s ∷ l) p =
      Ordered-append (λ s t. R t s) (backwards l) (s ∷ []) (Ordered-backwards R l p.1) (tt, tt)
        (All-map (λ t. R s t) (λ t. R s t × Unit) (backwards l) (λ t q. (q, tt))
          (All-backwards (R s) l p.0))

-- One span ends before the other starts, in the direction of a flag.
abbrev Precedes : {S : Type 0} → Bool → Span S → Span S → Type 0
Precedes false s t = s.end ≤ℤ t.start
Precedes true s t = t.end ≤ℤ s.start

Chain-All :
    {S : Type 0} (IsValid : S → Type 0) (s : Span S) (lo : ℤ) (l : List (Span S))
    → s.end ≤ℤ lo
    → Chain IsValid lo l
    → All (Precedes false s) l
Chain-All IsValid s lo [] h c = tt
Chain-All IsValid s lo (t ∷ l) h c =
    (omega (arith, h, c.0), Chain-All IsValid s t.end l (omega (arith, h, c.0, c.1)) c.3)

Chain-Ordered :
    {S : Type 0} (IsValid : S → Type 0) (lo : ℤ) (l : List (Span S))
    → Chain IsValid lo l
    → Ordered (Precedes false) l
Chain-Ordered IsValid lo [] c = tt
Chain-Ordered IsValid lo (s ∷ l) c =
    (Chain-All IsValid s s.end l (omega arith) c.3, Chain-Ordered IsValid s.end l c.3)

directed-Ordered :
    {S : Type 0} (IsValid : S → Type 0) (b : Bool) (lo : ℤ) (l : List (Span S))
    → Chain IsValid lo l
    → Ordered (Precedes b) (directed b l)
directed-Ordered IsValid false lo l c = Chain-Ordered IsValid lo l c
directed-Ordered IsValid true lo l c =
    Ordered-backwards (Precedes false) l (Chain-Ordered IsValid lo l c)

-- No pixel of the later rectangle has its source, `dx` to the left and `dy` above, in the earlier one.
abbrev pub IsFree : ℤ → ℤ → Rect → Rect → Type 0
IsFree dx dy a b =
    (x y : ℤ) → in_rectangle b x y ≡ true → in_rectangle a (x -ℤ dx) (y -ℤ dy) ≡ false

-- In the direction that fits a distance, an earlier span is not the source of a later one.
Precedes-out :
    {S : Type 0} (s t : Span S) (d x : ℤ) (b : Bool)
    → ltb_ℤ (pos 0) d ≡ b
    → Precedes b s t
    → within t.start t.end x ≡ true
    → within s.start s.end (x -ℤ d) ≡ false
Precedes-out s t d x false e p h =
    let q = -ℤ_parts x d in
    let y = x -ℤ d in
    let k = within_low t.start t.end x h in
    let o : s.end ≤ℤ y = let z = ltb_ℤ_false (pos 0) d e in omega (arith, p, q, k, z) in
    above s.start s.end y o
Precedes-out s t d x true e p h =
    let q = -ℤ_parts x d in
    let y = x -ℤ d in
    let k = within_high t.start t.end x h in
    let o : y <ℤ s.start = let z = ltb_ℤ_true (pos 0) d e in omega (arith, p, q, k, z) in
    below s.start s.end y o

module _ (dx dy : ℤ) where
  columns-IsFree :
      (v : Span Columns) (h : Span (Unit {0})) (l : Columns)
      → All (Precedes (ltb_ℤ (pos 0) dx) h) l
      → All (IsFree dx dy (rect_of v h)) (map (rect_of v) l)
  columns-IsFree v h [] p = tt
  columns-IsFree v h (g ∷ l) p = (
    λ x y e.
        let q = Precedes-out h g dx x (ltb_ℤ (pos 0) dx) refl p.0 (ground (arith, e)) in rw q refl,
    columns-IsFree v h l p.1,
  )

  row-Ordered :
      (v : Span Columns) (l : Columns)
      → Ordered (Precedes (ltb_ℤ (pos 0) dx)) l
      → Ordered (IsFree dx dy) (map (rect_of v) l)
  row-Ordered v [] p = tt
  row-Ordered v (h ∷ l) p = (columns-IsFree v h l p.0, row-Ordered v l p.1)

  -- Of two rows, each rectangle of the one and each of the other.
  cross-row :
      (v w : Span Columns) (h : Span (Unit {0})) (l : Columns)
      → Precedes (ltb_ℤ (pos 0) dy) v w
      → All (IsFree dx dy (rect_of v h)) (map (rect_of w) l)
  cross-row v w h [] p = tt
  cross-row v w h (g ∷ l) p = (
    λ x y e.
        let q = Precedes-out v w dy y (ltb_ℤ (pos 0) dy) refl p (ground (arith, e)) in
        ground (arith, q),
    cross-row v w h l p,
  )

  cross-rows :
      (b : Bool) (v : Span Columns) (h : Span (Unit {0})) (r : Region)
      → All (Precedes (ltb_ℤ (pos 0) dy) v) r
      → All (IsFree dx dy (rect_of v h)) (rows_rects b r)
  unfolding rows_rects row_rects
  cross-rows b v h [] p = tt
  cross-rows b v h (w ∷ r) p =
      All-append (IsFree dx dy (rect_of v h)) (row_rects b w) (rows_rects b r)
        (cross-row v w h (directed b w.sub) p.0) (cross-rows b v h r p.1)

  cross :
      (b : Bool) (v : Span Columns) (l : Columns) (r : Region)
      → All (Precedes (ltb_ℤ (pos 0) dy) v) r
      → All (λ s. All (IsFree dx dy s) (rows_rects b r)) (map (rect_of v) l)
  cross b v [] r p = tt
  cross b v (h ∷ l) r p = (cross-rows b v h r p, cross b v l r p)

  rows-Ordered :
      (r : Region)
      → All (λ v. IsColumns v.sub) r
      → Ordered (Precedes (ltb_ℤ (pos 0) dy)) r
      → Ordered (IsFree dx dy) (rows_rects (ltb_ℤ (pos 0) dx) r)
  unfolding rows_rects row_rects
  rows-Ordered [] f p = tt
  rows-Ordered (v ∷ r) f p =
      let b = ltb_ℤ (pos 0) dx in
      let l = directed b v.sub in
      Ordered-append (IsFree dx dy) (map (rect_of v) l) (rows_rects b r)
        (row-Ordered v l (directed-Ordered (λ a. Unit {0}) b f.0.0.0 v.sub f.0.0.1))
        (rows-Ordered r f.1 p.1) (cross b v l r p.0)

Chain-IsColumns : (lo : ℤ) (r : Region) → Chain IsColumns lo r → All (λ v. IsColumns v.sub) r
Chain-IsColumns lo [] c = tt
Chain-IsColumns lo (v ∷ r) c = (c.2, Chain-IsColumns v.end r c.3)

All-directed :
    {A : Type 0} (P : A → Type 0) (b : Bool) (l : List A) → All P l → All P (directed b l)
All-directed P false l p = p
All-directed P true l p = All-backwards P l p

-- From right to left where `dx` is above 0, and from the bottom to the top where `dy` is, the rectangles
-- of a well-formed region come in an order in which no copy by `dx` and `dy` changes the source of
-- a later one.
pub rects-Ordered :
    (dx dy : ℤ) (r : Region)
    → IsRegion r
    → Ordered (IsFree dx dy) (rects (ltb_ℤ (pos 0) dx) (ltb_ℤ (pos 0) dy) r)
unfolding rects
rects-Ordered dx dy r v =
    let b = ltb_ℤ (pos 0) dy in
    rows-Ordered dx dy (directed b r)
      (All-directed (λ v. IsColumns v.sub) b r (Chain-IsColumns v.0 r v.1))
      (directed-Ordered IsColumns b v.0 r v.1)

-- A rectangle that has a pixel.
abbrev pub IsOpen : Rect → Type 0
IsOpen r = (r.x1 <ℤ r.x2) × (r.y1 <ℤ r.y2)

columns-IsOpen :
    (v : Span Columns) (lo : ℤ) (l : Columns)
    → v.start <ℤ v.end
    → Chain (λ a. Unit {0}) lo l
    → All (λ h. IsOpen (rect_of v h)) l
columns-IsOpen v lo [] h c = tt
columns-IsOpen v lo (g ∷ l) h c = ((c.1, h), columns-IsOpen v g.end l h c.3)

All-of-map :
    {A B : Type 0} (P : B → Type 0) (f : A → B) (l : List A)
    → All (λ s. P (f s)) l
    → All P (map f l)
All-of-map P f [] p = tt
All-of-map P f (s ∷ l) p = (p.0, All-of-map P f l p.1)

rows-IsOpen :
    (b : Bool) (r : Region)
    → All (λ v. (v.start <ℤ v.end) × IsColumns v.sub) r
    → All IsOpen (rows_rects b r)
unfolding rows_rects row_rects
rows-IsOpen b [] p = tt
rows-IsOpen b (v ∷ r) p =
    All-append IsOpen (row_rects b v) (rows_rects b r)
      (All-of-map IsOpen (rect_of v) (directed b v.sub) (
        All-directed (λ h. IsOpen (rect_of v h)) b v.sub
          (columns-IsOpen v p.0.1.0.0 v.sub p.0.0 p.0.1.0.1)))
      (rows-IsOpen b r p.1)

Chain-proper :
    (lo : ℤ) (r : Region) → Chain IsColumns lo r → All (λ v. (v.start <ℤ v.end) × IsColumns v.sub) r
Chain-proper lo [] c = tt
Chain-proper lo (v ∷ r) c = ((c.1, c.2), Chain-proper v.end r c.3)

-- Each rectangle of a well-formed region has a pixel.
pub rects-IsOpen :
    (reverse_x reverse_y : Bool) (r : Region)
    → IsRegion r
    → All IsOpen (rects reverse_x reverse_y r)
unfolding rects
rects-IsOpen reverse_x reverse_y r v =
    rows-IsOpen reverse_x (directed reverse_y r) (
      All-directed (λ v. (v.start <ℤ v.end) × IsColumns v.sub) reverse_y r (Chain-proper v.0 r v.1))

-- What holds of the pixels of all the rectangles holds of those of each.
pub each_of_some :
    (P : ℤ → ℤ → Type 0) (rs : List Rect)
    → ((x y : ℤ) → in_some rs x y ≡ true → P x y)
    → All (λ r. (x y : ℤ) → in_rectangle r x y ≡ true → P x y) rs
each_of_some P [] f = tt
each_of_some P (r ∷ rs) f =
    (λ x y h. f x y (rw h refl), each_of_some P rs (λ x y h. f x y (ground (arith, h))))
