-- ===== src/Hextile/Bitmap.antt =====
-- The pixels of a tile in their order, and a raw tile in the client's frame buffer: `CopyRectangle` of
-- libvncclient/vncviewer.c.
use libvncserver.Base.{
  ℕ, zero, suc, ◌+◌, ◌-◌, ◌*◌, ◌≤◌, ◌<◌, true, ◌≡◌, refl, arith, ◌∙◌, ap, ap₂, List, [], ◌∷◌, ◌++◌,
  some, length, length-append, All, All-append, subst, if◌then◌else◌,
}
use libvncserver.Subrects.Image.{Image, Subrect, in_rect}
use libvncserver.Subrects.Encode.{row_pixels, pixels}
use libvncserver.Subrects.Wire.{Viewer, check_rect}
use libvncserver.Subrects.Canvas.{Shows}
use libvncserver.Hextile.Tile.{pixel_at, copy_bitmap}

length-row_pixels : (im : Image) (left x y : ℕ) → length (row_pixels im left x y) ≡ left
unfolding row_pixels
length-row_pixels im zero x y = refl
length-row_pixels im (suc left) x y = omega (arith, length-row_pixels im left (x + 1) y)

pub length-pixels : (im : Image) (w left y : ℕ) → length (pixels im w left y) ≡ w * left
unfolding pixels
length-pixels im w zero y = omega arith
length-pixels im w (suc left) y =
    length-append (row_pixels im w 0 y) (pixels im w left (y + 1))
    ∙ rw (length-row_pixels im w 0 y, length-pixels im w left (y + 1)) (omega arith)

row_pixels-All :
    (P : ℕ → Type 0) (im : Image) (left x y : ℕ)
    → ((i j : ℕ) → P (im i j))
    → All P (row_pixels im left x y)
unfolding row_pixels
row_pixels-All P im zero x y f = tt
row_pixels-All P im (suc left) x y f = (f x y, row_pixels-All P im left (x + 1) y f)

-- What holds of every pixel of an image holds of the list.
pub pixels-All :
    (P : ℕ → Type 0) (im : Image) (w left y : ℕ)
    → ((i j : ℕ) → P (im i j))
    → All P (pixels im w left y)
unfolding pixels
pixels-All P im w zero y f = tt
pixels-All P im w (suc left) y f =
    All-append P (row_pixels im w 0 y) (pixels im w left (y + 1)) (row_pixels-All P im w 0 y f)
      (pixels-All P im w left (y + 1) f)

-- A pixel of a row, and one behind it.
in_row :
    (im : Image) (left x y i : ℕ) (rest : List ℕ)
    → i < left
    → pixel_at (row_pixels im left x y ++ rest) i ≡ im (x + i) y
unfolding row_pixels pixel_at
in_row im zero x y i rest h = absurd (omega (arith, h))
in_row im (suc left) x y zero rest h = ap (λ x. im x y) (omega arith)
in_row im (suc left) x y (suc i) rest h =
    in_row im left (x + 1) y i rest (omega (arith, h)) ∙ ap (λ x. im x y) (omega arith)

behind :
    (im : Image) (left x y n : ℕ) (rest : List ℕ)
    → pixel_at (row_pixels im left x y ++ rest) (left + n) ≡ pixel_at rest n
unfolding row_pixels pixel_at
behind im zero x y n rest = ap (pixel_at rest) (omega arith)
behind im (suc left) x y n rest =
    let e : suc left + n ≡ suc (left + n) = omega arith in rw e (behind im left (x + 1) y n rest)

pub pixel_at-pixels :
    (im : Image) (w left y i j : ℕ)
    → i < w
    → j < left
    → pixel_at (pixels im w left y) (j * w + i) ≡ im i (y + j)
unfolding pixels
pixel_at-pixels im w zero y i j a b = absurd (omega (arith, b))
pixel_at-pixels im w (suc left) y i zero a b =
    let e : 0 * w + i ≡ i = omega arith in
    let column : 0 + i ≡ i = omega arith in
    let row : y + 0 ≡ y = omega arith in
    rw (e, row) (in_row im w 0 y i (pixels im w left (y + 1)) a ∙ ap (λ x. im x y) column)
pixel_at-pixels im w (suc left) y i (suc j) a b =
    let e : suc j * w + i ≡ w + (j * w + i) = omega arith in
    let row : y + 1 + j ≡ y + suc j = omega arith in
    rw e (
      behind im w 0 y (j * w + i) (pixels im w left (y + 1))
      ∙ pixel_at-pixels im w left (y + 1) i j a (omega (arith, b))
      ∙ ap (im i) row)

-- A raw tile is shown.
pub copy_bitmap-Shows :
    (im base : Image) (w h x y : ℕ) (v : Viewer)
    → v.frame ≡ some base
    → x + w ≤ v.width
    → y + h ≤ v.height
    → (g : Image) × (copy_bitmap v (pixels im w h 0) x y w h ≡ record v { frame = some g })
      × Shows x y w h im base g
unfolding copy_bitmap check_rect
copy_bitmap-Shows im base w h x y v f a b =
    let r : Subrect = record { colour = 0; x = x; y = y; w = w; h = h } in
    let g : Image = λ a b.
      if in_rect r a b then pixel_at (pixels im w h 0) ((b - y) * w + (a - x)) else base a b in
    let fits : check_rect v r ≡ true = ground arith in
    (
      g,
      ground (arith, f, fits),
      record {
        inside = λ i j p q.
            let here : in_rect r (x + i) (y + j) ≡ true = ground arith in
            let at : ((y + j) - y) * w + ((x + i) - x) ≡ j * w + i =
              ap₂ (λ m n. m * w + n) (omega arith) (omega arith) in
            rw (here, at) (pixel_at-pixels im w h 0 i j p q ∙ ap (im i) (omega arith));
        outside = λ a b t. rw t refl;
      },
    )

All-at : (P : ℕ → Type 0) (ps : List ℕ) (n : ℕ) → All P ps → n < length ps → P (pixel_at ps n)
unfolding pixel_at
All-at P [] n s h = absurd (omega (arith, h))
All-at P (p ∷ ps) zero s h = s.0
All-at P (p ∷ ps) (suc n) s h = All-at P ps n s.1 (omega (arith, h))

index-lt : (w h i j : ℕ) → i < w → j < h → j * w + i < w * h
index-lt w h i j a b = grind arith

-- What holds of the list holds of every pixel.
pub pixels-at :
    (P : ℕ → Type 0) (im : Image) (w h : ℕ)
    → All P (pixels im w h 0)
    → (i j : ℕ) → i < w
    → j < h
    → P (im i j)
pixels-at P im w h s i j a b =
    let e : pixel_at (pixels im w h 0) (j * w + i) ≡ im i j =
      pixel_at-pixels im w h 0 i j a b ∙ ap (im i) (omega arith) in
    subst P e (
      All-at P (pixels im w h 0) (j * w + i) s (rw (length-pixels im w h 0) (index-lt w h i j a b)))
