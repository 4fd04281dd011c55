-- ===== src/Subrects/Background.antt =====
-- `getBgColour` of libvncserver/rre.c for one byte a pixel.
use libvncserver.Base.{
  ℕ, zero, suc, ◌+◌, ◌≤◌, ◌==◌, if◌then◌else◌, ◌≡◌, refl, arith, List, [], ◌∷◌, ◌++◌, ◌<◌, ◌∙◌,
  Bool-cases, inl, inr,
}
use libvncserver.Subrects.Image.{Image}
use libvncserver.Subrects.Encode.{
  Prevalent, count_pixel, count_pixels, row_pixels, pixels, bg_colour,
}

-- How often a colour stands in a list.
abbrev pub occurrences : ℕ → List ℕ → ℕ
occurrences c [] = 0
occurrences c (p ∷ ps) = (if p == c then 1 else 0) + occurrences c ps

-- The colour that is kept has the count that is kept, and no colour has a greater one.
record IsPrevalent (s : Prevalent) : Type 0 where
  top : s.counts s.maxclr ≡ s.maxcount
  all : (c : ℕ) → s.counts c ≤ s.maxcount

count_pixel-IsPrevalent : (p : ℕ) (s : Prevalent) → IsPrevalent s → IsPrevalent (count_pixel p s)
unfolding count_pixel
count_pixel-IsPrevalent p s g =
    let top = g.top in
    let old = g.all p in
    record { top = ground arith; all = λ c. let other = g.all c in ground arith }

count_pixels-IsPrevalent :
    (ps : List ℕ) (s : Prevalent) → IsPrevalent s → IsPrevalent (count_pixels ps s)
unfolding count_pixels
count_pixels-IsPrevalent [] s g = g
count_pixels-IsPrevalent (p ∷ ps) s g =
    count_pixels-IsPrevalent ps (count_pixel p s) (count_pixel-IsPrevalent p s g)

counts-count_pixels :
    (ps : List ℕ) (s : Prevalent) (c : ℕ)
    → (count_pixels ps s).counts c ≡ s.counts c + occurrences c ps
unfolding count_pixels count_pixel
counts-count_pixels [] s c = omega arith
counts-count_pixels (p ∷ ps) s c = counts-count_pixels ps (count_pixel p s) c ∙ ground arith

-- For one byte a pixel, `getBgColour` returns a colour that no other stands more often than in the
-- image.
pub bg_colour_prevalent :
    (im : Image) (w h c : ℕ)
    → occurrences c (pixels im w h 0) ≤ occurrences (bg_colour 1 im w h) (pixels im w h 0)
unfolding bg_colour
bg_colour_prevalent im w h c =
    let start : Prevalent = record { counts = λ c. 0; maxcount = 0; maxclr = 0 } in
    let ps = pixels im w h 0 in
    let end = count_pixels ps start in
    let g = count_pixels-IsPrevalent ps start (record { top = refl; all = λ c. omega arith }) in
    let top = g.top in
    let all = g.all c in
    omega (arith, counts-count_pixels ps start c, counts-count_pixels ps start end.maxclr)

-- Every colour of a list is below a bound.
abbrev AllBelow : ℕ → List ℕ → Type 0
AllBelow top [] = Unit
AllBelow top (p ∷ ps) = (p < top) × AllBelow top ps

AllBelow-append :
    (top : ℕ) (ps qs : List ℕ) → AllBelow top ps → AllBelow top qs → AllBelow top (ps ++ qs)
AllBelow-append top [] qs a b = b
AllBelow-append top (p ∷ ps) qs a b = (a.0, AllBelow-append top ps qs a.1 b)

module _ (top : ℕ) (im : Image) (below : (i j : ℕ) → im i j < top) where
  row_pixels-AllBelow : (left x y : ℕ) → AllBelow top (row_pixels im left x y)
  unfolding row_pixels
  row_pixels-AllBelow zero x y = tt
  row_pixels-AllBelow (suc left) x y = (below x y, row_pixels-AllBelow left (x + 1) y)

  pixels-AllBelow : (w left y : ℕ) → AllBelow top (pixels im w left y)
  unfolding pixels
  pixels-AllBelow w zero y = tt
  pixels-AllBelow w (suc left) y =
      AllBelow-append top (row_pixels im w 0 y) (pixels im w left (y + 1))
        (row_pixels-AllBelow w 0 y) (pixels-AllBelow w left (y + 1))

maxclr-lt :
    (top : ℕ) (ps : List ℕ) (s : Prevalent)
    → AllBelow top ps
    → s.maxclr < top
    → (count_pixels ps s).maxclr < top
unfolding count_pixels count_pixel
maxclr-lt top [] s a b = b
maxclr-lt top (p ∷ ps) s a b =
    let first = a.0 in maxclr-lt top ps (count_pixel p s) a.1 (ground arith)

-- The background is a colour that a pixel can have.
pub bg_colour-lt :
    (top pixel : ℕ) (im : Image) (w h : ℕ)
    → ((i j : ℕ) → im i j < top)
    → bg_colour pixel im w h < top
unfolding bg_colour
bg_colour-lt top pixel im w h below =
    let first = below 0 0 in
    let most =
      maxclr-lt top (pixels im w h 0) (record { counts = λ c. 0; maxcount = 0; maxclr = 0 })
        (pixels-AllBelow top im below w h 0) (omega arith) in
    elim (Bool-cases (pixel == 1)) [ inl t ↦ rw t most | inr t ↦ rw t first ]
