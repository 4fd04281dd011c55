-- ===== src/Subrects/Canvas.antt =====
-- What the client's frame buffer shows while it fills subrectangles, for libvncclient/rre.c and
-- libvncclient/corre.c.
use libvncserver.Base.{
  ℕ, ◌+◌, ◌≤◌, ◌<◌, true, false, ◌≡◌, refl, arith, ◌∙◌, List, [], ◌∷◌, some, sym, subst,
}
use libvncserver.Subrects.Image.{Image, Subrect, fill, fill_all, in_rect, fill_lem}
use libvncserver.Subrects.Loop.{AllParts, blank}
use libvncserver.Subrects.Wire.{Viewer, check_rect, fill_rectangle, shift}

-- A rectangle of the frame buffer `g` shows an image, and the rest is as in `base`.
pub record Shows (rx ry w h : ℕ) (im base g : Image) : Type 0 where
  pub inside : (i j : ℕ) → i < w → j < h → g (rx + i) (ry + j) ≡ im i j
  pub outside :
      (a b : ℕ)
      → in_rect (record { colour = 0; x = rx; y = ry; w = w; h = h }) a b ≡ false
      → g a b ≡ base a b

in_shift : (rx ry i j : ℕ) (r : Subrect) → in_rect (shift rx ry r) (rx + i) (ry + j) ≡ in_rect r i j
in_shift rx ry i j r = ground arith

filled_frame :
    (v : Viewer) (r : Subrect) (g : Image)
    → v.frame ≡ some g
    → check_rect v r ≡ true
    → fill_rectangle v r ≡ record v { frame = some (fill r g) }
unfolding fill_rectangle
filled_frame v r g e t = ground (arith, e, t)

module _ (rx ry w h : ℕ) (base : Image) where
  -- A part of the image is filled in both.
  fill-Shows :
      (r : Subrect) (im g : Image)
      → r.x + r.w ≤ w
      → r.y + r.h ≤ h
      → Shows rx ry w h im base g
      → Shows rx ry w h (fill r im) base (fill (shift rx ry r) g)
  fill-Shows r im g p q s = record {
    inside = λ i j a b.
        fill_lem (shift rx ry r) g (rx + i) (ry + j)
        ∙ rw (in_shift rx ry i j r, s.inside i j a b) (sym (fill_lem r im i j));
    outside = λ a b t.
        let off : in_rect (shift rx ry r) a b ≡ false = ground arith in
        fill_lem (shift rx ry r) g a b ∙ rw off (s.outside a b t);
  }

  -- A viewer that shows an image over `base`.
  pub record Views (width height : ℕ) (im : Image) (v : Viewer) : Type 0 where
    pub width_kept : v.width ≡ width
    pub height_kept : v.height ≡ height
    pub g : Image
    pub frame : v.frame ≡ some g
    pub shows : Shows rx ry w h im base g

  -- `GotFillRect` of a part of the image.
  pub fill_rectangle-Views :
      (width height : ℕ) (im : Image) (v : Viewer) (r : Subrect)
      → rx + w ≤ width
      → ry + h ≤ height
      → r.x + r.w ≤ w
      → r.y + r.h ≤ h
      → Views width height im v
      → Views width height (fill r im) (fill_rectangle v (shift rx ry r))
  unfolding fill_rectangle check_rect
  fill_rectangle-Views width height im v r a b p q s =
      let wide = s.width_kept in
      let high = s.height_kept in
      let fits : check_rect v (shift rx ry r) ≡ true = ground arith in
      let filled : fill_rectangle v (shift rx ry r)
          ≡ record v { frame = some (fill (shift rx ry r) s.g) } =
        filled_frame v (shift rx ry r) s.g s.frame fits in
      subst (Views width height (fill r im)) (sym filled) (record {
        width_kept = wide;
        height_kept = high;
        g = fill (shift rx ry r) s.g;
        frame = refl;
        shows = fill-Shows r im s.g p q s.shows;
      })

-- `GotFillRect` of the whole rectangle with the background.
pub background-Views :
    (rx ry w h bg : ℕ) (base : Image) (v : Viewer)
    → v.frame ≡ some base
    → rx + w ≤ v.width
    → ry + h ≤ v.height
    → Views rx ry w h base v.width v.height
        (blank bg)
        (fill_rectangle v (record { colour = bg; x = rx; y = ry; w = w; h = h }))
unfolding check_rect
background-Views rx ry w h bg base v f a b =
    let r : Subrect = record { colour = bg; x = rx; y = ry; w = w; h = h } in
    let fits : check_rect v r ≡ true = ground arith in
    subst (Views rx ry w h base v.width v.height (blank bg)) (sym (filled_frame v r base f fits))
      (record {
        width_kept = refl;
        height_kept = refl;
        g = fill r base;
        frame = refl;
        shows = record {
          inside = λ i j p q. fill_lem r base (rx + i) (ry + j) ∙ ground arith;
          outside = λ i j t. fill_lem r base i j ∙ rw t refl;
        };
      })

-- The rectangles of a list, filled by the client.
abbrev pub view_all : ℕ → ℕ → Viewer → List Subrect → Viewer
view_all rx ry v [] = v
view_all rx ry v (r ∷ rs) = view_all rx ry (fill_rectangle v (shift rx ry r)) rs

pub view_all-Views :
    (rx ry w h : ℕ) (base orig : Image) (width height : ℕ) (im : Image) (v : Viewer)
    (rs : List Subrect)
    → rx + w ≤ width
    → ry + h ≤ height
    → AllParts w h orig rs
    → Views rx ry w h base width height im v
    → Views rx ry w h base width height (fill_all rs im) (view_all rx ry v rs)
unfolding fill_all
view_all-Views rx ry w h base orig width height im v [] a b parts s = s
view_all-Views rx ry w h base orig width height im v (r ∷ rs) a b parts s =
    view_all-Views rx ry w h base orig width height (fill r im) (fill_rectangle v (shift rx ry r))
      rs a b parts.1
      (fill_rectangle-Views rx ry w h base width height im v r a b parts.0.column parts.0.row s)
