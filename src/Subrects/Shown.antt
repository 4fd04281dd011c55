-- ===== src/Subrects/Shown.antt =====
-- A client of libvncclient/rre.c or libvncclient/corre.c shows the image that libvncserver/rre.c or
-- libvncserver/corre.c encodes.
use libvncserver.Base.{
  take_front, drop_front, ℕ, zero, suc, ◌+◌, ◌*◌, ◌/◌, ◌^◌, ◌≤◌, ◌<◌, ◌≡◌, ◌⊎◌, inl, inr, refl,
  arith, ◌∙◌, List, [], ◌∷◌, ◌++◌, some, length, length-append, take, drop, sym, ap, ltb, false,
}
use mathlib.Core.List.{append-nil}
use libvncserver.Base.Bytes.{limit, put_le, get_byte}
use libvncserver.Subrects.Image.{Image, Subrect, fill_all}
use libvncserver.Subrects.Encode.{Sizes, subrect_encode}
use libvncserver.Subrects.Background.{bg_colour-lt}
use libvncserver.Subrects.Loop.{blank}
use libvncserver.Subrects.Draws.{Draws, subrect_encode-Draws}
use libvncserver.Subrects.Wire.{
  Viewer, fill_rectangle, put_rectangle, get_rectangle, put_small, get_small, put_subrects,
  put_body, get_subrects, handle_rre, handle_corre,
}
use libvncserver.Subrects.Canvas.{Shows, Views, view_all, view_all-Views, background-Views}
use libvncserver.Subrects.Roundtrip.{
  IsSmall, get_rectangle-put, get_subrects-put, parts-AllSmall, body_read,
}

-- The bytes of a pixel of 8, 16 or 32 bits.
abbrev pub IsDepth : ℕ → Type 0
IsDepth p = (p ≡ 1) ⊎ ((p ≡ 2) ⊎ (p ≡ 4))

product-le : (a b c d : ℕ) → a ≤ c → b ≤ d → a * b ≤ c * d
product-le a b c d p q = grind arith

-- What the sizes of an encoding say of the number of its rectangles.
number_fits :
    (k : Sizes) (im : Image) (w h bg : ℕ) (subs : List Subrect)
    → IsDepth k.pixel
    → Draws k im w h bg subs
    → length subs * (k.pixel + k.rect) ≤ w * h * k.pixel
number_fits k im w h bg subs p d = elim d.fits [
  | inl e ↦ rw e (omega arith)
  | inr (a, b) ↦ omega (arith, a)
]

-- There are at most as many rectangles as pixels.
number-le : (n m p r : ℕ) → IsDepth p → n * (p + r) ≤ m * p → n ≤ m
number-le n m p r (inl e) h = let k = rw e at h in omega (arith, k)
number-le n m p r (inr (inl e)) h = let k = rw e at h in omega (arith, k)
number-le n m p r (inr (inr e)) h = let k = rw e at h in omega (arith, k)

-- The client shows what the rectangles draw, which is the image.
Views-Shows :
    (k : Sizes) (im base : Image) (w h rx ry bg : ℕ) (subs : List Subrect) (v : Viewer)
    (width height : ℕ)
    → Draws k im w h bg subs
    → Views rx ry w h base width height (fill_all subs (blank bg)) v
    → (g : Image) × (v.frame ≡ some g) × Shows rx ry w h im base g
Views-Shows k im base w h rx ry bg subs v width height d s = (
  s.g,
  s.frame,
  record {
    inside = λ i j a b. s.shows.inside i j a b ∙ d.drawn i j a b;
    outside = s.shows.outside;
  },
)

get_small-put :
    (r : Subrect) (rest : List ℕ)
    → IsSmall (2 ^ 8) r
    → get_small r.colour (put_small r ++ rest) ≡ some (r, rest)
unfolding get_small put_small get_byte
get_small-put r rest s = let x = s.x in let y = s.y in let w = s.w in let h = s.h in ground arith

length-put_le : (n v : ℕ) → length (put_le n v) ≡ n
unfolding put_le
length-put_le zero v = refl
length-put_le (suc n) v = omega (arith, length-put_le n (v / 256))

length-put_subrects :
    (put : Subrect → List ℕ) (pixel rect : ℕ)
    → ((r : Subrect) → length (put r) ≡ rect)
    → (rs : List Subrect) → length (put_subrects put pixel rs) ≡ length rs * (rect + pixel)
unfolding put_subrects
length-put_subrects put pixel rect e [] = omega arith
length-put_subrects put pixel rect e (r ∷ rs) =
    let front = length-put_le pixel r.colour in
    let this = e r in
    let back = length-put_subrects put pixel rect e rs in
    length-append (put_le pixel r.colour) (put r ++ put_subrects put pixel rs)
    ∙ rw (front, length-append (put r) (put_subrects put pixel rs), this, back) (omega arith)

length-put_small : (r : Subrect) → length (put_small r) ≡ 4
unfolding put_small
length-put_small r = refl

-- The test of `RFB_BUFFER_SIZE` passes for all the rectangles of a small image.
buffer_fits :
    (n m p : ℕ) → IsDepth p → n * (p + 4) ≤ m * p → m ≤ 255 * 255 → ltb (307200 / (4 + p)) n ≡ false
buffer_fits n m p (inl e) h t = let k = rw e at h in rw e (ground arith)
buffer_fits n m p (inr (inl e)) h t = let k = rw e at h in rw e (ground arith)
buffer_fits n m p (inr (inr e)) h t = let k = rw e at h in rw e (ground arith)

module _ (k : Sizes) (im base : Image) (w h rx ry bg : ℕ) (subs : List Subrect) (v : Viewer)
    (rest : List ℕ) (depth : IsDepth k.pixel) (below : (i j : ℕ) → im i j < limit k.pixel)
    (frame : v.frame ≡ some base) (wide : rx + w ≤ v.width) (high : ry + h ≤ v.height)
    (encoded : subrect_encode k im w h ≡ some (bg, subs)) where
  draws : Draws k im w h bg subs
  draws = subrect_encode-Draws k im w h bg subs encoded

  bg-lt : bg < limit k.pixel
  bg-lt = rw draws.background (bg_colour-lt (limit k.pixel) k.pixel im w h below)

  abbrev filled : Viewer
  filled = fill_rectangle v (record { colour = bg; x = rx; y = ry; w = w; h = h })

  shown : (g : Image) × ((view_all rx ry filled subs).frame ≡ some g) × Shows rx ry w h im base g
  shown =
      Views-Shows k im base w h rx ry bg subs (view_all rx ry filled subs) v.width v.height draws (
        view_all-Views rx ry w h base im v.width v.height (blank bg) filled subs wide high
          draws.parts (background-Views rx ry w h bg base v frame wide high))

  -- Where `subrectEncode` does not return -1 for an image of pixels of 1, 2 or 4 bytes with sides below
  -- 2^16, and its rectangle is within the client's frame buffer, `HandleRREBPP` reads the body that
  -- `rfbSendRectEncodingRRE` sends to its end, and then shows the image there; the rest of the frame
  -- buffer is as before.
  pub handle_rre_lem :
      w < 2 ^ 16
      → h < 2 ^ 16
      → (v' : Viewer) × (g : Image) × (handle_rre k.pixel rx ry w h v
            (put_body put_rectangle k.pixel bg subs ++ rest)
          ≡ some (v', rest))
        × (v'.frame ≡ some g)
        × Shows rx ry w h im base g
  unfolding handle_rre
  handle_rre_lem a b =
      let small =
        parts-AllSmall put_rectangle get_rectangle (2 ^ 16) k.pixel get_rectangle-put w h im subs a
          b below draws.parts in
      let many : length subs < 2 ^ 32 = omega (
        arith,
        number-le (length subs) (w * h) k.pixel k.rect depth
            (number_fits k im w h bg subs depth draws),
        product-le w h 65535 65535 (omega (arith, a)) (omega (arith, b)),
      ) in
      let head =
        body_read put_rectangle get_rectangle (2 ^ 16) k.pixel get_rectangle-put rx ry w h bg v subs
          rest bg-lt many in
      let tail =
        get_subrects-put put_rectangle get_rectangle (2 ^ 16) k.pixel get_rectangle-put rx ry filled
          subs rest small in
      (view_all rx ry filled subs, shown.0, rw (head, tail) refl, shown.1, shown.2)

  -- The same of `HandleCoRREBPP` and the body that `rfbSendSmallRectEncodingCoRRE` sends, for an image
  -- with sides below 2^8 and rectangles of four bytes: the client's test of its buffer passes.
  pub handle_corre_lem :
      k.rect ≡ 4
      → w < 2 ^ 8
      → h < 2 ^ 8
      → (v' : Viewer) × (g : Image) × (handle_corre k.pixel rx ry w h v
            (put_body put_small k.pixel bg subs ++ rest)
          ≡ some (v', rest))
        × (v'.frame ≡ some g)
        × Shows rx ry w h im base g
  unfolding handle_corre
  handle_corre_lem q a b =
      let small =
        parts-AllSmall put_small get_small (2 ^ 8) k.pixel get_small-put w h im subs a b below
          draws.parts in
      let bytes = number_fits k im w h bg subs depth draws in
      let many : length subs < 2 ^ 32 = omega (
        arith,
        number-le (length subs) (w * h) k.pixel k.rect depth bytes,
        product-le w h 255 255 (omega (arith, a)) (omega (arith, b)),
      ) in
      let head =
        body_read put_small get_small (2 ^ 8) k.pixel get_small-put rx ry w h bg v subs rest bg-lt
          many in
      let tail =
        get_subrects-put put_small get_small (2 ^ 8) k.pixel get_small-put rx ry filled subs []
          small in
      let size = length-put_subrects put_small k.pixel 4 length-put_small subs in
      let fits : ltb (307200 / (4 + k.pixel)) (length subs) ≡ false =
        buffer_fits (length subs) (w * h) k.pixel depth (rw q at bytes)
          (product-le w h 255 255 (omega (arith, a)) (omega (arith, b))) in
      let enough : ltb (length (put_subrects put_small k.pixel subs ++ rest))
            (length subs * (4 + k.pixel))
          ≡ false =
        rw (length-append (put_subrects put_small k.pixel subs) rest, size) (ground arith) in
      let body = put_subrects put_small k.pixel subs in
      let front : take (length subs * (4 + k.pixel)) (body ++ rest) ≡ body =
        ap (λ n. take n (body ++ rest)) (sym size) ∙ take_front body rest in
      let back : drop (length subs * (4 + k.pixel)) (body ++ rest) ≡ rest =
        ap (λ n. drop n (body ++ rest)) (sym size) ∙ drop_front body rest in
      let read : get_subrects get_small k.pixel rx ry (length subs) filled body
          ≡ some (view_all rx ry filled subs, []) =
        rw (append-nil body) at tail in
      (
        view_all rx ry filled subs,
        shown.0,
        rw (head, fits, enough, front, back, read) refl,
        shown.1,
        shown.2,
      )
