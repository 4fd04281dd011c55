-- ===== src/Subrects/Roundtrip.antt =====
-- A client of libvncclient/rre.c shows the image that libvncserver/rre.c encodes.
use libvncserver.Base.{ℕ, ◌^◌, ◌<◌, ◌≡◌, refl, arith, List, [], ◌∷◌, ◌++◌, some, length}
use mathlib.Core.List.{append_assoc}
use libvncserver.Base.Bytes.{
  Read, limit, put_le, put_16, get_16, put_32, get_le-put_le, get_32-put_32,
}
use libvncserver.Subrects.Image.{Image, Subrect}
use libvncserver.Subrects.Loop.{AllParts}
use libvncserver.Subrects.Wire.{
  Viewer, fill_rectangle, shift, put_rectangle, get_rectangle, put_subrects, put_body, get_subrect,
  get_subrects, get_background,
}
use libvncserver.Subrects.Canvas.{view_all}

-- The fields of a rectangle fit the numbers that they are sent as.
pub record IsSmall (top : ℕ) (r : Subrect) : Type 0 where
  pub x : r.x < top
  pub y : r.y < top
  pub w : r.w < top
  pub h : r.h < top

pub get_rectangle-put :
    (r : Subrect) (rest : List ℕ)
    → IsSmall (2 ^ 16) r
    → get_rectangle r.colour (put_rectangle r ++ rest) ≡ some (r, rest)
unfolding get_rectangle put_rectangle put_16 get_16
get_rectangle-put r rest s =
    let x = s.x in let y = s.y in let w = s.w in let h = s.h in ground arith

module _ (put : Subrect → List ℕ) (get : ℕ → List ℕ → Read Subrect) (top pixel : ℕ)
    (law : (r : Subrect) (rest : List ℕ)
      → IsSmall top r
      → get r.colour (put r ++ rest) ≡ some (r, rest)) where
  -- Each rectangle can be sent.
  abbrev pub AllSmall : List Subrect → Type 0
  AllSmall [] = Unit
  AllSmall (r ∷ rs) = IsSmall top r × (r.colour < limit pixel) × AllSmall rs

  get_subrect-put :
      (rx ry : ℕ) (v : Viewer) (r : Subrect) (rest : List ℕ)
      → IsSmall top r
      → r.colour < limit pixel
      → get_subrect get pixel rx ry v (put_le pixel r.colour ++ (put r ++ rest))
        ≡ some (fill_rectangle v (shift rx ry r), rest)
  unfolding get_subrect
  get_subrect-put rx ry v r rest s c =
      rw (get_le-put_le pixel r.colour (put r ++ rest) c, law r rest s)

  pub get_subrects-put :
      (rx ry : ℕ) (v : Viewer) (rs : List Subrect) (rest : List ℕ)
      → AllSmall rs
      → get_subrects get pixel rx ry (length rs) v (put_subrects put pixel rs ++ rest)
        ≡ some (view_all rx ry v rs, rest)
  unfolding get_subrects put_subrects
  get_subrects-put rx ry v [] rest s = refl
  get_subrects-put rx ry v (r ∷ rs) rest s =
      let front : (put_le pixel r.colour ++ (put r ++ put_subrects put pixel rs)) ++ rest
          ≡ put_le pixel r.colour ++ (put r ++ (put_subrects put pixel rs ++ rest)) =
        simp append_assoc in
      rw (front, get_subrect-put rx ry v r (put_subrects put pixel rs ++ rest) s.0 s.1)
        (get_subrects-put rx ry (fill_rectangle v (shift rx ry r)) rs rest s.2)

  -- All parts of an image with small sides and pixels can be sent.
  pub parts-AllSmall :
      (w h : ℕ) (im : Image) (rs : List Subrect)
      → w < top
      → h < top
      → ((i j : ℕ) → im i j < limit pixel)
      → AllParts w h im rs
      → AllSmall rs
  parts-AllSmall w h im [] a b c parts = tt
  parts-AllSmall w h im (r ∷ rs) a b c parts =
      let p = parts.0 in
      let column = p.column in
      let row = p.row in
      let width = p.width in
      let height = p.height in
      (
        record { x = omega arith; y = omega arith; w = omega arith; h = omega arith },
        rw p.colour (c r.x r.y),
        parts-AllSmall w h im rs a b c parts.1,
      )

  body_front :
      (bg : ℕ) (rs : List Subrect) (rest : List ℕ)
      → put_body put pixel bg rs ++ rest
        ≡ put_32 (length rs) ++ (put_le pixel bg ++ (put_subrects put pixel rs ++ rest))
  unfolding put_body
  body_front bg rs rest = simp append_assoc

  background_read :
      (rx ry w h bg n : ℕ) (v : Viewer) (rest : List ℕ)
      → bg < limit pixel
      → n < 2 ^ 32
      → get_background pixel rx ry w h v (put_32 n ++ (put_le pixel bg ++ rest))
        ≡ some (n, fill_rectangle v (record { colour = bg; x = rx; y = ry; w = w; h = h }), rest)
  unfolding get_background
  background_read rx ry w h bg n v rest c k =
      rw (get_32-put_32 n (put_le pixel bg ++ rest) k, get_le-put_le pixel bg rest c)

  -- What the client makes of the head of the message.
  pub body_read :
      (rx ry w h bg : ℕ) (v : Viewer) (rs : List Subrect) (rest : List ℕ)
      → bg < limit pixel
      → length rs < 2 ^ 32
      → get_background pixel rx ry w h v (put_body put pixel bg rs ++ rest)
        ≡ some (
          length rs,
          fill_rectangle v (record { colour = bg; x = rx; y = ry; w = w; h = h }),
          put_subrects put pixel rs ++ rest,
        )
  body_read rx ry w h bg v rs rest c n =
      rw (body_front bg rs rest)
        (background_read rx ry w h bg (length rs) v (put_subrects put pixel rs ++ rest) c n)
