-- ===== src/Hextile/Places.antt =====
-- The client of libvncclient/hextile.c reads the subrectangles and the pixels that
-- libvncserver/hextile.c puts into a tile.
use libvncserver.Base.{
  ℕ, ◌≤◌, ◌<◌, Bool, true, false, ◌≡◌, refl, arith, ◌∙◌, sym, List, [], ◌∷◌, ◌++◌, some, Option, ap,
  length, All, All-map,
}
use mathlib.Core.List.{append_assoc}
use libvncserver.Base.Bytes.{◌>>=◌, limit, put_le, get_le-put_le}
use libvncserver.Subrects.Image.{Subrect}
use libvncserver.Subrects.Wire.{Viewer, fill_rectangle, shift}
use libvncserver.Subrects.Canvas.{view_all}
use libvncserver.Hextile.Tile.{
  put_if, get_if, put_place, get_place, put_places, get_places, put_pixels, get_pixels,
}

pub get_if-put_if :
    (b : Bool) (pixel c k : ℕ) (rest : List ℕ)
    → c < limit pixel
    → (b ≡ false → k ≡ c)
    → get_if b pixel k (put_if b pixel c ++ rest) ≡ some (c, rest)
unfolding get_if
get_if-put_if true pixel c k rest h e = get_le-put_le pixel c rest h
get_if-put_if false pixel c k rest h e = rw (e refl) refl

-- A rectangle within a tile.
pub record IsTiny (r : Subrect) : Type 0 where
  pub x : r.x < 16
  pub y : r.y < 16
  pub w_least : 0 < r.w
  pub h_least : 0 < r.h
  pub w : r.w ≤ 16
  pub h : r.h ≤ 16

get_place-put_place :
    (r : Subrect) (rest : List ℕ)
    → IsTiny r
    → get_place r.colour (put_place r ++ rest) ≡ some (r, rest)
unfolding get_place put_place
get_place-put_place r rest s =
    let x = s.x in
    let y = s.y in
    let w = s.w in let h = s.h in let w_least = s.w_least in let h_least = s.h_least in ground arith

pub get_places-put_places :
    (coloured : Bool) (pixel x y : ℕ) (v : Viewer) (fg : ℕ) (rs : List Subrect) (rest : List ℕ)
    → All (λ r. IsTiny r × (r.colour < limit pixel)) rs
    → (coloured ≡ false → All (λ r. r.colour ≡ fg) rs)
    → (fg' : ℕ) × (get_places coloured pixel x y
          (length rs)
          v
          fg
          (put_places coloured pixel rs ++ rest)
        ≡ some (view_all x y v rs, fg', rest))
      × (coloured ≡ false → fg' ≡ fg)
unfolding get_places put_places
get_places-put_places coloured pixel x y v fg [] rest s e = (fg, refl, λ h. refl)
get_places-put_places coloured pixel x y v fg (r ∷ rs) rest s e =
    let front : put_places coloured pixel (r ∷ rs) ++ rest
        ≡ put_if coloured pixel r.colour
          ++ (put_place r ++ (put_places coloured pixel rs ++ rest)) =
      simp append_assoc in
    let a =
      get_if-put_if coloured pixel r.colour fg
        (put_place r ++ (put_places coloured pixel rs ++ rest)) s.0.1 (λ h. sym ((e h).0)) in
    let b = get_place-put_place r (put_places coloured pixel rs ++ rest) s.0.0 in
    let q =
      get_places-put_places coloured pixel x y (fill_rectangle v (shift x y r)) r.colour rs rest s.1
        (λ h.
          All-map (λ (s : Subrect). s.colour ≡ fg) (λ s. s.colour ≡ r.colour) rs
            (λ s c. c ∙ sym ((e h).0)) (e h).1) in
    let go : Option (Subrect × List ℕ) → Option (Viewer × ℕ × List ℕ) = λ o.
      o >>= λ (t : Subrect × List ℕ).
      get_places coloured pixel x y (length rs) (fill_rectangle v (shift x y t.0)) r.colour t.1 in
    (q.0, rw (front, get_places, a) (ap go b ∙ q.1), λ h. q.2 h ∙ (e h).0)

pub get_pixels-put_pixels :
    (pixel : ℕ) (ps : List ℕ) (rest : List ℕ)
    → All (λ p. p < limit pixel) ps
    → get_pixels pixel (length ps) (put_pixels pixel ps ++ rest) ≡ some (ps, rest)
unfolding get_pixels put_pixels
get_pixels-put_pixels pixel [] rest s = refl
get_pixels-put_pixels pixel (p ∷ ps) rest s =
    let front : put_pixels pixel (p ∷ ps) ++ rest
        ≡ put_le pixel p ++ (put_pixels pixel ps ++ rest) =
      simp append_assoc in
    rw
      (
        front,
        get_pixels,
        get_le-put_le pixel p (put_pixels pixel ps ++ rest) s.0,
        get_pixels-put_pixels pixel ps rest s.1,
      )
      refl
