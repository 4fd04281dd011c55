-- ===== src/Hextile/Drawn.antt =====
-- What the subrectangles of a tile draw, and what they take, in libvncserver/hextile.c.
use libvncserver.Base.{
  ℕ, ◌+◌, ◌*◌, ◌≤◌, ◌<◌, Bool, true, false, ◌≡◌, ◌⊎◌, inl, inr, refl, arith, sym, subst, List, [],
  ◌∷◌, Option, none, some, length, All,
}
use libvncserver.Subrects.Image.{Image, Subrect, fill_all}
use libvncserver.Subrects.Encode.{Costs, Encoder, encode_rows, pixels}
use libvncserver.Subrects.Loop.{blank, AllParts, IsEncoder, Reaches}
use libvncserver.Subrects.Draws.{IsDone, encode_rows-Reaches}
use libvncserver.Subrects.Shown.{IsDepth}
use libvncserver.Hextile.Colours.{others}
use libvncserver.Hextile.Tile.{tile_costs, tile_subrects}
use libvncserver.Hextile.Number.{Foreign, Adds, encode_rows-Adds}
use libvncserver.Hextile.Places.{IsTiny}

-- The rectangles draw the tile over the background; they are parts of it, none of the background, and not
-- more than there are pixels of other colours, nor than the raw pixels have room for.
pub record IsTile (k : Costs) (im : Image) (w h bg : ℕ) (rs : List Subrect) : Type 0 where
  pub drawn : (i j : ℕ) → i < w → j < h → fill_all rs (blank bg) i j ≡ im i j
  pub parts : AllParts w h im rs
  pub foreign : Foreign bg rs
  pub number : length rs ≤ others bg (pixels im w h 0)
  pub bytes : (rs ≡ []) ⊎ (k.front + length rs * k.each ≤ k.raw)

module _ (k : Costs) (im : Image) (w h bg : ℕ) where
  abbrev start : Encoder
  start = record { im = im; len = k.front; subs = [] }

  start-IsEncoder : IsEncoder k w h bg im start
  unfolding fill_all
  start-IsEncoder = record {
    drawn = λ i j t. sym t;
    left_im = λ i j t. refl;
    left_bg = λ i j t. refl;
    parts = tt;
    size = omega arith;
    fits = inl refl;
  }

  abbrev reported : Option Encoder → Option (List Subrect)
  reported none = none
  reported (some e) = some e.subs

  end-IsTile :
      (e : Encoder)
      → IsEncoder k w h bg im e
      → IsDone k w h bg im 0 h e
      → Adds bg start (some e) (others bg (pixels im w h 0))
      → IsTile k im w h bg e.subs
  end-IsTile e g done a =
      let size = g.size in
      record {
        drawn = λ i j a b. g.drawn i j (done i j a (omega arith) (omega arith));
        parts = g.parts;
        foreign = a.1 tt;
        number = omega (arith, a.0);
        bytes = elim g.fits [ inl q ↦ inl q | inr (q, r) ↦ inr (omega arith) ];
      }

  result-IsTile :
      (o : Option Encoder) (rs : List Subrect)
      → Reaches k w h bg im start o (IsDone k w h bg im 0 h)
      → Adds bg start o (others bg (pixels im w h 0))
      → reported o ≡ some rs
      → IsTile k im w h bg rs
  result-IsTile none rs r a e = cc
  result-IsTile (some e') rs r a e =
      let q : e'.subs ≡ rs = cc in subst (IsTile k im w h bg) q (end-IsTile e' r.0.encoder r.1 a)

  encode_rows-IsTile :
      (rs : List Subrect)
      → reported (encode_rows k w h bg h 0 start) ≡ some rs
      → IsTile k im w h bg rs
  encode_rows-IsTile rs e =
      result-IsTile (encode_rows k w h bg h 0 start) rs
        (encode_rows-Reaches k w h bg im h 0 start start-IsEncoder (omega arith))
        (encode_rows-Adds k w h bg im h 0 start start-IsEncoder (omega arith)) e

pub tile_subrects-IsTile :
    (pixel : ℕ) (coloured : Bool) (im : Image) (w h bg : ℕ) (rs : List Subrect)
    → tile_subrects pixel coloured im w h bg ≡ some rs
    → IsTile (tile_costs pixel coloured w h) im w h bg rs
unfolding tile_subrects
tile_subrects-IsTile pixel coloured im w h bg rs e =
    encode_rows-IsTile (tile_costs pixel coloured w h) im w h bg rs e

-- The number of rectangles fits its byte: with colours by their bytes, without by the pixels that are not of the
-- background, at most half of the tile.
area-le : (w h : ℕ) → w ≤ 16 → h ≤ 16 → w * h ≤ 256
area-le w h a b = grind arith

bytes_number :
    (n pixel area : ℕ) → IsDepth pixel → 1 + n * (pixel + 2) ≤ area * pixel → area ≤ 256 → n < 256
bytes_number n p m (inl e) h a = let k = rw e at h in omega (arith, k, a)
bytes_number n p m (inr (inl e)) h a = let k = rw e at h in omega (arith, k, a)
bytes_number n p m (inr (inr e)) h a = let k = rw e at h in omega (arith, k, a)

pub tile_number :
    (pixel : ℕ) (coloured : Bool) (im : Image) (w h bg : ℕ) (rs : List Subrect)
    → IsTile (tile_costs pixel coloured w h) im w h bg rs
    → IsDepth pixel
    → w ≤ 16
    → h ≤ 16
    → (coloured ≡ false → others bg (pixels im w h 0) * 2 ≤ w * h)
    → length rs < 256
tile_number pixel false im w h bg rs t d a b half =
    omega (arith, t.number, half refl, area-le w h a b)
tile_number pixel true im w h bg rs t d a b half = elim t.bytes [
  | inl e ↦ rw e (omega arith)
  | inr e ↦ bytes_number (length rs) pixel (w * h) d e (area-le w h a b)
]

-- The rectangles can be sent.
pub parts-IsTiny :
    (w h n : ℕ) (im : Image) (rs : List Subrect)
    → w ≤ 16
    → h ≤ 16
    → ((i j : ℕ) → im i j < n)
    → AllParts w h im rs
    → All (λ r. IsTiny r × (r.colour < n)) rs
parts-IsTiny w h n im [] a b c parts = tt
parts-IsTiny w h n im (r ∷ rs) a b c parts =
    let p = parts.0 in
    let column = p.column in
    let row = p.row in
    let width = p.width in
    let height = p.height in
    (
      (
        record {
          x = omega arith;
          y = omega arith;
          w_least = width;
          h_least = height;
          w = omega arith;
          h = omega arith;
        },
        rw p.colour (c r.x r.y),
      ),
      parts-IsTiny w h n im rs a b c parts.1,
    )
