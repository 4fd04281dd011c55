-- ===== src/Hextile/Read.antt =====
-- The client of libvncclient/hextile.c reads what libvncserver/hextile.c puts for a tile.
use libvncserver.Base.{
  ℕ, ◌+◌, ◌*◌, ◌%◌, ◌<◌, Bool, true, false, ◌≡◌, refl, arith, ◌∙◌, sym, List, ◌∷◌, ◌++◌, Option,
  none, some, length, All,
}
use mathlib.Core.List.{append_assoc}
use libvncserver.Base.Bytes.{limit, get_byte, get_le-put_le}
use libvncserver.Subrects.Image.{Subrect}
use libvncserver.Subrects.Wire.{Viewer, fill_rectangle}
use libvncserver.Subrects.Canvas.{view_all}
use libvncserver.Hextile.Tile.{
  Pens, is_new, flag, has_flag, put_if, get_if, put_places, put_pixels, get_colours, decode_tile,
  copy_bitmap,
}
use libvncserver.Hextile.Places.{
  IsTiny, get_if-put_if, get_places-put_places, get_pixels-put_pixels,
}

-- The flags of a tile with subrectangles.
abbrev pub flags_of : Bool → Bool → Bool → ℕ
flags_of b1 b2 coloured = flag b1 2 + flag b2 4 + 8 + flag coloured 16

record Flags (b1 b2 coloured : Bool) (f : ℕ) : Type 0 where
  raw : has_flag 1 f ≡ false
  background : has_flag 2 f ≡ b1
  foreground : has_flag 4 f ≡ b2
  subrects : has_flag 8 f ≡ true
  colours : has_flag 16 f ≡ coloured

read-Flags : (b1 b2 coloured : Bool) → Flags b1 b2 coloured (flags_of b1 b2 coloured)
unfolding has_flag
read-Flags true true true = record {
  raw = refl;
  background = refl;
  foreground = refl;
  subrects = refl;
  colours = refl;
}
read-Flags true true false = record {
  raw = refl;
  background = refl;
  foreground = refl;
  subrects = refl;
  colours = refl;
}
read-Flags true false true = record {
  raw = refl;
  background = refl;
  foreground = refl;
  subrects = refl;
  colours = refl;
}
read-Flags true false false = record {
  raw = refl;
  background = refl;
  foreground = refl;
  subrects = refl;
  colours = refl;
}
read-Flags false true true = record {
  raw = refl;
  background = refl;
  foreground = refl;
  subrects = refl;
  colours = refl;
}
read-Flags false true false = record {
  raw = refl;
  background = refl;
  foreground = refl;
  subrects = refl;
  colours = refl;
}
read-Flags false false true = record {
  raw = refl;
  background = refl;
  foreground = refl;
  subrects = refl;
  colours = refl;
}
read-Flags false false false = record {
  raw = refl;
  background = refl;
  foreground = refl;
  subrects = refl;
  colours = refl;
}

-- A colour that is not sent is the one that the client has.
pub old_colour :
    (o : Option ℕ) (c q : ℕ) → ((d : ℕ) → o ≡ some d → q ≡ d) → is_new o c ≡ false → q ≡ c
unfolding is_new
old_colour none c q f e = cc
old_colour (some d) c q f e = f d refl ∙ ground (arith, e)

module _ (pixel x y w h : ℕ) (v : Viewer) (k : Pens) where
  abbrev pub filled : ℕ → Viewer
  filled bg = fill_rectangle v (record { colour = bg; x = x; y = y; w = w; h = h })

  -- A tile of one colour.
  pub solid_read :
      (b : Bool) (c : ℕ) (rest : List ℕ)
      → c < limit pixel
      → (b ≡ false → k.bg ≡ c)
      → decode_tile pixel x y w h v k (flag b 2 ∷ (put_if b pixel c ++ rest))
        ≡ some (filled c, record { bg = c; fg = k.fg }, rest)
  unfolding decode_tile get_colours has_flag get_if get_byte
  solid_read true c rest l e = rw (get_le-put_le pixel c rest l) refl
  solid_read false c rest l e = rw (e refl) refl

  -- A raw tile.
  pub raw_read :
      (ps : List ℕ) (rest : List ℕ)
      → length ps ≡ w * h
      → All (λ p. p < limit pixel) ps
      → decode_tile pixel x y w h v k (1 ∷ (put_pixels pixel ps ++ rest))
        ≡ some (copy_bitmap v ps x y w h, k, rest)
  unfolding decode_tile has_flag get_byte
  raw_read ps rest n s = rw (sym n, get_pixels-put_pixels pixel ps rest s) refl

  -- A tile with subrectangles, by what is read as the foreground.
  pub subrects_read :
      (b1 b2 coloured : Bool) (bg fg new_fg : ℕ) (rs : List Subrect) (rest : List ℕ)
      → bg < limit pixel
      → (b1 ≡ false → k.bg ≡ bg)
      → ((rest : List ℕ) → get_if b2 pixel k.fg (put_if b2 pixel new_fg ++ rest) ≡ some (fg, rest))
      → length rs < 256
      → All (λ r. IsTiny r × (r.colour < limit pixel)) rs
      → (coloured ≡ false → All (λ r. r.colour ≡ fg) rs)
      → (last : ℕ) × (decode_tile pixel x y w h v k (
            flags_of b1 b2 coloured
            ∷ ((put_if b1 pixel bg
                  ++ (put_if b2 pixel new_fg ++ (length rs % 256 ∷ put_places coloured pixel rs)))
                ++ rest))
          ≡ some (view_all x y (filled bg) rs, record { bg = bg; fg = last }, rest))
        × (coloured ≡ false → last ≡ fg)
  unfolding decode_tile get_byte get_colours
  subrects_read b1 b2 coloured bg fg new_fg rs rest l e read n tiny same =
      let places = put_places coloured pixel rs in
      let behind = length rs % 256 ∷ (places ++ rest) in
      let front : (put_if b1 pixel bg ++ (put_if b2 pixel new_fg ++ (length rs % 256 ∷ places)))
            ++ rest
          ≡ put_if b1 pixel bg ++ (put_if b2 pixel new_fg ++ behind) =
        simp append_assoc in
      let f = read-Flags b1 b2 coloured in
      let one = get_if-put_if b1 pixel bg k.bg (put_if b2 pixel new_fg ++ behind) l e in
      let number : length rs % 256 ≡ length rs = omega (arith, n) in
      let q = get_places-put_places coloured pixel x y (filled bg) fg rs rest tiny same in
      (
        q.0,
        rw
            (
              front,
              f.raw,
              f.background,
              one,
              f.foreground,
              read behind,
              f.subrects,
              f.colours,
              number,
              q.1,
            )
            refl,
        q.2,
      )
