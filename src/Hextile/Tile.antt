-- ===== src/Hextile/Tile.antt =====
-- A tile of the hextile encoding: `sendHextiles` and `subrectEncode` of libvncserver/hextile.c, and the
-- reader of libvncclient/hextile.c.
use libvncserver.Base.{
  ℕ, zero, suc, ◌+◌, ◌-◌, ◌*◌, ◌/◌, ◌%◌, Bool, true, not, ◌&&◌, ◌==◌, if◌then◌else◌, List, [], ◌∷◌,
  ◌++◌, Option, none, some, length,
}
use libvncserver.Base.Bytes.{Read, ◌>>=◌, put_le, get_le, get_byte}
use libvncserver.Subrects.Image.{Image, Subrect, in_rect}
use libvncserver.Subrects.Encode.{Costs, encode_rows, pixels}
use libvncserver.Subrects.Wire.{Viewer, check_rect, fill_rectangle, shift}
use libvncserver.Hextile.Colours.{Colours, test_colours}

-- `bg` and `fg` of the server; none where `validBg` or `validFg` is not set.
pub record Known : Type 0 where
  pub bg : Option ℕ
  pub fg : Option ℕ

-- `!validBg || (newBg != bg)`
unfoldable pub is_new : Option ℕ → ℕ → Bool
is_new none c = true
is_new (some d) c = not (d == c)

-- A colour, where it is put into the buffer.
abbrev pub put_if : Bool → ℕ → ℕ → List ℕ
put_if b pixel c = if b then put_le pixel c else []

-- `rfbHextilePackXY` and `rfbHextilePackWH`: the fields are below 16, such that their bits do not meet.
unfoldable pub put_place : Subrect → List ℕ
put_place r = (r.x * 16 + r.y) % 256 ∷ ((r.w - 1) * 16 + (r.h - 1)) % 256 ∷ []

unfoldable pub put_places : Bool → ℕ → List Subrect → List ℕ
unfolding put_place
put_places coloured pixel [] = []
put_places coloured pixel (r ∷ rs) =
    put_if coloured pixel r.colour ++ (put_place r ++ put_places coloured pixel rs)

-- `newLen` against the raw pixels: the number of rectangles is a byte in front. There is no test of the buffer, which
-- has room for a tile.
abbrev pub tile_costs : ℕ → Bool → ℕ → ℕ → Costs
tile_costs pixel coloured w h = record {
  front = 1;
  each = if coloured then pixel + 2 else 2;
  raw = w * h * pixel;
  room = w * h * pixel;
}

-- `subrectEncode`: the loops of libvncserver/rre.c on a tile. none is the return of FALSE.
unfoldable pub tile_subrects : ℕ → Bool → Image → ℕ → ℕ → ℕ → Option (List Subrect)
unfolding encode_rows
tile_subrects pixel coloured im w h bg =
    elim (encode_rows (tile_costs pixel coloured w h) w h bg h 0
      (record { im = im; len = 1; subs = [] })) [ none ↦ none | some e ↦ some e.subs ]

unfoldable pub put_pixels : ℕ → List ℕ → List ℕ
put_pixels pixel [] = []
put_pixels pixel (p ∷ ps) = put_le pixel p ++ put_pixels pixel ps

-- The flags: raw is 1, a background 2, a foreground 4, subrectangles 8, and their colours 16.
abbrev pub flag : Bool → ℕ → ℕ
flag b n = if b then n else 0

-- A tile that is not solid, with its colours.
unfoldable pub put_tile :
    ℕ → Image → ℕ → ℕ → Known → Colours → Option (List Subrect) → List ℕ × Known
unfolding put_pixels put_places is_new
put_tile pixel im w h k c none =
    (1 ∷ put_pixels pixel (pixels im w h 0), record { bg = none; fg = none })
put_tile pixel im w h k c (some rs) =
    let new_bg = is_new k.bg c.bg in
    let new_fg = c.mono && is_new k.fg c.fg in
    (
      (flag new_bg 2 + flag new_fg 4 + 8 + flag (not c.mono) 16)
          ∷ (put_if new_bg pixel c.bg
              ++ (put_if new_fg pixel c.fg
                  ++ (length rs % 256 ∷ put_places (not c.mono) pixel rs))),
      record { bg = some c.bg; fg = if c.mono then some c.fg else none },
    )

unfoldable pub encode_tile : ℕ → Image → ℕ → ℕ → Known → List ℕ × Known
unfolding test_colours pixels tile_subrects put_tile is_new
encode_tile pixel im w h k =
    let c = test_colours (pixels im w h 0) in
    let new_bg = is_new k.bg c.bg in
    if c.solid
    then (flag new_bg 2 ∷ put_if new_bg pixel c.bg, record { bg = some c.bg; fg = k.fg })
    else put_tile pixel im w h k c (tile_subrects pixel (not c.mono) im w h c.bg)

-- `bg` and `fg` of the client.
pub record Pens : Type 0 where
  pub bg : ℕ
  pub fg : ℕ

-- `subencoding & n`, for a power of 2
unfoldable pub has_flag : ℕ → ℕ → Bool
has_flag n flags = flags / n % 2 == 1

unfoldable pub get_if : Bool → ℕ → ℕ → List ℕ → Read ℕ
unfolding get_le
get_if b pixel c bytes = if b then get_le pixel bytes else some (c, bytes)

-- `rfbHextileExtractX`, `Y`, `W` and `H`
unfoldable pub get_place : ℕ → List ℕ → Read Subrect
unfolding get_byte
get_place colour bytes = get_byte bytes >>= λ (p : ℕ × List ℕ). get_byte p.1 >>= λ (q : ℕ × List ℕ).
    some (
      record { colour = colour; x = p.0 / 16; y = p.0 % 16; w = q.0 / 16 + 1; h = q.0 % 16 + 1 },
      q.1,
    )

-- `for (i = 0; i < nSubrects; i++)`, with colours or without. The code reads the bytes at once; here
-- too there is no result where they are not all there.
unfoldable pub get_places :
    Bool → ℕ → ℕ → ℕ → ℕ → Viewer → ℕ → List ℕ → Option (Viewer × ℕ × List ℕ)
unfolding get_if get_place fill_rectangle
get_places coloured pixel x y zero v fg bytes = some (v, fg, bytes)
get_places coloured pixel x y (suc n) v fg bytes =
    get_if coloured pixel fg bytes >>= λ (c : ℕ × List ℕ).
    get_place c.0 c.1 >>= λ (r : Subrect × List ℕ).
    get_places coloured pixel x y n (fill_rectangle v (shift x y r.0)) c.0 r.1

unfoldable pub get_pixels : ℕ → ℕ → List ℕ → Read (List ℕ)
unfolding get_le
get_pixels pixel zero bytes = some ([], bytes)
get_pixels pixel (suc n) bytes = get_le pixel bytes >>= λ (p : ℕ × List ℕ).
    get_pixels pixel n p.1 >>= λ (ps : List ℕ × List ℕ). some (p.0 ∷ ps.0, ps.1)

unfoldable pub pixel_at : List ℕ → ℕ → ℕ
pixel_at [] n = 0
pixel_at (p ∷ ps) zero = p
pixel_at (p ∷ ps) (suc n) = pixel_at ps n

-- `CopyRectangle`, on pixels that are all there: the rows of the rectangle.
unfoldable pub copy_bitmap : Viewer → List ℕ → ℕ → ℕ → ℕ → ℕ → Viewer
unfolding check_rect pixel_at
copy_bitmap v ps x y w h =
    let r : Subrect = record { colour = 0; x = x; y = y; w = w; h = h } in
    elim v.frame [
      | none ↦ v
      | some im ↦
          if check_rect v r
          then record v {
            frame =
                some (λ a b. if in_rect r a b then pixel_at ps ((b - y) * w + (a - x)) else im a b);
          }
          else v
    ]

module _ (pixel x y w h : ℕ) where
  -- A tile that is not raw, by its flags.
  unfoldable pub get_colours : ℕ → Viewer → Pens → List ℕ → Option (Viewer × Pens × List ℕ)
  unfolding get_if get_byte get_places fill_rectangle has_flag
  get_colours flags v k bytes = get_if (has_flag 2 flags) pixel k.bg bytes >>= λ (bg : ℕ × List ℕ).
      let v' = fill_rectangle v (record { colour = bg.0; x = x; y = y; w = w; h = h }) in
      get_if (has_flag 4 flags) pixel k.fg bg.1 >>= λ (fg : ℕ × List ℕ).
      if has_flag 8 flags
      then (get_byte fg.1 >>= λ (n : ℕ × List ℕ).
          get_places (has_flag 16 flags) pixel x y n.0 v' fg.0 n.1 >>= λ (r : Viewer × ℕ × List ℕ).
          some (r.0, record { bg = bg.0; fg = r.1 }, r.2))
      else some (v', record { bg = bg.0; fg = fg.0 }, fg.1)

  -- The body of the loop over tiles.
  unfoldable pub decode_tile : Viewer → Pens → List ℕ → Option (Viewer × Pens × List ℕ)
  unfolding get_byte get_pixels copy_bitmap get_colours has_flag
  decode_tile v k bytes = get_byte bytes >>= λ (f : ℕ × List ℕ).
      if has_flag 1 f.0
      then (get_pixels pixel (w * h) f.1 >>= λ (ps : List ℕ × List ℕ).
          some (copy_bitmap v ps.0 x y w h, k, ps.1))
      else get_colours f.0 v k f.1
