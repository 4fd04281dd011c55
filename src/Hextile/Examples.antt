-- ===== src/Hextile/Examples.antt =====
-- Tiles of libvncserver/hextile.c and libvncclient/hextile.c.
use libvncserver.Base.{
  ℕ, ◌*◌, ◌≤◌, ◌<◌, true, ◌==◌, if◌then◌else◌, ◌≡◌, ◌⊎◌, inl, refl, arith, [], List, ◌∷◌, ◌++◌,
  none, some, length, All,
}
use libvncserver.Base.Bytes.{limit, put_le}
use libvncserver.Subrects.Image.{Image, fill}
use libvncserver.Subrects.Encode.{
  encode_rows, encode_row, encode_pixel, find_subrect, scan_rows, scan_row, run_end, choose, pixels,
}
use libvncserver.Subrects.Wire.{Viewer}
use libvncserver.Hextile.Colours.{test_colours, tally, others, test_colours_lem}
use libvncserver.Hextile.Tile.{
  Known, Pens, encode_tile, put_tile, put_places, put_place, put_pixels, tile_subrects, is_new,
}
use libvncserver.Subrects.Canvas.{Shows}
use libvncserver.Hextile.Tiles.{send_hextiles, handle_hextile}
use libvncserver.Hextile.Rectangle.{handle_hextile_lem}
use libvncserver.Hextile.Shown.{Agrees, Shown, encode_tile_lem}

-- A row of four pixels, one of them of another colour, or two.
abbrev dotted : Image
dotted i j = if i == 2 then 7 else 5

abbrev mixed : Image
mixed i j = if i == 2 then 7 else (if i == 3 then 9 else 5)

abbrev unknown : Known
unknown = record { bg = none; fg = none }

dotted_bytes :
    encode_tile 1 dotted 4 1 unknown
    ≡ (14 ∷ 5 ∷ 7 ∷ 1 ∷ 32 ∷ 0 ∷ [], record { bg = some 5; fg = some 7 })
unfolding encode_tile test_colours tally pixels tile_subrects encode_rows encode_row encode_pixel
    find_subrect scan_rows scan_row run_end choose fill put_tile put_places put_place is_new put_le
dotted_bytes = refl

-- With colours the rectangles would take more bytes than the pixels.
mixed_bytes : encode_tile 1 mixed 4 1 unknown ≡ (1 ∷ 5 ∷ 5 ∷ 7 ∷ 9 ∷ [], unknown)
unfolding encode_tile test_colours tally pixels tile_subrects encode_rows encode_row encode_pixel
    find_subrect scan_rows scan_row run_end choose fill put_tile put_pixels put_le
mixed_bytes = refl

abbrev screen : Viewer
screen = record { width = 8; height = 8; frame = some (λ a b. 0) }

abbrev pens : Pens
pens = record { bg = 0; fg = 0 }

dotted-lt : (i j : ℕ) → dotted i j < limit 1
dotted-lt i j = ground arith

unknown-Agrees : Agrees unknown pens
unknown-Agrees = record { bg = λ c e. cc; fg = λ c e. cc }

encode_tile_lem_example :
    Shown 1 4 1 2 3 dotted
      (λ a b. 0)
      screen
      pens
      unknown
      []
      (inl refl)
      (omega arith)
      (omega arith)
      dotted-lt
      refl
      (omega arith)
      (omega arith)
      unknown-Agrees
      (encode_tile 1 dotted 4 1 unknown)
encode_tile_lem_example =
    encode_tile_lem 1 4 1 2 3 dotted (λ a b. 0) screen pens unknown [] (inl refl) (omega arith)
      (omega arith) dotted-lt refl (omega arith) (omega arith) unknown-Agrees

test_colours_lem_example :
    ((test_colours (5 ∷ 5 ∷ 7 ∷ [])).solid ≡ true
      → ((test_colours (5 ∷ 5 ∷ 7 ∷ [])).mono ≡ true)
        × All (λ p. p ≡ (test_colours (5 ∷ 5 ∷ 7 ∷ [])).bg) (5 ∷ 5 ∷ 7 ∷ []))
    × ((test_colours (5 ∷ 5 ∷ 7 ∷ [])).mono ≡ true
        → All
            (λ p.
              (p ≡ (test_colours (5 ∷ 5 ∷ 7 ∷ [])).bg) ⊎ (p ≡ (test_colours (5 ∷ 5 ∷ 7 ∷ [])).fg))
            (5 ∷ 5 ∷ 7 ∷ [])
          × (others (test_colours (5 ∷ 5 ∷ 7 ∷ [])).bg (5 ∷ 5 ∷ 7 ∷ []) * 2
              ≤ length {A = ℕ} (5 ∷ 5 ∷ 7 ∷ [])))
test_colours_lem_example = test_colours_lem (5 ∷ 5 ∷ 7 ∷ [])

-- A rectangle of two tiles.
abbrev wide_screen : Viewer
wide_screen = record { width = 32; height = 8; frame = some (λ a b. 0) }

handle_hextile_lem_example :
    (bytes : List ℕ) × (v' : Viewer) × (p' : Pens) × (g : Image) × (send_hextiles 1 dotted 20 1
      ≡ some bytes)
    × (handle_hextile 1 2 3 20 1 6 wide_screen (bytes ++ []) ≡ some (v', p', []))
    × (v'.frame ≡ some g)
    × Shows 2 3 20 1 dotted (λ a b. 0) g
handle_hextile_lem_example =
    handle_hextile_lem 1 2 3 20 1 dotted (λ a b. 0) 32 8 (inl refl) dotted-lt (omega arith)
      (omega arith) wide_screen 6 [] refl refl refl
