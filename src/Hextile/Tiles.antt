-- ===== src/Hextile/Tiles.antt =====
-- The loops over the tiles of a rectangle: `sendHextiles` of libvncserver/hextile.c and
-- `HandleHextileBPP` of libvncclient/hextile.c. The flushes of the server's buffer are left out: the bytes are
-- those of the stream.
use libvncserver.Base.{
  ℕ, zero, suc, ◌+◌, ◌-◌, ◌/◌, true, false, ltb, if◌then◌else◌, List, [], ◌++◌, Option, none, some,
}
use libvncserver.Base.Bytes.{◌>>=◌}
use libvncserver.Subrects.Image.{Image}
use libvncserver.Subrects.Wire.{Viewer}
use libvncserver.Hextile.Tile.{Known, Pens, encode_tile, decode_tile}

-- "w = h = 16; if (rx+rw - x < 16) w = rx+rw - x;", from the start of the rectangle on.
unfoldable pub side : ℕ → ℕ → ℕ
side all at = if ltb (all - at) 16 then all - at else 16

-- Fuel for a loop by 16: the tiles, and a round to see the end.
abbrev pub fuel_for : ℕ → ℕ
fuel_for n = suc ((n + 15) / 16)

module _ (pixel : ℕ) (im : Image) (rw rh : ℕ) where
  -- `for (x = rx; x < rx+rw; x += 16)`; none is a loop of the model without fuel.
  unfoldable pub send_row : ℕ → ℕ → ℕ → Known → Option (List ℕ × Known)
  unfolding encode_tile side
  send_row zero x y k = none
  send_row (suc fuel) x y k = elim (ltb x rw) [
    | false ↦ some ([], k)
    | true ↦
        let s = encode_tile pixel (λ i j. im (x + i) (y + j)) (side rw x) (side rh y) k in
        elim (send_row fuel (x + 16) y s.1) [ none ↦ none | some r ↦ some (s.0 ++ r.0, r.1) ]
  ]

  -- `for (y = ry; y < ry+rh; y += 16)`
  unfoldable pub send_rows : ℕ → ℕ → Known → Option (List ℕ × Known)
  unfolding send_row
  send_rows zero y k = none
  send_rows (suc fuel) y k = elim (ltb y rh) [
    | false ↦ some ([], k)
    | true ↦ elim (send_row (fuel_for rw) 0 y k) [
      | none ↦ none
      | some s ↦ elim (send_rows fuel (y + 16) s.1) [
        | none ↦ none
        | some r ↦ some (s.0 ++ r.0, r.1)
      ]
    ]
  ]

  -- `sendHextiles`: the bytes.
  unfoldable pub send_hextiles : Option (List ℕ)
  unfolding send_rows
  send_hextiles = elim (send_rows (fuel_for rh) 0 (record { bg = none; fg = none })) [
    | none ↦ none
    | some r ↦ some r.0
  ]

-- The same loops of the client; none is also a read that fails.
module _ (pixel rx ry rw rh : ℕ) where
  unfoldable pub read_row : ℕ → ℕ → ℕ → Viewer → Pens → List ℕ → Option (Viewer × Pens × List ℕ)
  unfolding decode_tile side
  read_row zero x y v p bytes = none
  read_row (suc fuel) x y v p bytes = elim (ltb x rw) [
    | false ↦ some (v, p, bytes)
    | true ↦
        decode_tile pixel (rx + x) (ry + y) (side rw x) (side rh y) v p bytes
        >>= λ (t : Viewer × Pens × List ℕ). read_row fuel (x + 16) y t.0 t.1 t.2
  ]

  unfoldable pub read_rows : ℕ → ℕ → Viewer → Pens → List ℕ → Option (Viewer × Pens × List ℕ)
  unfolding read_row
  read_rows zero y v p bytes = none
  read_rows (suc fuel) y v p bytes = elim (ltb y rh) [
    | false ↦ some (v, p, bytes)
    | true ↦ read_row (fuel_for rw) 0 y v p bytes >>= λ (t : Viewer × Pens × List ℕ).
        read_rows fuel (y + 16) t.0 t.1 t.2
  ]

  -- `HandleHextileBPP`; `fg` is not initialised.
  unfoldable pub handle_hextile : ℕ → Viewer → List ℕ → Option (Viewer × Pens × List ℕ)
  unfolding read_rows
  handle_hextile fg v bytes = read_rows (fuel_for rh) 0 v (record { bg = 0; fg = fg }) bytes
