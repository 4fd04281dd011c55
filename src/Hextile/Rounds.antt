-- ===== src/Hextile/Rounds.antt =====
-- The loops over the tiles of a rectangle in libvncserver/hextile.c and libvncclient/hextile.c, by the number
-- of tiles.
use libvncserver.Base.{
  ℕ, zero, suc, ◌+◌, ◌*◌, ◌/◌, ◌≤◌, ◌<◌, true, false, ltb, ◌≡◌, refl, arith, inl, inr, List, [],
  ◌++◌, Option, some, Option-cases,
}
use libvncserver.Base.Bytes.{◌>>=◌}
use libvncserver.Subrects.Image.{Image}
use libvncserver.Subrects.Wire.{Viewer}
use libvncserver.Hextile.Tile.{Known, Pens, encode_tile, decode_tile}
use libvncserver.Hextile.Tiles.{side, send_row, send_rows, read_row, read_rows}

-- The tiles of a side.
abbrev pub rounds : ℕ → ℕ
rounds n = (n + 15) / 16

-- The loops with the number of tiles to go, in place of their tests.
module _ (pixel : ℕ) (im : Image) (wd ht : ℕ) where
  unfoldable pub row_sent : ℕ → ℕ → ℕ → Known → List ℕ × Known
  unfolding encode_tile side
  row_sent zero x y k = ([], k)
  row_sent (suc left) x y k =
      let s = encode_tile pixel (λ i j. im (x + i) (y + j)) (side wd x) (side ht y) k in
      let r = row_sent left (x + 16) y s.1 in (s.0 ++ r.0, r.1)

  unfoldable pub rows_sent : ℕ → ℕ → Known → List ℕ × Known
  unfolding row_sent
  rows_sent zero y k = ([], k)
  rows_sent (suc left) y k =
      let s = row_sent (rounds wd) 0 y k in let r = rows_sent left (y + 16) s.1 in (s.0 ++ r.0, r.1)

module _ (pixel rx ry wd ht : ℕ) where
  unfoldable pub row_read : ℕ → ℕ → ℕ → Viewer → Pens → List ℕ → Option (Viewer × Pens × List ℕ)
  unfolding decode_tile side
  row_read zero x y v p bytes = some (v, p, bytes)
  row_read (suc left) x y v p bytes =
      decode_tile pixel (rx + x) (ry + y) (side wd x) (side ht y) v p bytes
      >>= λ (t : Viewer × Pens × List ℕ). row_read left (x + 16) y t.0 t.1 t.2

  unfoldable pub rows_read : ℕ → ℕ → Viewer → Pens → List ℕ → Option (Viewer × Pens × List ℕ)
  unfolding row_read
  rows_read zero y v p bytes = some (v, p, bytes)
  rows_read (suc left) y v p bytes =
      row_read (rounds wd) 0 y v p bytes >>= λ (t : Viewer × Pens × List ℕ).
      rows_read left (y + 16) t.0 t.1 t.2

-- From a place on, there are so many tiles.
abbrev pub IsLeft : ℕ → ℕ → ℕ → Type 0
IsLeft all at left = (all ≤ at + 16 * left) × (at + 16 * left < all + 16)

next-IsLeft :
    (all at left : ℕ) → IsLeft all at (suc left) → (ltb at all ≡ true) × IsLeft all (at + 16) left
next-IsLeft all at left h = (ground (arith, h.1), (omega (arith, h.0), omega (arith, h.1)))

pub rounds-IsLeft : (n : ℕ) → IsLeft n 0 (rounds n)
rounds-IsLeft n = (omega arith, omega arith)

module _ (pixel : ℕ) (im : Image) (wd ht : ℕ) where
  send_row_lem :
      (left x y : ℕ) (k : Known)
      → IsLeft wd x left
      → send_row pixel im wd ht (suc left) x y k ≡ some (row_sent pixel im wd ht left x y k)
  unfolding send_row row_sent
  send_row_lem zero x y k h =
      let stop : ltb x wd ≡ false = ground (arith, h.0) in rw (send_row, stop) refl
  send_row_lem (suc left) x y k h =
      let q = next-IsLeft wd x left h in
      let s = encode_tile pixel (λ i j. im (x + i) (y + j)) (side wd x) (side ht y) k in
      rw (send_row, q.0, send_row_lem left (x + 16) y s.1 q.1) refl

  pub send_rows_lem :
      (left y : ℕ) (k : Known)
      → IsLeft ht y left
      → send_rows pixel im wd ht (suc left) y k ≡ some (rows_sent pixel im wd ht left y k)
  unfolding send_rows rows_sent
  send_rows_lem zero y k h =
      let stop : ltb y ht ≡ false = ground (arith, h.0) in rw (send_rows, stop) refl
  send_rows_lem (suc left) y k h =
      let q = next-IsLeft ht y left h in
      let s = row_sent pixel im wd ht (rounds wd) 0 y k in
      rw
        (
          send_rows,
          q.0,
          send_row_lem (rounds wd) 0 y k (rounds-IsLeft wd),
          send_rows_lem left (y + 16) s.1 q.1,
        )
        refl

module _ (pixel rx ry wd ht : ℕ) where
  read_row_lem :
      (left x y : ℕ) (v : Viewer) (p : Pens) (bytes : List ℕ)
      → IsLeft wd x left
      → read_row pixel rx ry wd ht (suc left) x y v p bytes
        ≡ row_read pixel rx ry wd ht left x y v p bytes
  unfolding read_row row_read
  read_row_lem zero x y v p bytes h =
      let stop : ltb x wd ≡ false = ground (arith, h.0) in rw (read_row, stop) refl
  read_row_lem (suc left) x y v p bytes h =
      let q = next-IsLeft wd x left h in
      elim (Option-cases (decode_tile pixel (rx + x) (ry + y) (side wd x) (side ht y) v p bytes)) [
        | inl e ↦ rw (read_row, q.0, row_read, e) refl
        | inr (t, e) ↦
            rw (read_row, q.0, row_read, e) (read_row_lem left (x + 16) y t.0 t.1 t.2 q.1)
      ]

  pub read_rows_lem :
      (left y : ℕ) (v : Viewer) (p : Pens) (bytes : List ℕ)
      → IsLeft ht y left
      → read_rows pixel rx ry wd ht (suc left) y v p bytes
        ≡ rows_read pixel rx ry wd ht left y v p bytes
  unfolding read_rows rows_read
  read_rows_lem zero y v p bytes h =
      let stop : ltb y ht ≡ false = ground (arith, h.0) in rw (read_rows, stop) refl
  read_rows_lem (suc left) y v p bytes h =
      let q = next-IsLeft ht y left h in
      let row = read_row_lem (rounds wd) 0 y v p bytes (rounds-IsLeft wd) in
      elim (Option-cases (row_read pixel rx ry wd ht (rounds wd) 0 y v p bytes)) [
        | inl e ↦ rw (read_rows, q.0, rows_read, row, e) refl
        | inr (t, e) ↦
            rw (read_rows, q.0, rows_read, row, e) (read_rows_lem left (y + 16) t.0 t.1 t.2 q.1)
      ]
