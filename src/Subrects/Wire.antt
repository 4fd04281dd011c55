-- ===== src/Subrects/Wire.antt =====
-- The bytes of the two encodings, as libvncserver/rre.c and libvncserver/corre.c put them behind the
-- header of a rectangle, and the decoders of libvncclient/rre.c and libvncclient/corre.c.
use libvncserver.Base.{
  ℕ, zero, suc, ◌+◌, ◌*◌, ◌/◌, ◌%◌, Bool, ◌&&◌, leb, ltb, if◌then◌else◌, List, [], ◌∷◌, ◌++◌,
  Option, none, some, length, take, drop,
}
use libvncserver.Base.Bytes.{Read, ◌>>=◌, put_le, get_le, get_byte, put_16, get_16, put_32, get_32}
use libvncserver.Subrects.Image.{Image, Subrect, fill}

-- `rfbRectangle` in network order: `Swap16IfLE` of each field.
unfoldable pub put_rectangle : Subrect → List ℕ
unfolding put_16
put_rectangle r = put_16 r.x ++ (put_16 r.y ++ (put_16 r.w ++ put_16 r.h))

-- `rfbCoRRERectangle`, with fields of `uint8_t`
unfoldable pub put_small : Subrect → List ℕ
put_small r = r.x % 256 ∷ r.y % 256 ∷ r.w % 256 ∷ r.h % 256 ∷ []

-- `afterEncBuf` behind the background: each rectangle with its colour in front, by the bytes of a
-- pixel and of a rectangle. A pixel is in the order of a little-endian machine.
unfoldable pub put_subrects : (Subrect → List ℕ) → ℕ → List Subrect → List ℕ
unfolding put_le
put_subrects put pixel [] = []
put_subrects put pixel (r ∷ rs) = put_le pixel r.colour ++ (put r ++ put_subrects put pixel rs)

-- `rfbRREHeader` and `afterEncBuf`
unfoldable pub put_body : (Subrect → List ℕ) → ℕ → ℕ → List Subrect → List ℕ
unfolding put_subrects put_32
put_body put pixel bg subs =
    put_32 (length subs) ++ (put_le pixel bg ++ put_subrects put pixel subs)

-- The frame buffer of a client; none is NULL.
pub record Viewer : Type 0 where
  pub width : ℕ
  pub height : ℕ
  pub frame : Option Image

-- `CheckRect`
unfoldable pub check_rect : Viewer → Subrect → Bool
check_rect v r = leb (r.x + r.w) v.width && leb (r.y + r.h) v.height

-- `FillRectangle`, for 8, 16 or 32 bits a pixel
unfoldable pub fill_rectangle : Viewer → Subrect → Viewer
unfolding check_rect fill
fill_rectangle v r = elim v.frame [
  | none ↦ v
  | some im ↦ if check_rect v r then record v { frame = some (fill r im) } else v
]

-- A rectangle moved by `rx` and `ry`.
abbrev pub shift : ℕ → ℕ → Subrect → Subrect
shift rx ry r = record r { x = rx + r.x; y = ry + r.y }

-- A pixel of `CARDBPP` and a rectangle behind it, as a subrectangle.
unfoldable pub get_rectangle : ℕ → List ℕ → Read Subrect
unfolding get_16
get_rectangle colour bytes = get_16 bytes >>= λ (x : ℕ × List ℕ). get_16 x.1 >>= λ (y : ℕ × List ℕ).
    get_16 y.1 >>= λ (w : ℕ × List ℕ). get_16 w.1 >>= λ (h : ℕ × List ℕ).
    some (record { colour = colour; x = x.0; y = y.0; w = w.0; h = h.0 }, h.1)

unfoldable pub get_small : ℕ → List ℕ → Read Subrect
unfolding get_byte
get_small colour bytes = get_byte bytes >>= λ (x : ℕ × List ℕ). get_byte x.1 >>= λ (y : ℕ × List ℕ).
    get_byte y.1 >>= λ (w : ℕ × List ℕ). get_byte w.1 >>= λ (h : ℕ × List ℕ).
    some (record { colour = colour; x = x.0; y = y.0; w = w.0; h = h.0 }, h.1)

module _ (get : ℕ → List ℕ → Read Subrect) (pixel rx ry : ℕ) where
  -- A subrectangle: its colour, its fields, and `GotFillRect`.
  unfoldable pub get_subrect : Viewer → List ℕ → Read Viewer
  unfolding get_le fill_rectangle
  get_subrect v bytes = get_le pixel bytes >>= λ (p : ℕ × List ℕ).
      get p.0 p.1 >>= λ (r : Subrect × List ℕ). some (fill_rectangle v (shift rx ry r.0), r.1)

  -- `for (i = 0; i < hdr.nSubrects; i++)`, with the number to go: none where a read fails.
  unfoldable pub get_subrects : ℕ → Viewer → List ℕ → Read Viewer
  unfolding get_subrect
  get_subrects zero v bytes = some (v, bytes)
  get_subrects (suc n) v bytes =
      get_subrect v bytes >>= λ (r : Viewer × List ℕ). get_subrects n r.0 r.1

module _ (pixel rx ry rw rh : ℕ) (v : Viewer) where
  -- The header, the background, and the rectangle filled with it.
  unfoldable pub get_background : List ℕ → Option (ℕ × Viewer × List ℕ)
  unfolding get_32 get_le fill_rectangle
  get_background bytes = get_32 bytes >>= λ (n : ℕ × List ℕ).
      get_le pixel n.1 >>= λ (p : ℕ × List ℕ).
      some (n.0, fill_rectangle v (record { colour = p.0; x = rx; y = ry; w = rw; h = rh }), p.1)

  -- `HandleRREBPP`
  unfoldable pub handle_rre : List ℕ → Read Viewer
  unfolding get_background get_subrects get_rectangle
  handle_rre bytes = get_background bytes >>= λ (b : ℕ × Viewer × List ℕ).
      get_subrects get_rectangle pixel rx ry b.0 b.1 b.2

  -- `HandleCoRREBPP`: all subrectangles are read into `buffer` at once, of RFB_BUFFER_SIZE, which is
  -- 640 * 480, bytes; the division is that of `hdr.nSubrects > RFB_BUFFER_SIZE / (4 + (BPP / 8))`.
  unfoldable pub handle_corre : List ℕ → Read Viewer
  unfolding get_background get_subrects get_small
  handle_corre bytes = get_background bytes >>= λ (b : ℕ × Viewer × List ℕ).
      let size = b.0 * (4 + pixel) in
      if ltb (307200 / (4 + pixel)) b.0
      then none
      else if ltb (length b.2) size
      then none
      else (get_subrects get_small pixel rx ry b.0 b.1 (take size b.2) >>= λ (r : Viewer × List ℕ).
          some (r.0, drop size b.2))
