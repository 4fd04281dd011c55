-- ===== src/Subrects/Encode.antt =====
-- `subrectEncode` of libvncserver/rre.c, which libvncserver/corre.c repeats with a smaller rectangle.
use libvncserver.Base.{
  ℕ, zero, suc, ◌+◌, ◌-◌, ◌*◌, Bool, true, false, ◌&&◌, ◌||◌, ◌==◌, leb, ltb, if◌then◌else◌, List,
  [], ◌∷◌, ◌++◌, Option, none, some,
}
use libvncserver.Subrects.Image.{Image, Subrect, fill}

-- `while ((i < w) && (seg[i] == cl)) i += 1;`, with the columns to go to `w`.
unfoldable pub run_end : (ℕ → ℕ) → ℕ → ℕ → ℕ → ℕ
run_end seg cl zero i = i
run_end seg cl (suc left) i = elim (seg i == cl) [ true ↦ run_end seg cl left (i + 1) | false ↦ i ]

-- The variables of the scan for a rectangle; `hy_end` is `hy + 1`.
pub record Scan : Type 0 where
  pub hx : ℕ
  pub hy_end : ℕ
  pub vx : ℕ
  pub hyflag : Bool

-- The body of the loop over `j`, behind the test of its first pixel: `i` is the last column of the
-- run in the row.
unfoldable pub scan_row : ℕ → ℕ → ℕ → Scan → Scan
scan_row y j i s =
    let hx = if j == y then i else s.hx in
    let vx = if j == y then i else s.vx in
    let more = s.hyflag && leb hx i in
    record {
      hx = hx;
      hy_end = if more then s.hy_end + 1 else s.hy_end;
      vx = if ltb i vx then i else vx;
      hyflag = more;
    }

module _ (im : Image) (w cl x y : ℕ) where
  -- `for (j=y; j<h; j++)`, with the rows to go; it also returns the last `j`.
  unfoldable pub scan_rows : ℕ → ℕ → Scan → Scan × ℕ
  unfolding run_end scan_row
  scan_rows zero j s = (s, j)
  scan_rows (suc left) j s = elim (im x j == cl) [
    | true ↦ scan_rows left (j + 1) (scan_row y j (run_end (λ i. im i j) cl (w - x) x - 1) s)
    | false ↦ (s, j)
  ]

-- "We now have two possible subrects: (x,y,hx,hy) and (x,y,vx,vy). We'll choose the bigger of the
-- two." `j` is `vy + 1`.
unfoldable pub choose : ℕ → ℕ → ℕ → Scan → ℕ → Subrect
choose cl x y s j =
    let hw = s.hx - x + 1 in
    let hh = s.hy_end - y in
    let vw = s.vx - x + 1 in
    let vh = j - y in
    if ltb (vw * vh) (hw * hh)
    then record { colour = cl; x = x; y = y; w = hw; h = hh }
    else record { colour = cl; x = x; y = y; w = vw; h = vh }

-- The rectangle that is found at a pixel.
unfoldable pub find_subrect : Image → ℕ → ℕ → ℕ → ℕ → Subrect
unfolding scan_rows choose
find_subrect im w h x y =
    let cl = im x y in
    let r =
      scan_rows im w cl x y (h - y) y (record { hx = 0; hy_end = y; vx = 0; hyflag = true }) in
    choose cl x y r.0 r.1

-- What the code keeps while it encodes: `data`, `afterEncBufLen`, and the rectangles that are behind
-- the background in `afterEncBuf`, of which `numsubs` is the number.
pub record Encoder : Type 0 where
  pub im : Image
  pub len : ℕ
  pub subs : List Subrect

-- The sizes of an encoding: `bpp/8`, the bytes of a rectangle, and `afterEncBufSize`.
pub record Sizes : Type 0 where
  pub pixel : ℕ
  pub rect : ℕ
  pub room : ℕ

-- What an encoding takes by the bytes: what is in front of the rectangles, one of them with its colour,
-- the raw pixels, and the room.
pub record Costs : Type 0 where
  pub front : ℕ
  pub each : ℕ
  pub raw : ℕ
  pub room : ℕ

abbrev pub costs : Sizes → ℕ → ℕ → Costs
costs k w h = record {
  front = k.pixel;
  each = k.pixel + k.rect;
  raw = w * h * k.pixel;
  room = k.room;
}

module _ (k : Costs) (w h bg : ℕ) where
  -- A pixel that is not of the background: none is the return of -1.
  unfoldable pub encode_pixel : ℕ → ℕ → Encoder → Option Encoder
  unfolding find_subrect fill
  encode_pixel x y e =
      let r = find_subrect e.im w h x y in
      let new_len = e.len + k.each in
      if ltb k.raw new_len || ltb k.room new_len
      then none
      else some (record {
        im = fill (record r { colour = bg }) e.im;
        len = new_len;
        subs = e.subs ++ r ∷ [];
      })

  -- `for (x=0; x<w; x++)`, with the columns to go.
  unfoldable pub encode_row : ℕ → ℕ → ℕ → Encoder → Option Encoder
  unfolding encode_pixel
  encode_row zero x y e = some e
  encode_row (suc left) x y e = elim (e.im x y == bg) [
    | true ↦ encode_row left (x + 1) y e
    | false ↦ elim (encode_pixel x y e) [ none ↦ none | some e' ↦ encode_row left (x + 1) y e' ]
  ]

  -- `for (y=0; y<h; y++)`, with the rows to go.
  unfoldable pub encode_rows : ℕ → ℕ → Encoder → Option Encoder
  unfolding encode_row
  encode_rows zero y e = some e
  encode_rows (suc left) y e = elim (encode_row w 0 y e) [
    | none ↦ none
    | some e' ↦ encode_rows left (y + 1) e'
  ]

-- The pixels in the order of the buffer.
unfoldable pub row_pixels : Image → ℕ → ℕ → ℕ → List ℕ
row_pixels im zero x y = []
row_pixels im (suc left) x y = im x y ∷ row_pixels im left (x + 1) y

unfoldable pub pixels : Image → ℕ → ℕ → ℕ → List ℕ
unfolding row_pixels
pixels im w zero y = []
pixels im w (suc left) y = row_pixels im w 0 y ++ pixels im w left (y + 1)

-- The loop of `getBgColour` for 8 bits a pixel.
pub record Prevalent : Type 0 where
  pub counts : ℕ → ℕ
  pub maxcount : ℕ
  pub maxclr : ℕ

unfoldable pub count_pixel : ℕ → Prevalent → Prevalent
count_pixel p s =
    let n = s.counts p + 1 in
    record {
      counts = λ c. if c == p then n else s.counts c;
      maxcount = if ltb s.maxcount n then n else s.maxcount;
      maxclr = if ltb s.maxcount n then p else s.maxclr;
    }

unfoldable pub count_pixels : List ℕ → Prevalent → Prevalent
unfolding count_pixel
count_pixels [] s = s
count_pixels (p ∷ ps) s = count_pixels ps (count_pixel p s)

-- `getBgColour`: the first pixel, or for one byte a pixel the most prevalent.
unfoldable pub bg_colour : ℕ → Image → ℕ → ℕ → ℕ
unfolding count_pixels pixels
bg_colour pixel im w h =
    if pixel == 1
    then (count_pixels (pixels im w h 0)
        (record { counts = λ c. 0; maxcount = 0; maxclr = 0 })).maxclr
    else im 0 0

-- `subrectEncode8`, `subrectEncode16` and `subrectEncode32`: the background and the rectangles.
unfoldable pub subrect_encode : Sizes → Image → ℕ → ℕ → Option (ℕ × List Subrect)
unfolding encode_rows bg_colour
subrect_encode k im w h =
    let bg = bg_colour k.pixel im w h in
    elim (encode_rows (costs k w h) w h bg h 0 (record { im = im; len = k.pixel; subs = [] })) [
      | none ↦ none
      | some e ↦ some (bg, e.subs)
    ]
