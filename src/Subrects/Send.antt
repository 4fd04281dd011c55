-- ===== src/Subrects/Send.antt =====
-- `rfbSendRectEncodingRRE` of libvncserver/rre.c, and how libvncserver/corre.c cuts a rectangle and
-- sends each piece.
use libvncserver.Base.{
  ℕ, zero, suc, ◌+◌, ◌-◌, ◌*◌, Bool, ◌==◌, ltb, if◌then◌else◌, List, [], ◌∷◌, ◌++◌, Option, none,
  some, length, take, drop,
}
use libvncserver.Base.Bytes.{put_16, put_32, put_le}
use libvncserver.Stats
use libvncserver.Stats.{encoding_sent}
use libvncserver.Subrects.Image.{Image, Subrect}
use libvncserver.Subrects.Encode.{Sizes, subrect_encode}
use libvncserver.Subrects.Wire.{put_subrects, put_rectangle, put_small}

-- `UPDATE_BUF_SIZE`
abbrev pub update_buf_size : ℕ
update_buf_size = 5000000

-- The fields of a client that an encoder uses: the counters, `updateBuf` up to `ublen`, the sizes of
-- the two encoding buffers (none for NULL), and the world behind the socket.
pub record Sender (W : Type 0) : Type 0 where
  pub stats : Stats.Client
  pub update_buf : List ℕ
  pub before_enc : Option ℕ
  pub after_enc : Option ℕ
  pub world : W

-- How a routine ends: it returns `TRUE`, or `FALSE`; a loop of the model without fuel is `stuck`.
pub data Sent (W : Type 0) : Type 0 where
  sent : Sender W → Sent W
  refused : Sender W → Sent W
  stuck : Sent W

-- Behind a routine that returned `TRUE`.
unfoldable pub proceed : {W : Type 0} → Sent W → (Sender W → Sent W) → Sent W
proceed (sent s) f = f s
proceed (refused s) f = refused s
proceed stuck f = stuck

-- The code that an encoder calls: `rfbWriteExact`, which fails or leaves a world; whether the
-- allocator has memory for a size, for NULL or for a buffer that grows; the memory for a counter;
-- `translateFn` on a rectangle of the frame buffer; and `rfbSendRectEncodingRaw`.
pub record Calls (W : Type 0) : Type 0 where
  pub write : List ℕ → W → Option W
  pub malloc : ℕ → Bool
  pub stat_room : Bool
  pub translate : ℕ → ℕ → ℕ → ℕ → Image
  pub send_raw : ℕ → ℕ → ℕ → ℕ → Sender W → Sent W

-- What is sent of an encoding: its number, the bytes of a pixel (1, 2 or 4) and of a rectangle, and the
-- layout of a rectangle.
pub record Layout : Type 0 where
  pub encoding : ℕ
  pub pixel : ℕ
  pub rect : ℕ
  pub put : Subrect → List ℕ

-- `sz_rfbFramebufferUpdateRectHeader` bytes, 12
unfoldable pub put_rect_header : ℕ → ℕ → ℕ → ℕ → ℕ → List ℕ
unfolding put_16 put_32
put_rect_header x y w h encoding =
    put_16 x ++ (put_16 y ++ (put_16 w ++ (put_16 h ++ put_32 encoding)))

-- The header of the rectangle and `rfbRREHeader`
unfoldable pub put_headers : Layout → ℕ → ℕ → ℕ → ℕ → ℕ → List ℕ
unfolding put_rect_header put_32
put_headers l x y w h n = put_rect_header x y w h l.encoding ++ put_32 n

-- `afterEncBuf` up to `afterEncBufLen`
unfoldable pub after_enc_buf : Layout → ℕ → List Subrect → List ℕ
unfolding put_subrects put_le
after_enc_buf l bg subs = put_le l.pixel bg ++ put_subrects l.put l.pixel subs

module _ {W : Type 0} (c : Calls W) where
  -- `rfbSendUpdateBuf`, on a socket that is open
  unfoldable pub send_update_buf : Sender W → Sent W
  send_update_buf s = elim (c.write s.update_buf s.world) [
    | none ↦ refused s
    | some w ↦ sent (record s { update_buf = []; world = w })
  ]

  -- A round of the loop that copies `afterEncBuf`: as many bytes as there is room for, and the buffer
  -- sent where it is full.
  unfoldable pub copy_round : List ℕ → Sender W → Sent W
  unfolding send_update_buf
  copy_round bytes s =
      let n = update_buf_size - length s.update_buf in
      let s' = record s { update_buf = s.update_buf ++ take n bytes } in
      if length s'.update_buf == update_buf_size then send_update_buf s' else sent s'

  -- `for (i = 0; i < cl->afterEncBufLen;)`, with the bytes from `i` on. A round copies a byte, or
  -- empties a buffer that is full at the start.
  unfoldable pub copy_loop : ℕ → List ℕ → Sender W → Sent W
  unfolding copy_round proceed
  copy_loop fuel [] s = sent s
  copy_loop zero (b ∷ bytes) s = stuck
  copy_loop (suc fuel) (b ∷ bytes) s =
      proceed (copy_round (b ∷ bytes) s)
        (copy_loop fuel (drop (update_buf_size - length s.update_buf) (b ∷ bytes)))

  -- One of the two encoding buffers: `malloc` where it is NULL, `realloc` where it is too small; none
  -- where the function returns `FALSE` at once.
  unfoldable pub grow_buffer : ℕ → Option ℕ → Option (Option ℕ)
  grow_buffer size none = some (if c.malloc size then some size else none)
  grow_buffer size (some old) =
      if ltb old size then (if c.malloc size then some (some size) else none) else some (some old)

module _ {W : Type 0} (c : Calls W) (l : Layout) where
  -- From `rfbStatRecordEncodingSent` to the end.
  unfoldable pub send_encoded : ℕ → ℕ → ℕ → ℕ → ℕ → List Subrect → Sender W → Sent W
  unfolding after_enc_buf put_headers send_update_buf copy_loop proceed
  send_encoded x y w h bg subs s =
      let bytes = after_enc_buf l bg subs in
      let counted = record s {
        stats =
            encoding_sent c.stat_room s.stats l.encoding (12 + 4 + length bytes)
              (12 + w * h * l.pixel);
      } in
      proceed
        (if ltb update_buf_size (length s.update_buf + 12 + 4)
          then send_update_buf c counted
          else sent counted)
        (λ s'.
          copy_loop c (length bytes + 1) bytes
            (record s' { update_buf = s'.update_buf ++ put_headers l x y w h (length subs) }))

  -- With both buffers in place: the switch over the pixel size, and raw pixels for -1.
  unfoldable pub encode_into : Option ℕ → Option ℕ → ℕ → ℕ → ℕ → ℕ → Sender W → Sent W
  unfolding send_encoded subrect_encode
  encode_into none after x y w h s = refused s
  encode_into (some b) none x y w h s = refused s
  encode_into (some b) (some room) x y w h s =
      let k : Sizes = record { pixel = l.pixel; rect = l.rect; room = room } in
      elim (subrect_encode k (c.translate x y w h) w h) [
        | none ↦ c.send_raw x y w h s
        | some (bg, subs) ↦ send_encoded x y w h bg subs s
      ]

  -- The whole routine: `max_raw` is `maxRawSize`.
  unfoldable pub send_rect : ℕ → ℕ → ℕ → ℕ → ℕ → Sender W → Sent W
  unfolding grow_buffer encode_into
  send_rect max_raw x y w h s = elim (grow_buffer c max_raw s.before_enc) [
    | none ↦ refused s
    | some before ↦
        let s1 = record s { before_enc = before } in
        elim (grow_buffer c max_raw s.after_enc) [
          | none ↦ refused s1
          | some after ↦ encode_into before after x y w h (record s1 { after_enc = after })
        ]
  ]

-- `rfbSendRectEncodingRRE` and `rfbSendSmallRectEncodingCoRRE`
abbrev pub rre : ℕ → Layout
rre pixel = record { encoding = 2; pixel = pixel; rect = 8; put = put_rectangle }

abbrev pub corre : ℕ → Layout
corre pixel = record { encoding = 4; pixel = pixel; rect = 4; put = put_small }

unfoldable pub send_rect_rre : {W : Type 0} → Calls W → ℕ → ℕ → ℕ → ℕ → ℕ → ℕ → Sender W → Sent W
unfolding send_rect
send_rect_rre c pixel = send_rect c (rre pixel)

-- Its rectangle has sides below 256.
unfoldable pub send_small_rect_corre :
    {W : Type 0} → Calls W → ℕ → ℕ → ℕ → ℕ → ℕ → ℕ → Sender W → Sent W
unfolding send_rect
send_small_rect_corre c pixel = send_rect c (corre pixel)
