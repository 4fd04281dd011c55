-- ===== src/Subrects/Outcome.antt =====
-- `rfbSendRectEncodingRRE` of libvncserver/rre.c and `rfbSendSmallRectEncodingCoRRE` of
-- libvncserver/corre.c as a whole.
use libvncserver.Base.{ℕ, ◌≤◌, ◌<◌, true, false, ◌⊎◌, ◌≡◌, List, ◌++◌, Option, none, some}
use libvncserver.Subrects.Image.{Subrect}
use libvncserver.Subrects.Encode.{Sizes, subrect_encode}
use libvncserver.Subrects.Send.{Sender, Sent, refused, Calls, Layout, encode_into}
use libvncserver.Subrects.Stream.{Delivers, message}

module _ {W : Type 0} (c : Calls W) (written : W → List ℕ)
    (write_law : (bytes : List ℕ) (w w' : W)
      → c.write bytes w ≡ some w'
      → written w' ≡ written w ++ bytes)
    (l : Layout) (max_raw x y w h : ℕ) (s : Sender W) where
  -- The client is as before, but for the sizes of its buffers.
  pub record IsReady (s' : Sender W) : Type 0 where
    pub same_world : s'.world ≡ s.world
    pub same_buffer : s'.update_buf ≡ s.update_buf
    pub same_stats : s'.stats ≡ s.stats

  abbrev pub sizes : ℕ → Sizes
  sizes room = record { pixel = l.pixel; rect = l.rect; room = room }

  -- The size of a buffer that is in place: the old one where that is large enough, else `maxRawSize`.
  abbrev pub InPlace : Option ℕ → ℕ → Type 0
  InPlace old size =
      (max_raw ≤ size) × ((old ≡ some size) ⊎ ((size ≡ max_raw) × (c.malloc max_raw ≡ true)))

  -- A buffer is missing or too small.
  abbrev pub Wanting : Option ℕ → Type 0
  Wanting none = Unit
  Wanting (some size) = size < max_raw

  -- How the routine ends, by what the encoder says of an image in a buffer of the size `room`.
  pub data Outcome : Sent W → Type 0 where
    no_memory :
        {s' : Sender W}
        → c.malloc max_raw ≡ false
        → Wanting s.before_enc ⊎ Wanting s.after_enc
        → IsReady s'
        → Outcome (refused s')
    raw :
        {s' : Sender W} (size room : ℕ)
        → InPlace s.before_enc size
        → InPlace s.after_enc room
        → s'.before_enc ≡ some size
        → s'.after_enc ≡ some room
        → IsReady s'
        → subrect_encode (sizes room) (c.translate x y w h) w h ≡ none
        → Outcome (c.send_raw x y w h s')
    encoded :
        {r : Sent W} (size room bg : ℕ) (subs : List Subrect)
        → InPlace s.before_enc size
        → InPlace s.after_enc room
        → subrect_encode (sizes room) (c.translate x y w h) w h ≡ some (bg, subs)
        → Delivers c written write_law s (message l x y w h bg subs) r
        → Outcome r

  -- What a buffer that is to grow becomes.
  data Grown (old : Option ℕ) : Option (Option ℕ) → Type 0 where
    fails : c.malloc max_raw ≡ false → Wanting old → Grown old none
    missing : c.malloc max_raw ≡ false → Wanting old → Grown old (some none)
    placed : (size : ℕ) → InPlace old size → Grown old (some (some size))

  -- The routine with what its two buffers become.
  abbrev continued : Option (Option ℕ) → Option (Option ℕ) → Sent W
  continued none after = refused s
  continued (some before) none = refused (record s { before_enc = before })
  continued (some before) (some after) =
      encode_into c l before after x y w h (record s { before_enc = before; after_enc = after })
