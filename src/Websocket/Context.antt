-- ===== src/Websocket/Context.antt =====
-- The decoder's context (libvncserver/ws_decode.h), the reads from its socket, and the clean-up.
use Prim.Native.Nat.{bit_and, bit_xor}
use libvncserver.Base.{
  ℕ, zero, suc, ◌+◌, ◌-◌, ◌%◌, ◌^◌, Bool, not, List, [], ◌∷◌, ◌==◌, if◌then◌else◌, Option, none,
  some,
}

-- `WS_HYBI_STATE_...`
pub data HybiState : Type 0 where
  header_pending data_available data_needed frame_complete close_reason_pending err : HybiState

-- The values of `errno` that the decoder sets, and those that a read leaves.
pub data Errno : Type 0 where
  eagain eproto econnreset eio : Errno
  of_read : ℕ → Errno

-- `WS_OPCODE_...`
abbrev pub opcode_continuation : ℕ
opcode_continuation = 0

abbrev pub opcode_text : ℕ
opcode_text = 1

abbrev pub opcode_binary : ℕ
opcode_binary = 2

abbrev pub opcode_close : ℕ
opcode_close = 8

abbrev pub opcode_invalid : ℕ
opcode_invalid = 0xff

-- `sizeof(codeBufDecode)`, which is 2048 + WSHLENMAX
abbrev pub buf_size : ℕ
buf_size = 2062

-- `ws_header_data_t`; `data` points at the start of the buffer where it is used.
pub record Header : Type 0 where
  pub n_read : ℕ
  pub mask : List ℕ
  pub header_len : ℕ
  pub payload_len : ℕ
  pub opcode : ℕ
  pub fin : ℕ

-- `ws_ctx_t`: `buf` is `codeBufDecode`, the two positions are offsets into it (none for NULL), and
-- `carry` the first `carrylen` bytes of `carryBuf`. A negative `readlen`, left by a Base64 error, is
-- none. `continuation` is `continuation_opcode`.
pub record Context : Type 0 where
  pub buf : ℕ → ℕ
  pub write_pos : Option ℕ
  pub read_pos : Option ℕ
  pub read_len : Option ℕ
  pub state : HybiState
  pub carry : List ℕ
  pub header : Header
  pub n_read_payload : ℕ
  pub continuation : ℕ

-- What `readFunc` returns: -1 with an `errno`, or bytes, none of them at the end of the stream.
pub data ReadResult : Type 0 where
  failed : ℕ → ReadResult
  received : List ℕ → ReadResult

-- `memcpy` into the buffer
unfoldable pub write_bytes : (ℕ → ℕ) → ℕ → List ℕ → ℕ → ℕ
write_bytes buf pos [] = buf
write_bytes buf pos (b ∷ bytes) = write_bytes (λ i. if i == pos then b else buf i) (pos + 1) bytes

-- `n` bytes of the buffer
unfoldable pub read_bytes : (ℕ → ℕ) → ℕ → ℕ → List ℕ
read_bytes buf pos zero = []
read_bytes buf pos (suc n) = buf pos ∷ read_bytes buf (pos + 1) n

-- `isControlFrame`
unfoldable pub is_control_frame : Header → Bool
is_control_frame h = not (bit_and h.opcode 8 == 0)

-- `hybiRemaining`, a difference of `uint64_t`
unfoldable pub remaining : Context → ℕ
remaining c = (c.header.payload_len + 2 ^ 64 - c.n_read_payload) % 2 ^ 64

-- `hybiDecodeCleanupBasics`, which `hybiDecodeCleanupForContinuation` is, too
unfoldable pub cleanup_basics : Context → Context
cleanup_basics c = record {
  buf = c.buf;
  write_pos = none;
  read_pos = some 0;
  read_len = some 0;
  state = header_pending;
  carry = [];
  header = record {
    n_read = 0;
    mask = 0 ∷ 0 ∷ 0 ∷ 0 ∷ [];
    header_len = 0;
    payload_len = 0;
    opcode = opcode_invalid;
    fin = c.header.fin;
  };
  n_read_payload = 0;
  continuation = c.continuation;
}

-- `hybiDecodeCleanupComplete`
unfoldable pub cleanup_complete : Context → Context
unfolding cleanup_basics
cleanup_complete c = record (cleanup_basics c) { continuation = opcode_invalid }

-- `mask.c[k]`
unfoldable pub mask_byte : List ℕ → ℕ → ℕ
mask_byte [] k = 0
mask_byte (m ∷ mask) zero = m
mask_byte (m ∷ mask) (suc k) = mask_byte mask k

-- Exclusive or with the mask, of bytes whose first is at place `i`. The loop over words of four bytes
-- does the same to each byte of a word.
unfoldable pub unmask : List ℕ → ℕ → List ℕ → List ℕ
unfolding mask_byte
unmask mask i [] = []
unmask mask i (b ∷ bytes) = bit_xor b (mask_byte mask (i % 4)) ∷ unmask mask (i + 1) bytes
