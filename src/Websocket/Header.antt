-- ===== src/Websocket/Header.antt =====
-- `hybiReadHeader` of libvncserver/ws_decode.c.
use Prim.Native.Nat.{bit_and}
use libvncserver.Base.{
  ℕ, ◌+◌, ◌-◌, ◌*◌, ◌/◌, ◌%◌, ◌^◌, Bool, true, false, not, List, [], ◌∷◌, ◌==◌, if◌then◌else◌,
  Option, none, some, ltb, leb, ◌&&◌, ◌||◌, length,
}
use libvncserver.Websocket.Context.{
  Header, Context, HybiState, Errno, ReadResult, failed, received, eagain, eproto, of_read,
  header_pending, data_needed, err, write_bytes, read_bytes, is_control_frame, cleanup_complete,
  opcode_continuation, opcode_invalid,
}

-- What the function leaves: the context, the stream, the next state, `*sockRet` (none for -1) and
-- `errno` where it sets them, and `*nPayload`.
pub record HeaderResult (W : Type 0) : Type 0 where
  pub context : Context
  pub world : W
  pub next : HybiState
  pub sock_ret : Option ℕ
  pub errno : Option Errno
  pub n_payload : ℕ

-- Big-endian numbers in the buffer, as `WS_NTOH16` and `WS_NTOH64` give them.
unfoldable pub big_endian : ℕ → List ℕ → ℕ
big_endian acc [] = acc
big_endian acc (b ∷ bytes) = big_endian (acc * 256 + b) bytes

-- The opcode and the remembered opcode; the Boolean is false for a frame that is refused.
unfoldable pub parse_opcode : Context → Context × Bool
unfolding is_control_frame
parse_opcode c =
    let b0 = c.buf 0 in
    let h = record c.header { opcode = bit_and b0 0x0f; fin = bit_and b0 0x80 / 128 } in
    if is_control_frame h
    then (record c { header = h }, not (h.fin == 0))
    else if h.opcode == opcode_continuation
    then (if c.continuation == opcode_invalid
        then (record c { header = h }, false)
        else (record c { header = record h { opcode = c.continuation } }, true))
    else (
      record c { header = h; continuation = if h.fin == 0 then h.opcode else opcode_invalid },
      true,
    )

-- The three forms of the header, or none where it is incomplete.
unfoldable pub parse_length : Context → Option Context
unfolding read_bytes big_endian
parse_length c =
    let h = c.header in
    if ltb h.payload_len 126 && leb 6 h.n_read
    then some (record c { header = record h { header_len = 6; mask = read_bytes c.buf 2 4 } })
    else if h.payload_len == 126 && leb 8 h.n_read
    then some (record c {
      header = record h {
        header_len = 8;
        payload_len = big_endian 0 (read_bytes c.buf 2 2);
        mask = read_bytes c.buf 4 4;
      };
    })
    else if h.payload_len == 127 && leb 14 h.n_read
    then some (record c {
      header = record h {
        header_len = 14;
        payload_len = big_endian 0 (read_bytes c.buf 2 8);
        mask = read_bytes c.buf 10 4;
      };
    })
    else none

-- A length that fits a shorter form.
unfoldable pub is_wrongly_encoded : Header → Bool
is_wrongly_encoded h =
    (ltb 6 h.header_len && ltb h.payload_len 126) || (ltb 8 h.header_len && ltb h.payload_len 65536)

-- `readFunc` of `n` bytes to the place behind those that were read.
unfoldable pub store : Context → List ℕ → Context
unfolding write_bytes
store c bytes = record c {
  buf = write_bytes c.buf c.header.n_read bytes;
  header = record c.header { n_read = c.header.n_read + length bytes };
}

-- `n`, an `int` that is passed as a `size_t`: the bytes of a header form that are missing.
unfoldable pub missing : ℕ → Context → ℕ
missing form c = (form + 2 ^ 64 - c.header.n_read) % 2 ^ 64

module _ {W : Type 0} where
  -- `ret_header_pending`
  unfoldable pub pending : Context → W → HeaderResult W
  pending c w = record {
    context = c;
    world = w;
    next = header_pending;
    sock_ret = none;
    errno = some eagain;
    n_payload = 0;
  }

  -- `err_cleanup_state`
  unfoldable pub abort : Errno → Context → W → HeaderResult W
  abort e c w = record {
    context = cleanup_complete c;
    world = w;
    next = err;
    sock_ret = none;
    errno = some e;
    n_payload = 0;
  }

  -- `err_cleanup_state_sock_closed`
  unfoldable pub closed : Context → W → HeaderResult W
  closed c w = record {
    context = cleanup_complete c;
    world = w;
    next = err;
    sock_ret = some 0;
    errno = none;
    n_payload = 0;
  }

  -- From the complete header on.
  unfoldable pub finish_header : Context → W → HeaderResult W
  unfolding parse_length is_wrongly_encoded abort pending
  finish_header c w = elim (parse_length c) [
    | none ↦ pending c w
    | some c' ↦
        let h = c'.header in
        if is_wrongly_encoded h then abort eproto c' w else record {
          context = record c' {
            write_pos = some h.n_read;
            read_pos = some h.header_len;
            n_read_payload = h.n_read - h.header_len;
          };
          world = w;
          next = data_needed;
          sock_ret = none;
          errno = none;
          n_payload = h.n_read - h.header_len;
        }
  ]

module _ {W : Type 0} (read : ℕ → W → ReadResult × W) where
  -- "Read now the rest of the frame header, if it is longer as the minimum"
  unfoldable pub read_rest : Context → W → HeaderResult W
  unfolding finish_header store missing abort closed
  read_rest c w =
      let l = c.header.payload_len in
      if l == 126 || l == 127
      then (let r = read (missing (if l == 126 then 8 else 14) c) w in
          elim r.0 [
            | failed e ↦ abort (of_read e) c r.1
            | received [] ↦ closed c r.1
            | received (b ∷ bytes) ↦ finish_header (store c (b ∷ bytes)) r.1
          ])
      else finish_header c w

  -- From the first two bytes of the header on.
  unfoldable pub interpret : Context → W → HeaderResult W
  unfolding parse_opcode read_rest abort
  interpret c w =
      let p = parse_opcode c in
      let b1 = c.buf 1 in
      let c' = record p.0 { header = record p.0.header { payload_len = bit_and b1 0x7f } } in
      if p.1
      then (if bit_and b1 0x80 == 0 then abort eproto c' w else read_rest c' w)
      else abort eproto p.0 w

  -- `hybiReadHeader`
  unfoldable pub read_header : Context → W → HeaderResult W
  unfolding interpret store missing abort closed pending
  read_header c w =
      let r = read (missing 6 c) w in
      elim r.0 [
        | failed e ↦ abort (of_read e) c r.1
        | received [] ↦ closed c r.1
        | received (b ∷ bytes) ↦
            let c' = store c (b ∷ bytes) in
            if ltb c'.header.n_read 2 then pending c' r.1 else interpret c' r.1
      ]
