-- ===== src/Websocket/Decode.antt =====
-- `hybiReturnData`, `hybiReadAndDecode` and `webSocketsDecodeHybi` of libvncserver/ws_decode.c.
use libvncserver.Base.{
  ℕ, zero, suc, ◌+◌, ◌-◌, ◌^◌, ◌*◌, ◌/◌, ◌%◌, not, List, [], ◌∷◌, ◌==◌, if◌then◌else◌, Option, none,
  some, ltb, ◌&&◌, length,
}
use libvncserver.Base.Int.{ℤ, pos, negsuc, ◌-ℤ◌, pos_part}
use libvncserver.Websocket.Context.{
  Context, HybiState, Errno, ReadResult, failed, received, eagain, econnreset, eio, of_read,
  header_pending, data_available, data_needed, frame_complete, close_reason_pending, err,
  write_bytes, read_bytes, is_control_frame, remaining, cleanup_basics, cleanup_complete, unmask,
  opcode_text, opcode_binary, opcode_close, buf_size,
}
use libvncserver.Websocket.Header.{read_header}

-- What a call leaves: the context, the stream, the next state, the bytes put into `dst`, the return
-- value (none for -1), and `errno` where it is set.
pub record Outcome (W : Type 0) : Type 0 where
  pub context : Context
  pub world : W
  pub next : HybiState
  pub dst : List ℕ
  pub ret : Option ℕ
  pub errno : Option Errno

-- A position that is NULL is not read from.
unfoldable pub offset_of : Option ℕ → ℕ
offset_of none = 0
offset_of (some i) = i

-- `bufsize`, an `int`: the buffer has room for a terminator. It is negative where the position is at the
-- end of the buffer.
unfoldable pub space_left : ℕ → ℤ
space_left write_pos = pos buf_size -ℤ pos (write_pos + 1)

-- `bufsize` as an operand with `uint64_t`, and as a `size_t`.
unfoldable pub as_u64 : ℤ → ℕ
as_u64 (pos n) = n
as_u64 (negsuc n) = 2 ^ 64 - 1 - n

-- `nextRead`, where it is above 0; else 0. The number of bytes that remain is converted to `int`.
unfoldable pub next_read : ℤ → ℕ → ℕ
unfolding as_u64
next_read bufsize left =
    let low = left % 2 ^ 32 in
    if ltb (as_u64 bufsize) left then pos_part bufsize else if ltb low (2 ^ 31) then low else 0

module _ {W : Type 0} where
  -- `hybiReturnData`
  unfoldable pub return_data : ℕ → Context → W → Outcome W
  unfolding offset_of remaining read_bytes
  return_data len c w = elim c.read_len [
    | none ↦ blocked
    | some zero ↦ blocked
    | some (suc n) ↦
        let start = offset_of c.read_pos in
        if ltb len (suc n)
        then record {
          context = record c { read_len = some (suc n - len); read_pos = some (start + len) };
          world = w;
          next = data_available;
          dst = read_bytes c.buf start len;
          ret = some len;
          errno = none;
        }
        else record {
          context = record c { read_len = some 0; read_pos = none };
          world = w;
          next = if remaining c == 0 then frame_complete else data_needed;
          dst = read_bytes c.buf start (suc n);
          ret = some (suc n);
          errno = none;
        }
  ]
    where
      blocked : Outcome W
      blocked = record {
        context = c;
        world = w;
        next = c.state;
        dst = [];
        ret = none;
        errno = some eagain;
      }

  unfoldable pub stop : HybiState → Option ℕ → Option Errno → Context → W → Outcome W
  stop next ret errno c w = record {
    context = c;
    world = w;
    next = next;
    dst = [];
    ret = ret;
    errno = errno;
  }

-- "carry over remaining, non-multiple-of-four bytes", with the whole words unmasked, or the rest
-- unmasked at the end of the frame. `start` is the offset of `data`, `count` is `toDecode`.
unfoldable pub decode_mask : ℕ → ℕ → Context → Context
unfolding unmask write_bytes read_bytes offset_of
decode_mask start count c = elim c.state [
  | frame_complete ↦ record c {
    buf = write_bytes c.buf start (unmask c.header.mask 0 (read_bytes c.buf start count));
    carry = [];
  }
  | _ ↦
      let whole = count / 4 * 4 in
      record c {
        buf = write_bytes c.buf start (unmask c.header.mask 0 (read_bytes c.buf start whole));
        carry = read_bytes c.buf (start + whole) (count % 4);
        write_pos = some (offset_of c.write_pos - count % 4);
      }
]

module _ (base64 : List ℕ → ℕ → Option (List ℕ)) {W : Type 0} where
  -- The `switch` over the opcode: `start` is the offset of `data`, `count` is `toReturn`, `size` is
  -- `bufsize`. `base64` is `rfbBase64PtoN` of the bytes up to the terminator.
  unfoldable pub dispatch : ℕ → ℕ → ℕ → ℕ → Context → W → Outcome W
  unfolding return_data remaining write_bytes read_bytes stop offset_of
  dispatch len start count size c w =
      let payload_start = some c.header.header_len in
      let ended = record c { buf = write_bytes c.buf (start + count) (0 ∷ []) } in
      if c.header.opcode == opcode_close
      then (if remaining c == 0
          then stop frame_complete none (some econnreset)
              (record c { buf = write_bytes c.buf (offset_of c.write_pos) (0 ∷ []) }) w
          else stop close_reason_pending none (some eagain) c w)
      else if c.header.opcode == opcode_text
      then elim (base64 (read_bytes c.buf start count) size) [
        | none ↦
            return_data len
              (record ended { read_len = none; write_pos = payload_start; read_pos = some start }) w
        | some bytes ↦
            return_data len
              (record ended {
                buf = write_bytes ended.buf start bytes;
                read_len = some (length bytes);
                write_pos = payload_start;
                read_pos = some start;
              })
              w
      ]
      else if c.header.opcode == opcode_binary
      then return_data len
          (record c { read_len = some count; write_pos = payload_start; read_pos = some start }) w
      else return_data len (record c { read_pos = some start }) w

  -- From the read on: `size` is `bufsize`, `carried` is the old `carrylen`, and the new bytes go to
  -- the write position.
  unfoldable pub after_read : ℕ → ℕ → ℕ → ℕ → List ℕ → Context → W → Outcome W
  unfolding decode_mask dispatch write_bytes offset_of remaining
  after_read len size carried in_buf bytes c w =
      let n = length bytes in
      let pos = offset_of c.write_pos in
      let read = record c {
        buf = write_bytes c.buf pos bytes;
        n_read_payload = c.n_read_payload + n;
        write_pos = some (pos + n);
      } in
      let marked = record read {
        state = if remaining read == 0 then frame_complete else c.state;
      } in
      let to_decode = n + carried + in_buf in
      let start = pos + n - to_decode in
      let unmasked = decode_mask start to_decode marked in
      dispatch len start (to_decode - length unmasked.carry) size unmasked w

  -- `hybiReadAndDecode`
  unfoldable pub read_and_decode : (ℕ → W → ReadResult × W) → ℕ → ℕ → Context → W → Outcome W
  unfolding after_read space_left as_u64 next_read remaining write_bytes offset_of stop
  read_and_decode read len in_buf c w =
      let start = offset_of c.write_pos in
      let pos = start + length c.carry in
      let c' = record c { buf = write_bytes c.buf start c.carry; write_pos = some pos } in
      let size = as_u64 (space_left pos) in
      let wanted = next_read (space_left pos) (remaining c') in
      if ltb 0 wanted
      then (let r = read wanted w in
          elim r.0 [
            | failed e ↦ stop err none (some (of_read e)) c' r.1
            | received [] ↦ stop err (some 0) none c' r.1
            | received (b ∷ bytes) ↦ after_read len size (length c.carry) in_buf (b ∷ bytes) c' r.1
          ])
      else after_read len size (length c.carry) in_buf [] c' w

-- The clean-up at the end of `webSocketsDecodeHybi`, by the state that was reached.
unfoldable pub settle : Context → Context
unfolding cleanup_basics cleanup_complete is_control_frame
settle c = elim c.state [
  | frame_complete ↦
      if not (c.header.fin == 0) && not (is_control_frame c.header)
      then cleanup_complete c
      else cleanup_basics c
  | err ↦ cleanup_complete c
  | _ ↦ c
]

module _ (base64 : List ℕ → ℕ → Option (List ℕ)) {W : Type 0} (read : ℕ → W → ReadResult × W) where
  -- The `switch` over the state.
  unfoldable pub run_state : ℕ → Context → W → Outcome W
  unfolding read_header read_and_decode return_data stop
  run_state len c w = elim c.state [
    | header_pending ↦
        let h = read_header read c w in
        elim h.next [
          | data_needed ↦
              read_and_decode base64 read len h.n_payload (record h.context { state = data_needed })
                h.world
          | next ↦ stop next h.sock_ret h.errno h.context h.world
        ]
    | data_available ↦ return_data len c w
    | data_needed ↦ read_and_decode base64 read len 0 c w
    | close_reason_pending ↦ read_and_decode base64 read len 0 c w
    | frame_complete ↦ stop err none (some eio) c w
    | err ↦ stop err none (some eio) c w
  ]

  -- `webSocketsDecodeHybi`
  unfoldable pub decode_hybi : ℕ → Context → W → Outcome W
  unfolding run_state settle
  decode_hybi len c w =
      let o = run_state len c w in
      record o { context = settle (record o.context { state = o.next }) }
