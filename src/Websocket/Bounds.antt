-- ===== src/Websocket/Bounds.antt =====
-- What webSocketsDecodeHybi of libvncserver/ws_decode.c writes into the buffer of its caller.
use libvncserver.Base.{
  Option-cases, ℕ, zero, suc, ◌+◌, ◌-◌, ◌≤◌, List, [], ◌∷◌, ◌≡◌, refl, arith, Bool-cases, inl, inr,
  Option, none, some, ltb, length, ◌==◌, ◌≢◌, if◌then◌else◌,
}
use libvncserver.Websocket.Context.{
  HybiState, Errno, eio, of_read, Context, econnreset, eagain, write_bytes, ReadResult,
  header_pending, data_available, data_needed, frame_complete, close_reason_pending, err,
  read_bytes, remaining, opcode_text, opcode_binary, opcode_close,
}
use libvncserver.Websocket.Header.{read_header}
use libvncserver.Websocket.Decode.{
  Outcome, return_data, stop, dispatch, after_read, read_and_decode, run_state, decode_hybi,
  offset_of, decode_mask, space_left, as_u64, next_read,
}
use libvncserver.Websocket.Quiet.{ReadResult-cases, none_lem, zero_lem, read_header-IsQuiet}

length-read_bytes : (buf : ℕ → ℕ) (start n : ℕ) → length (read_bytes buf start n) ≡ n
unfolding read_bytes
length-read_bytes buf start zero = refl
length-read_bytes buf start (suc n) = omega (arith, length-read_bytes buf (start + 1) n)

-- No more than the room that the caller gives, and as many bytes as are reported.
pub record Fits {W : Type 0} (len : ℕ) (o : Outcome W) : Type 0 where
  pub within : length o.dst ≤ len
  pub reported : (n : ℕ) → o.ret ≡ some (suc n) → length o.dst ≡ suc n

module _ {W : Type 0} (len : ℕ) where
  return_data_at :
      (c : Context) (w : W) (r : Option ℕ) → c.read_len ≡ r → Fits len (return_data len c w)
  unfolding return_data
  return_data_at c w none e = rw e (record { within = omega arith; reported = λ n h. cc })
  return_data_at c w (some zero) e = rw e (record { within = omega arith; reported = λ n h. cc })
  return_data_at c w (some (suc n)) e =
      let part = length-read_bytes c.buf (offset_of c.read_pos) len in
      let whole = length-read_bytes c.buf (offset_of c.read_pos) (suc n) in
      rw e (elim (Bool-cases (ltb len (suc n))) [
        | inl t ↦
            rw t (record { within = omega (arith, part); reported = λ k h. grind (arith, part) })
        | inr t ↦
            rw t (record { within = ground (arith, whole); reported = λ k h. grind (arith, whole) })
      ])

  return_data-Fits : (c : Context) (w : W) → Fits len (return_data len c w)
  return_data-Fits c w = return_data_at c w c.read_len refl

module _ {W : Type 0} (len : ℕ) where
  -- Nothing is written, and at most the end of the stream is reported.
  stop-Fits :
      (next : HybiState) (ret : Option ℕ) (e : Option Errno) (c : Context) (w : W)
      → ((n : ℕ) → ret ≢ some (suc n))
      → Fits len (stop next ret e c w)
  unfolding stop
  stop-Fits next ret e c w h = record { within = omega arith; reported = λ n k. absurd (h n k) }

module _ {W : Type 0} (base64 : List ℕ → ℕ → Option (List ℕ)) (len : ℕ) where
  dispatch-Fits :
      (start count size : ℕ) (c : Context) (w : W)
      → Fits len (dispatch base64 len start count size c w)
  unfolding dispatch
  dispatch-Fits start count size c w =
      let at_end = record c { buf = write_bytes c.buf (offset_of c.write_pos) (0 ∷ []) } in
      let ended = record c { buf = write_bytes c.buf (start + count) (0 ∷ []) } in
      let first = some c.header.header_len in
      elim (Bool-cases (c.header.opcode == opcode_close)) [
        | inl t ↦ rw t (elim (Bool-cases (remaining c == 0)) [
          | inl r ↦
              rw r (
                stop-Fits len frame_complete none (some econnreset) at_end w
                  (λ n. none_lem (suc n)))
          | inr r ↦
              rw r
                (stop-Fits len close_reason_pending none (some eagain) c w (λ n. none_lem (suc n)))
        ])
        | inr t ↦ rw t (elim (Bool-cases (c.header.opcode == opcode_text)) [
          | inl u ↦ rw u (elim (Option-cases (base64 (read_bytes c.buf start count) size)) [
            | inl e ↦ rw e (
                return_data-Fits len
                  (record ended { read_len = none; write_pos = first; read_pos = some start }) w)
            | inr (bytes, e) ↦ rw e (
                return_data-Fits len
                  (record ended {
                    buf = write_bytes ended.buf start bytes;
                    read_len = some (length bytes);
                    write_pos = first;
                    read_pos = some start;
                  })
                  w)
          ])
          | inr u ↦ rw u (elim (Bool-cases (c.header.opcode == opcode_binary)) [
            | inl v ↦ rw v (
                return_data-Fits len
                  (record c { read_len = some count; write_pos = first; read_pos = some start }) w)
            | inr v ↦ rw v (return_data-Fits len (record c { read_pos = some start }) w)
          ])
        ])
      ]

  after_read-Fits :
      (size carried in_buf : ℕ) (bytes : List ℕ) (c : Context) (w : W)
      → Fits len (after_read base64 len size carried in_buf bytes c w)
  unfolding after_read
  after_read-Fits size carried in_buf bytes c w =
      let n = length bytes in
      let pos = offset_of c.write_pos in
      let got : Context = record c {
        buf = write_bytes c.buf pos bytes;
        n_read_payload = c.n_read_payload + n;
        write_pos = some (pos + n);
      } in
      let marked : Context = record got {
        state = if remaining got == 0 then frame_complete else c.state;
      } in
      let to_decode = n + carried + in_buf in
      let start = pos + n - to_decode in
      let unmasked = decode_mask start to_decode marked in
      dispatch-Fits start (to_decode - length unmasked.carry) size unmasked w

module _ {W : Type 0} (base64 : List ℕ → ℕ → Option (List ℕ)) (read : ℕ → W → ReadResult × W)
    (len : ℕ) where
  read_and_decode-Fits :
      (in_buf : ℕ) (c : Context) (w : W) → Fits len (read_and_decode base64 read len in_buf c w)
  unfolding read_and_decode
  read_and_decode-Fits in_buf c w =
      let start = offset_of c.write_pos in
      let pos = start + length c.carry in
      let c' : Context = record c { buf = write_bytes c.buf start c.carry; write_pos = some pos } in
      let size = as_u64 (space_left pos) in
      let wanted = next_read (space_left pos) (remaining c') in
      let r = read wanted w in
      let carried = length c.carry in
      elim (Bool-cases (ltb 0 wanted)) [
        | inl t ↦ rw t (elim (ReadResult-cases r.0) [
          | inl (e, q) ↦
              rw q (stop-Fits len err none (some (of_read e)) c' r.1 (λ n. none_lem (suc n)))
          | inr (inl q) ↦ rw q (stop-Fits len err (some 0) none c' r.1 zero_lem)
          | inr (inr (b, bytes, q)) ↦
              rw q (after_read-Fits base64 len size carried in_buf (b ∷ bytes) c' r.1)
        ])
        | inr t ↦ rw t (after_read-Fits base64 len size carried in_buf [] c' w)
      ]

module _ {W : Type 0} (base64 : List ℕ → ℕ → Option (List ℕ)) (read : ℕ → W → ReadResult × W)
    (len : ℕ) where
  header_at :
      (c : Context) (w : W) (s : HybiState)
      → (read_header read c w).next ≡ s
      → let h = read_header read c w in
        Fits len (elim h.next [
          | data_needed ↦
              read_and_decode base64 read len h.n_payload
                (record h.context { state = data_needed })
                h.world
          | next ↦ stop next h.sock_ret h.errno h.context h.world
        ])
  header_at c w data_needed e =
      let h = read_header read c w in
      rw e (
        read_and_decode-Fits base64 read len h.n_payload (record h.context { state = data_needed })
          h.world)
  header_at c w header_pending e =
      let h = read_header read c w in
      rw e (
        stop-Fits len header_pending h.sock_ret h.errno h.context h.world
          (read_header-IsQuiet read c w))
  header_at c w data_available e =
      let h = read_header read c w in
      rw e (
        stop-Fits len data_available h.sock_ret h.errno h.context h.world
          (read_header-IsQuiet read c w))
  header_at c w frame_complete e =
      let h = read_header read c w in
      rw e (
        stop-Fits len frame_complete h.sock_ret h.errno h.context h.world
          (read_header-IsQuiet read c w))
  header_at c w close_reason_pending e =
      let h = read_header read c w in
      rw e (
        stop-Fits len close_reason_pending h.sock_ret h.errno h.context h.world
          (read_header-IsQuiet read c w))
  header_at c w err e =
      let h = read_header read c w in
      rw e (stop-Fits len err h.sock_ret h.errno h.context h.world (read_header-IsQuiet read c w))

  run_state_at :
      (c : Context) (w : W) (s : HybiState) → c.state ≡ s → Fits len (run_state base64 read len c w)
  unfolding run_state
  run_state_at c w header_pending e =
      rw (run_state, e) (header_at c w (read_header read c w).next refl)
  run_state_at c w data_available e = rw (run_state, e) (return_data-Fits len c w)
  run_state_at c w data_needed e = rw (run_state, e) (read_and_decode-Fits base64 read len 0 c w)
  run_state_at c w close_reason_pending e =
      rw (run_state, e) (read_and_decode-Fits base64 read len 0 c w)
  run_state_at c w frame_complete e =
      rw (run_state, e) (stop-Fits len err none (some eio) c w (λ n. none_lem (suc n)))
  run_state_at c w err e =
      rw (run_state, e) (stop-Fits len err none (some eio) c w (λ n. none_lem (suc n)))

  -- Whatever the reads return, `webSocketsDecodeHybi` writes at most `len` bytes into the buffer of
  -- its caller, and where it returns a number that is not 0, it has written that many.
  pub decode_hybi-Fits : (c : Context) (w : W) → Fits len (decode_hybi base64 read len c w)
  unfolding decode_hybi
  decode_hybi-Fits c w =
      let f = run_state_at c w c.state refl in record { within = f.within; reported = f.reported }
