-- ===== src/Websocket/Quiet.antt =====
-- What hybiReadHeader of libvncserver/ws_decode.c reports as the result of a read.
use libvncserver.Base.{
  Option-cases, ℕ, suc, List, [], ◌∷◌, ◌≡◌, refl, Bool-cases, inl, inr, Option, none, some, ltb,
  ◌||◌, ◌==◌, ◌≢◌, ◌⊎◌, if◌then◌else◌,
}
use libvncserver.Websocket.Context.{Errno, eproto, of_read, Context, ReadResult, failed, received}
use Prim.Native.Nat.{bit_and}
use libvncserver.Websocket.Header.{
  HeaderResult, pending, abort, closed, finish_header, parse_length, is_wrongly_encoded, read_rest,
  missing, store, interpret, parse_opcode, read_header,
}

-- To split on what a call returns.
pub ReadResult-cases :
    (r : ReadResult)
    → ((e : ℕ) × (r ≡ failed e))
      ⊎ ((r ≡ received []) ⊎ ((b : ℕ) × (bytes : List ℕ) × (r ≡ received (b ∷ bytes))))
ReadResult-cases (failed e) = inl (e, refl)
ReadResult-cases (received []) = inr (inl refl)
ReadResult-cases (received (b ∷ bytes)) = inr (inr (b, bytes, refl))

pub none_lem : (n : ℕ) → ◌≢◌ {A = Option ℕ} none (some n)
none_lem n e = cc

pub zero_lem : (n : ℕ) → ◌≢◌ {A = Option ℕ} (some 0) (some (suc n))
zero_lem n e = cc

-- Reading a header reports no data.
abbrev pub IsQuiet : {W : Type 0} → HeaderResult W → Type 0
IsQuiet h = (n : ℕ) → h.sock_ret ≢ some (suc n)

module _ {W : Type 0} where
  pending-IsQuiet : (c : Context) (w : W) → IsQuiet (pending c w)
  unfolding pending
  pending-IsQuiet c w n = none_lem (suc n)

  abort-IsQuiet : (e : Errno) (c : Context) (w : W) → IsQuiet (abort e c w)
  unfolding abort
  abort-IsQuiet e c w n = none_lem (suc n)

  closed-IsQuiet : (c : Context) (w : W) → IsQuiet (closed c w)
  unfolding closed
  closed-IsQuiet c w = zero_lem

  finish_header-IsQuiet : (c : Context) (w : W) → IsQuiet (finish_header c w)
  unfolding finish_header
  finish_header-IsQuiet c w = elim (Option-cases (parse_length c)) [
    | inl e ↦ rw (finish_header, e) (pending-IsQuiet c w)
    | inr (c', e) ↦
        rw (finish_header, e)
          (elim (Bool-cases (is_wrongly_encoded c'.header)) [
            | inl t ↦ rw t (abort-IsQuiet eproto c' w)
            | inr t ↦ rw t (λ n. none_lem (suc n))
          ])
  ]

module _ {W : Type 0} (read : ℕ → W → ReadResult × W) where
  read_rest-IsQuiet : (c : Context) (w : W) → IsQuiet (read_rest read c w)
  unfolding read_rest
  read_rest-IsQuiet c w =
      let l = c.header.payload_len in
      let r = read (missing (if l == 126 then 8 else 14) c) w in
      elim (Bool-cases (l == 126 || l == 127)) [
        | inl t ↦ rw t (elim (ReadResult-cases r.0) [
          | inl (e, q) ↦ rw q (abort-IsQuiet (of_read e) c r.1)
          | inr (inl q) ↦ rw q (closed-IsQuiet c r.1)
          | inr (inr (b, bytes, q)) ↦ rw q (finish_header-IsQuiet (store c (b ∷ bytes)) r.1)
        ])
        | inr t ↦ rw t (finish_header-IsQuiet c w)
      ]

  interpret-IsQuiet : (c : Context) (w : W) → IsQuiet (interpret read c w)
  unfolding interpret
  interpret-IsQuiet c w =
      let p = parse_opcode c in
      let c' : Context = record p.0 {
        header = record p.0.header { payload_len = bit_and (c.buf 1) 0x7f };
      } in
      elim (Bool-cases p.1) [
        | inl t ↦ rw t (elim (Bool-cases (bit_and (c.buf 1) 0x80 == 0)) [
          | inl u ↦ rw u (abort-IsQuiet eproto c' w)
          | inr u ↦ rw u (read_rest-IsQuiet c' w)
        ])
        | inr t ↦ rw t (abort-IsQuiet eproto p.0 w)
      ]

  pub read_header-IsQuiet : (c : Context) (w : W) → IsQuiet (read_header read c w)
  unfolding read_header
  read_header-IsQuiet c w =
      let r = read (missing 6 c) w in
      elim (ReadResult-cases r.0) [
        | inl (e, q) ↦ rw (read_header, q) (abort-IsQuiet (of_read e) c r.1)
        | inr (inl q) ↦ rw (read_header, q) (closed-IsQuiet c r.1)
        | inr (inr (b, bytes, q)) ↦
            let c' = store c (b ∷ bytes) in
            rw (read_header, q)
              (elim (Bool-cases (ltb c'.header.n_read 2)) [
                | inl t ↦ rw t (pending-IsQuiet c' r.1)
                | inr t ↦ rw t (interpret-IsQuiet c' r.1)
              ])
      ]
