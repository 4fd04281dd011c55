-- ===== src/Websocket/Examples.antt =====
-- The frames of libvncserver/websockets.c on small payloads.
use libvncserver.Base.{
  ℕ, zero, suc, false, List, [], ◌∷◌, ◌≡◌, refl, arith, Option, none, some, length, drop, take,
}
use libvncserver.Websocket.Context.{Context, ReadResult, received, header_pending}
use libvncserver.Websocket.Decode.{decode_hybi}
use libvncserver.Websocket.Bounds.{Fits, decode_hybi-Fits}
use libvncserver.Websocket.Encode.{encode, declared, encode_declares, encode_wraps}

-- A Base64 encoder that never has the room it needs.
abbrev no_room : List ℕ → ℕ → Option (List ℕ)
no_room bytes size = none

encode_declares_example :
    (frame : List ℕ) × (place : ℕ) × (encode no_room 100 false (1 ∷ 2 ∷ 3 ∷ []) ≡ some frame)
    × (declared frame ≡ some (3, place))
    × (drop place frame ≡ 1 ∷ 2 ∷ 3 ∷ [])
encode_declares_example = encode_declares no_room 100 1 (2 ∷ 3 ∷ []) (omega arith) (omega arith)

abbrev zeros : ℕ → List ℕ
zeros zero = []
zeros (suc n) = 0 ∷ zeros n

length-zeros : (n : ℕ) → length (zeros n) ≡ n
length-zeros zero = refl
length-zeros (suc n) = omega (arith, length-zeros n)

encode_wraps_example :
    (frame : List ℕ) × (encode no_room 100 false (0 ∷ zeros 65535) ≡ some frame)
    × (declared frame ≡ some (0, 4))
encode_wraps_example = encode_wraps no_room 100 0 (zeros 65535) (omega (arith, length-zeros 65535))

-- A socket with the bytes of the world, of which it gives at most the wanted ones.
abbrev socket : ℕ → List ℕ → ReadResult × List ℕ
socket n bytes = (received (take n bytes), drop n bytes)

abbrev new_context : Context
new_context = record {
  buf = λ i. 0;
  write_pos = none;
  read_pos = none;
  read_len = some 0;
  state = header_pending;
  carry = [];
  header = record {
    n_read = 0;
    mask = 0 ∷ 0 ∷ 0 ∷ 0 ∷ [];
    header_len = 0;
    payload_len = 0;
    opcode = 255;
    fin = 0;
  };
  n_read_payload = 0;
  continuation = 255;
}

-- A masked binary frame of three bytes.
abbrev three_bytes : List ℕ
three_bytes = 0x82 ∷ 0x83 ∷ 1 ∷ 2 ∷ 3 ∷ 4 ∷ 8 ∷ 8 ∷ 8 ∷ []

decode_hybi-Fits_example : Fits 2 (decode_hybi no_room socket 2 new_context three_bytes)
decode_hybi-Fits_example = decode_hybi-Fits no_room socket 2 new_context three_bytes
