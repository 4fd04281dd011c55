-- ===== src/Websocket/Encode.antt =====
-- `webSocketsEncodeHybi` of libvncserver/websockets.c.
use Prim.Native.Nat.{bit_and, bit_or}
use libvncserver.Base.{
  ℕ, ◌+◌, ◌-◌, ◌*◌, ◌/◌, ◌%◌, ◌^◌, ◌<◌, Bool, false, List, [], ◌∷◌, ◌++◌, ◌==◌, if◌then◌else◌,
  Option, none, some, leb, length, take, drop, ◌≡◌, ◌≢◌, refl, arith, Bool-cases, inl, inr, ap, ◌∙◌,
}
use libvncserver.Websocket.Context.{opcode_text, opcode_binary}
use libvncserver.Websocket.Header.{big_endian}

-- `B64LEN`
abbrev pub b64_len : ℕ → ℕ
b64_len n = (n + 2) / 3 * 12 / 3

-- `WS_HTON16((uint16_t)n)` and `WS_HTON64(n)` as bytes
pub bytes_16 : ℕ → List ℕ
bytes_16 n = n / 256 % 256 ∷ n % 256 ∷ []

pub bytes_64 : ℕ → List ℕ
unfolding bytes_16
bytes_64 n =
    n / 2 ^ 56 % 256
    ∷ n / 2 ^ 48 % 256
    ∷ n / 2 ^ 40 % 256
    ∷ n / 2 ^ 32 % 256
    ∷ n / 2 ^ 24 % 256
    ∷ n / 2 ^ 16 % 256
    ∷ n / 2 ^ 8 % 256
    ∷ n % 256
    ∷ []

-- The header before a payload of `blen` bytes.
pub frame_header : ℕ → ℕ → List ℕ
unfolding bytes_16 bytes_64
frame_header opcode blen =
    let b0 = bit_or 0x80 (bit_and opcode 0x0f) in
    if leb blen 125
    then b0 ∷ blen % 256 ∷ []
    else if leb blen 65536
    then b0 ∷ 0x7e ∷ bytes_16 blen
    else b0 ∷ 0x7f ∷ bytes_64 blen

-- What is left at `*dst` and its length as the return value: none for -1, where the Base64 encoder
-- `ntop` (`rfbBase64NtoP`, with the room that it is given) fails. The result is at most the buffer.
pub encode : (List ℕ → ℕ → Option (List ℕ)) → ℕ → Bool → List ℕ → Option (List ℕ)
unfolding frame_header
encode ntop size base64 [] = some []
encode ntop size base64 (b ∷ src) =
    if base64
    then (let h = frame_header opcode_text (b64_len (length (b ∷ src))) in
        elim (ntop (b ∷ src) (size - length h)) [ none ↦ none | some text ↦ some (h ++ text) ])
    else some (frame_header opcode_binary (length (b ∷ src)) ++ (b ∷ src))

-- The payload length that RFC 6455 reads from a frame with no mask, and the payload's place.
pub declared : List ℕ → Option (ℕ × ℕ)
unfolding big_endian
declared [] = none
declared (b0 ∷ []) = none
declared (b0 ∷ b1 ∷ rest) =
    if b1 % 128 == 126
    then some (big_endian 0 (take 2 rest), 4)
    else if b1 % 128 == 127
    then some (big_endian 0 (take 8 rest), 10)
    else some (b1 % 128, 2)

bytes_16_value : (n : ℕ) → big_endian 0 (bytes_16 n) ≡ n % 2 ^ 16
unfolding bytes_16 big_endian
bytes_16_value n = omega arith

bytes_64_value : (n : ℕ) → n < 2 ^ 64 → big_endian 0 (bytes_64 n) ≡ n
unfolding bytes_64 big_endian
bytes_64_value n h = omega arith

-- The header of a payload declares its length and where it starts.
Declares : ℕ → List ℕ → List ℕ → Type 0
unfolding declared
Declares n h src =
    (place : ℕ) × (declared (h ++ src) ≡ some (n, place)) × (drop place (h ++ src) ≡ src)

frame_header-Declares :
    (opcode n : ℕ) (src : List ℕ) → n ≢ 65536 → n < 2 ^ 64 → Declares n (frame_header opcode n) src
unfolding Declares frame_header declared bytes_16 bytes_64
frame_header-Declares opcode n src ne lt = elim (Bool-cases (leb n 125)) [
  | inl e ↦ rw e ((2, ground arith, refl))
  | inr e ↦ rw e (elim (Bool-cases (leb n 65536)) [
    | inl t ↦ rw t (4, ap (λ k. some (k, 4)) (bytes_16_value n ∙ ground arith), refl)
    | inr t ↦ rw t (10, ap (λ k. some (k, 10)) (bytes_64_value n lt), refl)
  ])
]

-- A binary frame of a payload that is not empty and has fewer than 2 ^ 64 bytes declares the length
-- of its payload and where it starts, unless that is of 65536 bytes.
pub encode_declares :
    (ntop : List ℕ → ℕ → Option (List ℕ)) (size b : ℕ) (src : List ℕ)
    → length (b ∷ src) ≢ 65536
    → length (b ∷ src) < 2 ^ 64
    → (frame : List ℕ) × (place : ℕ) × (encode ntop size false (b ∷ src) ≡ some frame)
      × (declared frame ≡ some (length (b ∷ src), place))
      × (drop place frame ≡ b ∷ src)
unfolding encode Declares
encode_declares ntop size b src ne lt =
    let d = frame_header-Declares opcode_binary (length (b ∷ src)) (b ∷ src) ne lt in
    (frame_header opcode_binary (length (b ∷ src)) ++ (b ∷ src), d.0, refl, d.1, d.2)

-- A binary frame of 65536 bytes declares a payload of none.
pub encode_wraps :
    (ntop : List ℕ → ℕ → Option (List ℕ)) (size b : ℕ) (src : List ℕ)
    → length (b ∷ src) ≡ 65536
    → (frame : List ℕ) × (encode ntop size false (b ∷ src) ≡ some frame)
      × (declared frame ≡ some (0, 4))
unfolding encode declared frame_header bytes_16
encode_wraps ntop size b src e = (
  frame_header opcode_binary (length (b ∷ src)) ++ (b ∷ src),
  refl,
  rw e (ap (λ k. some (k, 4)) (bytes_16_value 65536)),
)
