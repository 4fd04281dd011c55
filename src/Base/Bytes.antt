-- ===== src/Base/Bytes.antt =====
-- Numbers as bytes: little-endian in the memory of the machine, big-endian on the wire.
use Prim.Native.Nat.{ℕ, zero, suc, ◌+◌, ◌*◌, ◌/◌, ◌%◌, ◌^◌, ◌<◌}
use mathlib.Core.Path.{◌≡◌}
use mathlib.Core.Option.{Option, none, some}
use mathlib.Core.List.{List, [], ◌∷◌, ◌++◌}
use native.Mathlib.Omega.{arith}

-- What a read gives: a value and the bytes behind it, or none where there are too few.
abbrev pub Read : Type 0 → Type 0
Read A = Option (A × List ℕ)

infixl 5 ◌>>=◌
abbrev pub ◌>>=◌ : {A B : Type 0} → Option A → (A → Option B) → Option B
none >>= f = none
some a >>= f = f a

-- 256 ^ n
abbrev pub limit : ℕ → ℕ
limit zero = 1
limit (suc n) = 256 * limit n

unfoldable pub put_le : ℕ → ℕ → List ℕ
put_le zero v = []
put_le (suc n) v = v % 256 ∷ put_le n (v / 256)

unfoldable pub get_le : ℕ → List ℕ → Read ℕ
get_le zero bytes = some (0, bytes)
get_le (suc n) [] = none
get_le (suc n) (b ∷ bytes) = get_le n bytes >>= λ (r : ℕ × List ℕ). some (b + 256 * r.0, r.1)

unfoldable pub get_byte : List ℕ → Read ℕ
get_byte [] = none
get_byte (b ∷ bytes) = some (b, bytes)

unfoldable pub put_16 : ℕ → List ℕ
put_16 v = v / 256 % 256 ∷ v % 256 ∷ []

unfoldable pub get_16 : List ℕ → Read ℕ
get_16 (a ∷ b ∷ bytes) = some (a * 256 + b, bytes)
get_16 (a ∷ []) = none
get_16 [] = none

unfoldable pub put_32 : ℕ → List ℕ
unfolding put_16
put_32 v = put_16 (v / 2 ^ 16) ++ put_16 v

unfoldable pub get_32 : List ℕ → Read ℕ
unfolding get_16
get_32 bytes = get_16 bytes >>= λ (h : ℕ × List ℕ).
    get_16 h.1 >>= λ (l : ℕ × List ℕ). some (h.0 * 2 ^ 16 + l.0, l.1)

pub get_le-put_le :
    (n v : ℕ) (rest : List ℕ) → v < limit n → get_le n (put_le n v ++ rest) ≡ some (v, rest)
unfolding get_le put_le
get_le-put_le zero v rest h = ground arith
get_le-put_le (suc n) v rest h =
    rw (get_le-put_le n (v / 256) rest (omega (arith, h))) (ground arith)

pub get_16-put_16 :
    (v : ℕ) (rest : List ℕ) → v < 2 ^ 16 → get_16 (put_16 v ++ rest) ≡ some (v, rest)
unfolding get_16 put_16
get_16-put_16 v rest h = ground arith

pub get_32-put_32 :
    (v : ℕ) (rest : List ℕ) → v < 2 ^ 32 → get_32 (put_32 v ++ rest) ≡ some (v, rest)
unfolding get_32 put_32 get_16 put_16
get_32-put_32 v rest h = ground arith
