-- ===== src/Base/Loop.antt =====
-- A `while` loop over a state, on fuel, and its rule.
use Prim.Native.Nat.{ℕ, zero, suc, ◌<◌, ◌≤◌}
use mathlib.Core.Path.{◌≡◌}
use mathlib.Core.Logic.{inl, inr}
use mathlib.Core.Bool.{Bool, true, false}
use native.Mathlib.Omega.{arith}
use libvncserver.Base.Tests.{Bool-cases}

-- A round is the body at a state that passes the test; no state is changed beyond the last round.
unfoldable pub while : {S : Type 0} → ℕ → (S → Bool) → (S → S) → S → S
while zero go round now = now
while (suc left) go round now = elim (go now) [
  | false ↦ now
  | true ↦ while left go round (round now)
]

-- What one round does to an invariant and a rank.
module _ {S : Type 0} (Inv : S → Type 0) (rank : S → ℕ) (go : S → Bool) (round : S → S)
    (keep : (now : S)
      → Inv now
      → go now ≡ true
      → Inv (round now) × (rank (round now) < rank now)) where
  -- The loop stops by its test, with the invariant, where the rounds exceed the rank.
  pub while_inv :
      (left : ℕ) (now : S)
      → rank now < left
      → Inv now
      → Inv (while left go round now) × (go (while left go round now) ≡ false)
  unfolding while
  while_inv zero now m h = absurd (omega arith)
  while_inv (suc left) now m h = elim (Bool-cases (go now)) [
    | inl more ↦
        let next = keep now h more in
        rw (more, while) (while_inv left (round now) (omega (arith, next.1, m)) next.0)
    | inr stop ↦ rw (stop, while) (h, stop)
  ]

  -- Above the rank, more rounds make no difference: the loop has ended by itself.
  pub while_fuel :
      (left more : ℕ) (now : S)
      → rank now < left
      → left ≤ more
      → Inv now
      → while more go round now ≡ while left go round now
  unfolding while
  while_fuel zero more now m le h = absurd (omega arith)
  while_fuel (suc left) zero now m le h = absurd (omega arith)
  while_fuel (suc left) (suc more) now m le h = elim (Bool-cases (go now)) [
    | inl t ↦
        let next = keep now h t in
        rw (t, while)
          (while_fuel left more (round now) (omega (arith, next.1, m)) (omega arith) next.0)
    | inr stop ↦ rw (stop, while)
  ]
