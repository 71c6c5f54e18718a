-- ===== src/Common/Loops.antt =====
-- `for k in start..start + rounds`, as a recursion on the rounds left, with its invariant rule.
use Prim.Native.Nat.{ℕ, zero, suc, ◌+◌, ◌≤◌, ◌<◌}
use native.Mathlib.Omega.{arith}

unfoldable pub for_range {ℓ} : {State : Type ℓ} → ℕ → ℕ → (ℕ → State → State) → State → State
for_range zero start step state = state
for_range (suc rounds) start step state = for_range rounds (start + 1) step (step start state)

-- What each round keeps, at the indices of the range, holds at its end.
module _ {ℓ κ} {State : Type ℓ} (Keeps : State → Type κ) where
  pub for_range_inv :
      (rounds start : ℕ) (step : ℕ → State → State)
      → ((k : ℕ) (state : State)
          → start ≤ k
          → k < start + rounds
          → Keeps state
          → Keeps (step k state))
      → (state : State) → Keeps state
      → Keeps (for_range rounds start step state)
  unfolding for_range
  for_range_inv zero start step each state holds = holds
  for_range_inv (suc rounds) start step each state holds =
      for_range_inv rounds (start + 1) step
        (λ k later above below. each k later (omega arith) (omega arith)) (step start state)
        (each start state (omega arith) (omega arith) holds)
