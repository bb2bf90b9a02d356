-- ===== src/Prelude/Tables.antt =====
-- Facts about all bytes by evaluation.
use Prim.Native.Nat.{ℕ, zero, suc, ◌<◌}
use mathlib.Core.Path.{◌≡◌}
use mathlib.Core.Bool.{Bool, true, false, ◌&&◌}
use native.Mathlib.Omega.{arith}

abbrev all_below : ℕ → (ℕ → Bool) → Bool
all_below zero p = true
all_below (suc n) p = p n && all_below n p

pub all_below_sound : (n : ℕ) (p : ℕ → Bool) (x : ℕ) → all_below n p ≡ true → x < n → p x ≡ true
all_below_sound zero p x h lt = absurd (omega arith)
all_below_sound (suc n) p x h lt = ground (arith, all_below_sound n p x)

-- equality of Boolean values
abbrev pub beq : Bool → Bool → Bool
beq true b = b
beq false true = false
beq false false = true

pub beq-eq : (a b : Bool) → beq a b ≡ true → a ≡ b
beq-eq a b h = ground arith
