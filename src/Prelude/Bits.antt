-- ===== src/Prelude/Bits.antt =====
-- The bits of a number as Boolean values, and what the operations of C on flags do to them.
use Prim.Native.Nat.{
  ℕ, zero, suc, ◌+◌, ◌-◌, ◌*◌, ◌/◌, ◌%◌, ◌^◌, ◌<◌, ◌≤◌, min, max, bit_and, bit_or, digits, bitwise,
  bit_and-bitwise, bit_or-bitwise,
}
use mathlib.Core.Path.{◌≡◌, refl, ap, ◌∙◌}
use mathlib.Core.Bool.{Bool, false, ◌&&◌, ◌||◌, not}
use native.Mathlib.Omega.{arith}
use native.Mathlib.Nat.{pow-suc}
use asio_extensions.Prelude.Tests.{◌==◌}

-- the bit of the given place
abbrev pub bit : ℕ → ℕ → Bool
bit zero x = x % 2 == 1
bit (suc k) x = bit k (x / 2)

-- `~x` of `w` bits
abbrev pub flip : ℕ → ℕ → ℕ
flip w x = 2 ^ w - 1 - x

-- `(flags & mask) != 0`
abbrev pub has : ℕ → ℕ → Bool
has flags mask = not (bit_and flags mask == 0)

-- The fuel of a native operation does not matter beyond the first number.
module _ (z : ℕ → ℕ) (f : ℕ → ℕ → ℕ) where
  fuel_free : (n m a b : ℕ) → a ≤ n → a ≤ m → digits z f n a b ≡ digits z f m a b
  fuel_free zero zero zero b p q = refl
  fuel_free zero (suc m) zero b p q = refl
  fuel_free (suc n) zero zero b p q = refl
  fuel_free (suc n) (suc m) zero b p q = refl
  fuel_free (suc n) (suc m) (suc a) b p q =
      ap (λ (t : ℕ). t * 2 + f (suc a % 2) (b % 2))
        (fuel_free n m (suc a / 2) (b / 2) (omega arith) (omega arith))
  fuel_free zero m (suc a) b p q = absurd (omega arith)
  fuel_free (suc n) zero (suc a) b p q = absurd (omega arith)

  lowest :
      (a b : ℕ)
      → bitwise z f (suc a) b ≡ bitwise z f (suc a / 2) (b / 2) * 2 + f (suc a % 2) (b % 2)
  lowest a b =
      ap (λ (t : ℕ). t * 2 + f (suc a % 2) (b % 2))
        (fuel_free a (suc a / 2) (suc a / 2) (b / 2) (omega arith) (omega arith))

or_lowest : (a b : ℕ) → bit_or a b ≡ bit_or (a / 2) (b / 2) * 2 + max (a % 2) (b % 2)
or_lowest zero b = simp bit_or-bitwise (omega arith)
or_lowest (suc a) b = simp bit_or-bitwise (lowest (λ y. y) max a b)

and_lowest : (a b : ℕ) → bit_and a b ≡ bit_and (a / 2) (b / 2) * 2 + min (a % 2) (b % 2)
and_lowest zero b = simp bit_and-bitwise (omega arith)
and_lowest (suc a) b = simp bit_and-bitwise (lowest (λ y. zero) min a b)

-- two numbers with the same half have the same bits above the lowest
half : (k q a : ℕ) → a / 2 ≡ q → bit (suc k) a ≡ bit k q
half k q a e = ap (bit k) e

pub bit-bit_or : (k a b : ℕ) → bit k (bit_or a b) ≡ (bit k a || bit k b)
bit-bit_or zero a b = let e = or_lowest a b in ground arith
bit-bit_or (suc k) a b =
    let e = or_lowest a b in
    half k (bit_or (a / 2) (b / 2)) (bit_or a b) (omega arith) ∙ bit-bit_or k (a / 2) (b / 2)

-- Each operation goes bit by bit.
pub bit-bit_and : (k a b : ℕ) → bit k (bit_and a b) ≡ (bit k a && bit k b)
bit-bit_and zero a b = let e = and_lowest a b in ground arith
bit-bit_and (suc k) a b =
    let e = and_lowest a b in
    half k (bit_and (a / 2) (b / 2)) (bit_and a b) (omega arith) ∙ bit-bit_and k (a / 2) (b / 2)

pub bit-flip : (k w b : ℕ) → k < w → b < 2 ^ w → bit k (flip w b) ≡ not (bit k b)
bit-flip k zero b lt fits = absurd (omega arith)
bit-flip zero (suc w) b lt fits = let p = pow-suc 2 w in ground arith
bit-flip (suc k) (suc w) b lt fits =
    let p = pow-suc 2 w in
    half k (flip w (b / 2)) (flip (suc w) b) (omega arith)
    ∙ bit-flip k w (b / 2) (omega arith) (omega arith)

pub bit_zero : (k : ℕ) → bit k 0 ≡ false
bit_zero zero = refl
bit_zero (suc k) = bit_zero k

pub bit-power : (k j : ℕ) → bit k (2 ^ j) ≡ (k == j)
bit-power zero zero = refl
bit-power zero (suc j) = let p = pow-suc 2 j in ground arith
bit-power (suc k) zero = bit_zero k ∙ ground arith
bit-power (suc k) (suc j) =
    let p = pow-suc 2 j in half k (2 ^ j) (2 ^ suc j) (omega arith) ∙ bit-power k j ∙ ground arith

and_zero : (a : ℕ) (n : ℕ) → a ≤ n → bit_and a 0 ≡ 0
and_zero zero n h = refl
and_zero (suc a) zero h = absurd (omega arith)
and_zero (suc a) (suc n) h =
    let e = and_lowest (suc a) 0 in let r = and_zero (suc a / 2) n (omega arith) in omega arith

-- Testing against one bit.
pub has-power : (k a : ℕ) → has a (2 ^ k) ≡ bit k a
has-power zero a =
    let e = and_lowest a 1 in let r = and_zero (a / 2) (a / 2) (omega arith) in ground arith
has-power (suc k) a =
    let e = and_lowest a (2 ^ suc k) in
    let p = pow-suc 2 k in
    let halved : 2 ^ suc k / 2 ≡ 2 ^ k = omega arith in
    let e' = rw halved at e in
    let same : has a (2 ^ suc k) ≡ has (a / 2) (2 ^ k) = ground arith in same ∙ has-power k (a / 2)

-- It stays within the width.
pub bit_or_fits : (w a b : ℕ) → a < 2 ^ w → b < 2 ^ w → bit_or a b < 2 ^ w
bit_or_fits zero a b p q =
    let e : a ≡ 0 = omega arith in let f : b ≡ 0 = omega arith in rw (e, f) (omega arith)
bit_or_fits (suc w) a b p q =
    let s = pow-suc 2 w in
    let e = or_lowest a b in
    let h = bit_or_fits w (a / 2) (b / 2) (omega arith) (omega arith) in omega arith

one_le_pow : (w : ℕ) → 1 ≤ 2 ^ w
one_le_pow zero = omega arith
one_le_pow (suc w) = let s = pow-suc 2 w in let h = one_le_pow w in omega arith

pub power_fits : (u w : ℕ) → u < w → 2 ^ u < 2 ^ w
power_fits u zero h = absurd (omega arith)
power_fits zero (suc w) h = let s = pow-suc 2 w in let p = one_le_pow w in omega arith
power_fits (suc u) (suc w) h =
    let s = pow-suc 2 u in
    let t = pow-suc 2 w in let r = power_fits u w (omega arith) in omega arith

zero_and : (b : ℕ) → bit_and zero b ≡ 0
zero_and b = simp bit_and-bitwise refl

bit_and_le_fuel : (n a b : ℕ) → a ≤ n → bit_and a b ≤ b
bit_and_le_fuel zero zero b h = omega (arith, zero_and b)
bit_and_le_fuel zero (suc a) b h = absurd (omega arith)
bit_and_le_fuel (suc n) zero b h = omega (arith, zero_and b)
bit_and_le_fuel (suc n) (suc a) b h =
    let e = and_lowest (suc a) b in
    let r = bit_and_le_fuel n (suc a / 2) (b / 2) (omega arith) in omega arith

-- A mask is a bound.
pub bit_and_le : (a b : ℕ) → bit_and a b ≤ b
bit_and_le a b = bit_and_le_fuel a a b (omega arith)
