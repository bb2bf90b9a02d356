-- ===== src/Times/Cast.antt =====
-- What `safe_duration_cast` accepts.
use asio_extensions.Prelude.{
  ℕ, ◌*◌, ◌/◌, ◌≤◌, ◌<◌, ◌≡◌, ◌⊎◌, inl, inr, refl, true, false, ◌&&◌, Bool-cases, none, some, ◌==◌,
  if◌then◌else◌, ℤ, pos, negsuc, ◌≤ℤ◌, ◌<ℤ◌, scale, quot, leb, leb_ℤ, scale_parts, nonpos_part,
  nonneg_part, ap, ◌∙◌, suc, quot_parts, pos_part, neg_part, arith,
}
use native.Mathlib.Nat.{zero-div, div-lt_iff_lt-mul, le-div_iff_mul-le}
use asio_extensions.Times.{Limits, safe_duration_cast}

div_le : (n k l : ℕ) → 0 < k → ((n ≤ l / k) × (n * k ≤ l)) ⊎ ((l / k < n) × (l < n * k))
div_le n k l h = elim (Bool-cases (leb n (l / k))) [
  | inl le ↦ inl (ground arith, (le-div_iff_mul-le h).0 (ground arith))
  | inr gt ↦ inr (ground arith, (div-lt_iff_lt-mul h).0 (ground arith))
]

-- The branch of `safe_duration_cast` for such periods.
up_branch :
    (num : ℕ) (l : Limits) (c : ℤ)
    → 1 < num
    → safe_duration_cast num 1 l c
      ≡ (if leb_ℤ (quot l.lo num) c && leb_ℤ c (quot l.hi num) then some (scale c num) else none)
unfolding safe_duration_cast
up_branch num l c h = let other : (num == 1) ≡ false = ground arith in rw other refl

-- A cast to a period of which `num` fit in the old one gives the count times `num` just where that is
-- within the limits, which hold 0; it gives nothing otherwise.
pub cast_up :
    (num : ℕ) (l : Limits) (c : ℤ)
    → 1 < num
    → l.lo ≤ℤ pos 0
    → pos 0 ≤ℤ l.hi
    → ((safe_duration_cast num 1 l c ≡ some (scale c num))
        × (l.lo ≤ℤ scale c num)
        × (scale c num ≤ℤ l.hi))
      ⊎ ((safe_duration_cast num 1 l c ≡ none) × ((scale c num <ℤ l.lo) ⊎ (l.hi <ℤ scale c num)))
cast_up num l (pos n) h lo hi =
    let scaled = scale_parts (pos n) num in
    let low = quot_parts l.lo num in
    let high = quot_parts l.hi num in
    let no_low = ap (λ (k : ℕ). k / num) (nonpos_part l.lo lo) ∙ zero-div num in
    let no_high = ap (λ (k : ℕ). k / num) (nonneg_part l.hi hi) ∙ zero-div num in
    let low_sign = nonpos_part l.lo lo in
    let high_sign = nonneg_part l.hi hi in
    let low_test : leb_ℤ (quot l.lo num) (pos n) ≡ true = ground arith in
    elim (div_le n num (pos_part l.hi) (omega arith)) [
      | inr (over, past) ↦
          let high_test : leb_ℤ (pos n) (quot l.hi num) ≡ false = ground arith in
          inr (up_branch num l (pos n) h ∙ rw (low_test, high_test) refl, inr (omega arith))
      | inl (le, within) ↦
          let high_test : leb_ℤ (pos n) (quot l.hi num) ≡ true = ground arith in
          inl (up_branch num l (pos n) h ∙ rw (low_test, high_test) refl, omega arith, omega arith)
    ]
cast_up num l (negsuc n) h lo hi =
    let scaled = scale_parts (negsuc n) num in
    let low = quot_parts l.lo num in
    let high = quot_parts l.hi num in
    let no_low = ap (λ (k : ℕ). k / num) (nonpos_part l.lo lo) ∙ zero-div num in
    let no_high = ap (λ (k : ℕ). k / num) (nonneg_part l.hi hi) ∙ zero-div num in
    let low_sign = nonpos_part l.lo lo in
    let high_sign = nonneg_part l.hi hi in
    let high_test : leb_ℤ (negsuc n) (quot l.hi num) ≡ true = ground arith in
    elim (div_le (suc n) num (neg_part l.lo) (omega arith)) [
      | inr (over, past) ↦
          let low_test : leb_ℤ (quot l.lo num) (negsuc n) ≡ false = ground arith in
          inr (up_branch num l (negsuc n) h ∙ rw low_test refl, inl (omega arith))
      | inl (le, within) ↦
          let low_test : leb_ℤ (quot l.lo num) (negsuc n) ≡ true = ground arith in
          inl
            (up_branch num l (negsuc n) h ∙ rw (low_test, high_test) refl, omega arith, omega arith)
    ]
