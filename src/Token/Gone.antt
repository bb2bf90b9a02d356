-- ===== src/Token/Gone.antt =====
-- Places whose source is gone, and the calls that leave it so.
use asio_extensions.Prelude.{ℕ, ◌≡◌, refl, Bool, false, ◌==◌, Bool-cases, inl, inr, arith}
use asio_extensions.Token.{
  empty, World, Call, constructs, cancels, destroys, resets, move_constructs, move_assigns, call,
}

-- the calls that give a source to a place
abbrev pub gives : ℕ → Call → Bool
gives i (constructs j) = j == i
gives i (cancels j) = j == i
gives i (destroys j) = false
gives i (resets j) = j == i
gives i (move_constructs j k) = j == i
gives i (move_assigns j k) = j == i

pub call-empty :
    (c : Call) (i : ℕ) (w : World)
    → gives i c ≡ false
    → w.sources i ≡ empty
    → (call c w).sources i ≡ empty
unfolding call
call-empty (constructs j) i w h e = let apart : (i == j) ≡ false = ground arith in rw apart e
call-empty (cancels j) i w h e = let apart : (i == j) ≡ false = ground arith in rw apart e
call-empty (destroys j) i w h e = elim (Bool-cases (i == j)) [
  | inl same ↦ rw same refl
  | inr apart ↦ rw apart e
]
call-empty (resets j) i w h e = let apart : (i == j) ≡ false = ground arith in rw apart e
call-empty (move_constructs j k) i w h e =
    let apart : (i == j) ≡ false = ground arith in
    elim (Bool-cases (j == k)) [
      | inl same ↦ rw same e
      | inr other ↦ elim (Bool-cases (i == k)) [
        | inl left ↦ rw (other, apart, left) refl
        | inr third ↦ rw (other, apart, third) e
      ]
    ]
call-empty (move_assigns j k) i w h e =
    let apart : (i == j) ≡ false = ground arith in
    elim (Bool-cases (j == k)) [
      | inl same ↦ rw same e
      | inr other ↦ elim (Bool-cases (i == k)) [
        | inl left ↦ rw (other, apart, left) refl
        | inr third ↦ rw (other, apart, third) e
      ]
    ]
