-- ===== src/Windows/Path.antt =====
-- Names of files on Windows: include/asioext/detail/impl/win_path.cpp and
-- include/asioext/detail/win_path.hpp.
--
-- A name of UTF-8 is converted by `MultiByteToWideChar`, a parameter: how many characters it writes
-- into a block of a given length, where 0 is an error, but for a block of no length, where it is how
-- many characters are needed. Whether there is memory is a parameter, too. What is kept of the
-- characters is where their zero stands.
use asio_extensions.Prelude.{
  ℕ, suc, ◌<◌, ◌≤◌, ◌≡◌, ◌≢◌, ◌⊎◌, inl, inr, refl, Bool, true, Option, none, some, ◌==◌, ==_iff,
  leb, if◌then◌else◌, Bool-cases, arith,
}
use asio_extensions.Posix.{Code, no_error, system}

abbrev pub max_path : ℕ
max_path = 260

-- the length of `heap_memory_`, where there is one; the place of the zero behind the name; the error
pub record WinPath : Type 0 where
  pub heap_memory : Option ℕ
  pub zero_at : Option ℕ
  pub code : Code

-- the length of the block that `c_str` points to
abbrev pub c_str_length : Option ℕ → ℕ
c_str_length none = suc max_path
c_str_length (some length) = length

module _ (multi_byte_to_wide_char : ℕ → ℕ) (has_memory : ℕ → Bool) (no_memory last_error : ℕ) where
  abbrev converted : Option ℕ → ℕ → WinPath
  converted heap new_length =
      if new_length == 0
      then record { heap_memory = heap; zero_at = some new_length; code = system last_error }
      else record { heap_memory = heap; zero_at = some new_length; code = no_error }

  pub win_path : ℕ → WinPath
  win_path len =
      let needed = multi_byte_to_wide_char 0 in
      if leb max_path len
      then (if has_memory (suc needed)
          then converted (some (suc needed)) (multi_byte_to_wide_char needed)
          else record { heap_memory = none; zero_at = none; code = system no_memory })
      else converted none (multi_byte_to_wide_char max_path)

-- The name that needs as many characters as the system says is converted as a whole, its zero is
-- written inside of the block that `c_str` points to, and there is an error just where the name cannot
-- be converted. The memory suffices, a block that is long enough takes the name, and a name needs no
-- more characters than it has bytes.
pub win_path_converts :
    (convert : ℕ → ℕ) (has_memory : ℕ → Bool) (no_memory last_error len : ℕ)
    → has_memory (suc (convert 0)) ≡ true
    → ((capacity : ℕ) → convert 0 ≤ capacity → convert capacity ≡ convert 0)
    → convert 0 ≤ len
    → let path = win_path convert has_memory no_memory last_error len in
      (path.zero_at ≡ some (convert 0))
      × (convert 0 < c_str_length path.heap_memory)
      × (((convert 0 ≡ 0) × (path.code ≡ system last_error))
          ⊎ ((convert 0 ≢ 0) × (path.code ≡ no_error)))
unfolding win_path
win_path_converts convert has_memory no_memory last_error len room takes short =
    elim (Bool-cases (leb max_path len)) [
      | inl long ↦ elim (Bool-cases (convert 0 == 0)) [
        | inl bad ↦
            rw (long, room, takes (convert 0) (omega arith), bad)
              (refl, omega arith, inl ((==_iff (convert 0) 0).0 bad, refl))
        | inr good ↦
            rw (long, room, takes (convert 0) (omega arith), good)
              (refl, omega arith, inr (λ e. ground arith, refl))
      ]
      | inr fits ↦
          let below : convert 0 ≤ max_path = ground arith in
          elim (Bool-cases (convert 0 == 0)) [
            | inl bad ↦
                rw (fits, takes max_path below, bad)
                  (refl, omega arith, inl ((==_iff (convert 0) 0).0 bad, refl))
            | inr good ↦
                rw (fits, takes max_path below, good)
                  (refl, omega arith, inr (λ e. ground arith, refl))
          ]
    ]
