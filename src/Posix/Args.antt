-- ===== src/Posix/Args.antt =====
-- Arguments for opening files on POSIX systems: `open_args` of include/asioext/impl/open_args.hpp and
-- include/asioext/open_args.hpp.
use asio_extensions.Prelude.{
  ℕ, ◌≡◌, ◌<◌, refl, inl, inr, Bool, true, false, List, Option, none, some, bit, bit_and,
  if◌then◌else◌, Bool-cases,
}
use asio_extensions.Posix.Open.{Native, is_valid, parse_open_flags}
use asio_extensions.FileAttrs.{Row, file_attrs_to_native}
use asio_extensions.FileAttrs.Rows.{At, distinct, bit-file_attrs_to_native}
use asio_extensions.FileAttrs.After.{mode_kept}

-- `native_flags_`, where -1 is `none`, `mode_` and `attrs_`
pub record PosixArgs : Type 0 where
  pub native_flags : Option ℕ
  pub mode : ℕ
  pub attrs : ℕ

-- the constructor without arguments
abbrev pub no_args : PosixArgs
no_args = record { native_flags = none; mode = 0; attrs = 0 }

-- the other constructor; for flags that are not valid only one member is given a value
pub posix_open_args : Native → List Row → PosixArgs → ℕ → ℕ → ℕ → PosixArgs
posix_open_args native rows unset flags perms attrs =
    if is_valid flags
    then record {
      native_flags = some (parse_open_flags native flags);
      mode = bit_and perms 0x1ff;
      attrs = file_attrs_to_native rows attrs;
    }
    else record unset { native_flags = none }

abbrev pub has_flags : Option ℕ → Bool
has_flags none = false
has_flags (some flags) = true

abbrev pub is_valid_posix_args : PosixArgs → Bool
is_valid_posix_args args = has_flags args.native_flags

-- The arguments are valid just where the flags are, whatever the flags.
pub is_valid_posix_args-posix_open_args :
    (native : Native) (rows : List Row) (unset : PosixArgs) (flags perms attrs : ℕ)
    → is_valid_posix_args (posix_open_args native rows unset flags perms attrs) ≡ is_valid flags
unfolding posix_open_args
is_valid_posix_args-posix_open_args native rows unset flags perms attrs =
    elim (Bool-cases (is_valid flags)) [ inl valid ↦ rw valid refl | inr wrong ↦ rw wrong refl ]

-- For valid flags the mode has the permissions and the flags of the file have the attributes, each for
-- itself.
pub posix_open_args_bits :
    (native : Native) (rows : List Row) (unset : PosixArgs) (flags perms attrs : ℕ)
    → is_valid flags ≡ true
    → distinct rows ≡ true
    → let args = posix_open_args native rows unset flags perms attrs in
      ((k : ℕ) → k < 9 → bit k args.mode ≡ bit k perms)
      × ((k u : ℕ) → At rows k u → bit u args.attrs ≡ bit k attrs)
unfolding posix_open_args
posix_open_args_bits native rows unset flags perms attrs valid d = rw valid (
  λ k below. mode_kept k perms below,
  λ k u at_row. bit-file_attrs_to_native rows k u d at_row attrs,
)
