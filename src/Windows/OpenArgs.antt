-- ===== src/Windows/OpenArgs.antt =====
-- Arguments for opening files on Windows: `parse_open_flags` and `open` of
-- include/asioext/detail/impl/win_file_ops.cpp, and `open_args` of
-- include/asioext/impl/open_args.hpp and include/asioext/open_args.hpp.
use asio_extensions.Prelude.{
  ℕ, ◌^◌, ◌<◌, ◌≡◌, inl, inr, refl, sym, ◌∙◌, ap, Bool, true, false, ◌&&◌, ◌||◌, not, ◌∷◌, Option,
  none, some, ◌==◌, ==_iff, bit, bit_zero, bit_and, bit_or, has, flip, ltb, bit-bit_and, bit-bit_or,
  bit-flip, bit-power, power_fits, and_true, if◌then◌else◌, Bool-cases, arith,
}
use asio_extensions.Posix.{Answer, returns, fails, Code, no_error, system}
use asio_extensions.Posix.Open.{is_valid, creation_digits, tests_lem}
use asio_extensions.FileAttrs.{file_attrs_to_native}
use asio_extensions.FileAttrs.Rows.{
  At, apart, distinct, fit, bit-file_attrs_to_native, At-fit, apart-At,
}
use asio_extensions.Windows.{AttributeBits, rows, write_perms, writable_info, readonly_info}

-- the constants of <windows.h>; the last four by the places of their bits
pub record Constants : Type 0 where
  pub create_new : ℕ
  pub create_always : ℕ
  pub open_existing : ℕ
  pub open_always : ℕ
  pub truncate_existing : ℕ
  pub file_flag_overlapped : ℕ
  pub generic_read : ℕ
  pub generic_write : ℕ
  pub file_share_read : ℕ
  pub file_share_write : ℕ

-- the members of `open_args`
pub record OpenArgs : Type 0 where
  pub creation_disposition : ℕ
  pub desired_access : ℕ
  pub share_mode : ℕ
  pub attrs : ℕ
  pub flags : ℕ

abbrev pub creation : Constants → ℕ → ℕ
creation c flags =
    if has flags 4
    then c.create_new
    else if has flags 8
    then c.create_always
    else if has flags 16
    then c.open_existing
    else if has flags 32
    then c.open_always
    else if has flags 64
    then c.truncate_existing
    else 0

abbrev pub access : Constants → ℕ → ℕ
access c flags =
    let read = if has flags 1 then bit_or 0 (2 ^ c.generic_read) else 0 in
    if has flags 2 then bit_or read (2 ^ c.generic_write) else read

abbrev pub share : Constants → ℕ → ℕ
share c flags =
    let both = bit_or (2 ^ c.file_share_read) (2 ^ c.file_share_write) in
    let kept = if has flags 128 then bit_and both (flip 32 (2 ^ c.file_share_read)) else both in
    if has flags 256 then bit_and kept (flip 32 (2 ^ c.file_share_write)) else kept

pub windows_parse_open_flags : Constants → AttributeBits → ℕ → ℕ → ℕ → OpenArgs
windows_parse_open_flags c bits flags perms attrs =
    let native_attrs = file_attrs_to_native (rows bits) attrs in
    record {
      creation_disposition = creation c flags;
      desired_access = access c flags;
      share_mode = share c flags;
      attrs =
          if has perms write_perms
          then writable_info bits native_attrs
          else readonly_info bits native_attrs;
      flags = if has flags 512 then bit_or 0 c.file_flag_overlapped else 0;
    }

-- the constructor of `open_args`; for flags that are not valid only one member is given a value
pub open_args : Constants → AttributeBits → OpenArgs → ℕ → ℕ → ℕ → OpenArgs
open_args c bits unset flags perms attrs =
    if is_valid flags
    then windows_parse_open_flags c bits flags perms attrs
    else record unset { creation_disposition = 0xffffffff }

abbrev pub is_valid_args : OpenArgs → Bool
is_valid_args args = not (args.creation_disposition == 0xffffffff)

-- `open`: what `CreateFileW` is given, but for the name, and what becomes of its answer
abbrev pub opened : Answer → Option ℕ × Code
opened (returns h) = (some h, no_error)
opened (fails e) = (none, system e)

pub open_file_by : (ℕ → ℕ → ℕ → ℕ → Answer) → OpenArgs → Option ℕ × Code
open_file_by create_file args = opened (
    create_file args.desired_access args.share_mode args.creation_disposition
      (bit_or args.attrs args.flags))

-- the creation mode at a place among the five bits
abbrev pub creation_at : Constants → ℕ → ℕ
creation_at c d =
    if d == 1
    then c.create_new
    else if d == 2
    then c.create_always
    else if d == 4
    then c.open_existing
    else if d == 8
    then c.open_always
    else if d == 16
    then c.truncate_existing
    else 0

and_all : (b : Bool) → b ≡ (b && true)
and_all b = ground arith

cleared_first : (b s t : Bool) → b ≡ true → ((b && not (s && true)) && not (t && false)) ≡ not s
cleared_first b s t h = ground arith

cleared_last : (b s t : Bool) → b ≡ true → ((b && not (s && false)) && not (t && true)) ≡ not t
cleared_last b s t h = ground arith

or_true : (b : Bool) → (b || true) ≡ true
or_true b = ground arith

bit-clear :
    (j m x : ℕ) → m < 32 → j < 32 → bit j (bit_and x (flip 32 (2 ^ m))) ≡ (bit j x && not (j == m))
bit-clear j m x h h' =
    bit-bit_and j x (flip 32 (2 ^ m))
    ∙ ap (λ (b : Bool). bit j x && b)
        (bit-flip j 32 (2 ^ m) h' (power_fits m 32 h) ∙ ap not (bit-power j m))

bit-set : (j m x : ℕ) → bit j (bit_or x (2 ^ m)) ≡ (bit j x || (j == m))
bit-set j m x = bit-bit_or j x (2 ^ m) ∙ ap (λ (b : Bool). bit j x || b) (bit-power j m)

bit-access :
    (c : Constants) (flags : ℕ)
    → (c.generic_read == c.generic_write) ≡ false
    → (bit c.generic_read (access c flags) ≡ has flags 1)
      × (bit c.generic_write (access c flags) ≡ has flags 2)
bit-access c flags other =
    let r = c.generic_read in
    let w = c.generic_write in
    let self = (==_iff r r).1 refl in
    let self' = (==_iff w w).1 refl in
    let empty = bit_zero r in
    let empty' = bit_zero w in
    let a = bit-set r r 0 in
    let b = bit-set w r 0 in
    let apart : (w == r) ≡ false = ground arith in
    elim (Bool-cases (has flags 1)) [
      | inl reads ↦ elim (Bool-cases (has flags 2)) [
        | inl writes ↦
            let x = bit-set r w (bit_or 0 (2 ^ r)) in
            let y = bit-set w w (bit_or 0 (2 ^ r)) in
            rw (reads, writes)
              (x ∙ rw (a, empty, self) refl, y ∙ rw self' (or_true (bit w (bit_or 0 (2 ^ r)))))
        | inr no_writes ↦
            rw (reads, no_writes) (a ∙ rw (empty, self) refl, b ∙ rw (empty', apart) refl)
      ]
      | inr no_reads ↦ elim (Bool-cases (has flags 2)) [
        | inl writes ↦
            let x = bit-set r w 0 in
            let y = bit-set w w 0 in
            rw (no_reads, writes) (x ∙ rw (empty, other) refl, y ∙ rw (empty', self') refl)
        | inr no_writes ↦ rw (no_reads, no_writes) (empty, empty')
      ]
    ]

bit-clear_if :
    (t : Bool) (j m x : ℕ)
    → m < 32
    → j < 32
    → bit j (if t then bit_and x (flip 32 (2 ^ m)) else x) ≡ (bit j x && not (t && (j == m)))
bit-clear_if true j m x h h' = bit-clear j m x h h'
bit-clear_if false j m x h h' = and_all (bit j x)

-- a share bit is cleared by its own flag only
bit-share :
    (c : Constants) (flags : ℕ)
    → (c.file_share_read == c.file_share_write) ≡ false
    → c.file_share_read < 32
    → c.file_share_write < 32
    → (bit c.file_share_read (share c flags) ≡ not (has flags 128))
      × (bit c.file_share_write (share c flags) ≡ not (has flags 256))
bit-share c flags other h h' =
    let r = c.file_share_read in
    let w = c.file_share_write in
    let self = (==_iff r r).1 refl in
    let self' = (==_iff w w).1 refl in
    let other' : (w == r) ≡ false = ground arith in
    let both = bit_or (2 ^ r) (2 ^ w) in
    let kept = if has flags 128 then bit_and both (flip 32 (2 ^ r)) else both in
    let in_r : bit r both ≡ true =
      bit-bit_or r (2 ^ r) (2 ^ w) ∙ ap (λ (b : Bool). b || bit r (2 ^ w)) (bit-power r r ∙ self) in
    let in_w : bit w both ≡ true =
      bit-set w w (2 ^ r) ∙ ap (λ (b : Bool). bit w (2 ^ r) || b) self' ∙ or_true (bit w (2 ^ r)) in
    (
      bit-clear_if (has flags 256) r w kept h' h
          ∙ ap (λ (b : Bool). b && not (has flags 256 && (r == w)))
              (bit-clear_if (has flags 128) r r both h h)
          ∙ rw (self, other) (cleared_first (bit r both) (has flags 128) (has flags 256) in_r),
      bit-clear_if (has flags 256) w w kept h' h'
          ∙ ap (λ (b : Bool). b && not (has flags 256 && (w == w)))
              (bit-clear_if (has flags 128) w r both h h')
          ∙ rw (self', other') (cleared_last (bit w both) (has flags 128) (has flags 256) in_w),
    )

and_nothing : (b : Bool) → (b && false) ≡ false
and_nothing b = ground arith

or_nothing : (b : Bool) → (b || false) ≡ b
or_nothing b = ground arith

-- what the permissions do to the flags
abbrev with_perms : AttributeBits → ℕ → ℕ → ℕ
with_perms bits perms x =
    if has perms write_perms then writable_info bits x else readonly_info bits x

bit-with_perms :
    (bits : AttributeBits) (perms x : ℕ)
    → bits.readonly < 32
    → bit bits.readonly (with_perms bits perms x) ≡ not (has perms write_perms)
bit-with_perms bits perms x h =
    let r = bits.readonly in
    let self = (==_iff r r).1 refl in
    elim (Bool-cases (has perms write_perms)) [
      | inl wants ↦ rw wants (bit-clear r r x h h ∙ rw self (and_nothing (bit r x)))
      | inr other ↦ rw other (bit-set r r x ∙ rw self (or_true (bit r x)))
    ]

with_perms_other :
    (bits : AttributeBits) (perms x u : ℕ)
    → bits.readonly < 32
    → u < 32
    → (u == bits.readonly) ≡ false
    → bit u (with_perms bits perms x) ≡ bit u x
with_perms_other bits perms x u h below apart =
    let r = bits.readonly in
    elim (Bool-cases (has perms write_perms)) [
      | inl wants ↦ rw wants (bit-clear u r x h below ∙ rw apart (sym (and_all (bit u x))))
      | inr other ↦ rw other (bit-set u r x ∙ rw apart (or_nothing (bit u x)))
    ]

test_sym : (a b : ℕ) → (a == b) ≡ false → (b == a) ≡ false
test_sym a b h = ground arith

-- Valid flags below 1024 open a file on Windows by their fields: the arguments are valid, the creation
-- mode is the one whose bit is set, reading, writing and both kinds of sharing are as their own
-- flags say, the file is read-only where nobody may write, and each attribute is passed on. The
-- constants of the system are different where they stand for different things, and no
-- creation mode of it is 0xffffffff.
pub windows_open_args_lem :
    (c : Constants) (bits : AttributeBits) (unset : OpenArgs) (flags perms attrs : ℕ)
    → flags < 1024
    → is_valid flags ≡ true
    → ((d : ℕ) → (creation_at c d == 0xffffffff) ≡ false)
    → (c.generic_read == c.generic_write) ≡ false
    → (c.file_share_read == c.file_share_write) ≡ false
    → c.file_share_read < 32
    → c.file_share_write < 32
    → distinct ((101, bits.readonly) ∷ rows bits) ≡ true
    → fit ((101, bits.readonly) ∷ rows bits) ≡ true
    → let args = open_args c bits unset flags perms attrs in
      (is_valid_args args ≡ true)
      × (args.creation_disposition ≡ creation_at c (creation_digits flags))
      × (bit c.generic_read args.desired_access ≡ has flags 1)
      × (bit c.generic_write args.desired_access ≡ has flags 2)
      × (bit c.file_share_read args.share_mode ≡ not (has flags 128))
      × (bit c.file_share_write args.share_mode ≡ not (has flags 256))
      × (bit bits.readonly args.attrs ≡ not (has perms write_perms))
      × ((k u : ℕ) → At (rows bits) k u → bit u args.attrs ≡ bit k attrs)
unfolding open_args windows_parse_open_flags
windows_open_args_lem c bits unset flags perms attrs small valid fine rw_apart share_apart r_fits
      w_fits d f =
    let (c4, c8, c16, c32, c64, low) = tests_lem flags small valid in
    let created : creation c flags ≡ creation_at c (creation_digits flags) =
      rw (c4, c8, c16, c32, c64) refl in
    let (reads, writes) = bit-access c flags rw_apart in
    let (share_reads, share_writes) = bit-share c flags share_apart r_fits w_fits in
    let native = file_attrs_to_native (rows bits) attrs in
    let r = bits.readonly in
    let (readonly_apart, d1) = and_true (apart (101, r) (rows bits)) (distinct (rows bits)) d in
    let (f0, f1) = and_true (ltb r 32) (fit (rows bits)) f in
    let r_below = At-fit ((101, r) ∷ rows bits) 101 r f (inl (refl, refl)) in
    rw valid (
      ap not (ap (λ (n : ℕ). n == 0xffffffff) created ∙ fine (creation_digits flags)),
      created,
      reads,
      writes,
      share_reads,
      share_writes,
      bit-with_perms bits perms native r_below,
      λ k u at_row.
          with_perms_other bits perms native u r_below (At-fit (rows bits) k u f1 at_row)
            (test_sym r u (apart-At (rows bits) k u 101 r readonly_apart at_row).1)
          ∙ bit-file_attrs_to_native (rows bits) k u d1 at_row attrs,
    )
