-- ===== src/FileAttrs.antt =====
-- Attributes and permissions of open files on POSIX systems: `file_attrs_to_native`,
-- `native_to_file_attrs`, `attributes` and `permissions` of
-- include/asioext/detail/impl/posix_file_ops.cpp, on the flags of include/asioext/file_attrs.hpp and
-- include/asioext/file_perms.hpp.
--
-- The system has file flags. Which of them it has is a parameter: a row for each `#ifdef` that holds,
-- in the order of the code, with the place of the attribute's bit and that of the system's flag. What
-- `fstat`, `fchflags` and `fchmod` answer is an argument; the functions that set something also
-- give what they have set.
pub mod Rows
pub mod After
use asio_extensions.Prelude.{
  ℕ, ◌^◌, Bool, List, [], ◌∷◌, Option, none, some, bit_and, bit_or, has, flip, if◌then◌else◌,
}
use asio_extensions.Posix.{Answer, returns, fails, Code, no_error, system}

abbrev pub Row : Type 0
Row = ℕ × ℕ

-- the tests for one row after the other, each of which adds a bit
pub translate : List Row → ℕ → ℕ → ℕ
translate [] from to = to
translate ((k, u) ∷ rows) from to =
    translate rows from (if has from (2 ^ k) then bit_or to (2 ^ u) else to)

abbrev pub swapped : List Row → List Row
swapped [] = []
swapped ((k, u) ∷ rows) = (u, k) ∷ swapped rows

abbrev pub file_attrs_to_native : List Row → ℕ → ℕ
file_attrs_to_native rows attrs = translate rows attrs 0

abbrev pub native_to_file_attrs : List Row → ℕ → ℕ
native_to_file_attrs rows native = translate (swapped rows) native 0

-- `add | remove` of `file_attr_options` and of `file_perm_options`
abbrev pub adds_or_removes : ℕ → Bool
adds_or_removes opts = has opts 6

abbrev pub adds : ℕ → Bool
adds opts = has opts 2

-- what a call leaves: its error, and the flags or the mode that it has set
abbrev pub Change : Type 0
Change = Code × Option ℕ

-- the call of `fchflags` or `fchmod` at the end
abbrev pub settled : ℕ → Answer → Change
settled value (returns r) = (no_error, some value)
settled value (fails e) = (system e, none)

-- `|` or `& ~` with what `fstat` gives
abbrev pub merged : Answer → ℕ → ℕ → (ℕ → Answer) → Change
merged (returns old) opts value set =
    if adds opts
    then settled (bit_or old value) (set (bit_or old value))
    else settled (bit_and old (flip 32 value)) (set (bit_and old (flip 32 value)))
merged (fails e) opts value set = (system e, none)

unfoldable pub change : Answer → ℕ → ℕ → (ℕ → Answer) → Change
change fstat opts value set =
    if adds_or_removes opts then merged fstat opts value set else settled value (set value)

-- `attributes`, the getter and the setter
unfoldable pub attributes : List Row → Answer → ℕ × Code
attributes rows (returns st_flags) = (native_to_file_attrs rows st_flags, no_error)
attributes rows (fails e) = (0, system e)

abbrev pub set_attributes : List Row → Answer → (ℕ → Answer) → ℕ → ℕ → Change
set_attributes rows fstat fchflags attrs opts =
    change fstat opts (file_attrs_to_native rows attrs) fchflags

-- `permissions`, the getter and the setter; `file_perms::all` is 0777
unfoldable pub permissions : Answer → ℕ × Code
permissions (returns st_mode) = (bit_and st_mode 0x1ff, no_error)
permissions (fails e) = (0, system e)

abbrev pub set_permissions : Answer → (ℕ → Answer) → ℕ → ℕ → Change
set_permissions fstat fchmod perms opts = change fstat opts (bit_and perms 0x1ff) fchmod
