-- ===== src/Windows.antt =====
-- Operations on open files on Windows: include/asioext/detail/impl/win_file_ops.cpp.
--
-- The Windows API is not code of the repository. What a call answers is an argument: a value, or the
-- error that `GetLastError` then gives. The attribute flags of <windows.h> are given by the places of
-- their bits. `INVALID_HANDLE_VALUE` is `none`. An error code that the caller passes in is an argument
-- wherever the code does not always overwrite it. Functions that set something also give what they set.
pub mod Attributes
pub mod Pointer
pub mod Filetime
pub mod OpenArgs
pub mod Path
pub mod ReadSome
use asio_extensions.Prelude.{
  ℕ, zero, ◌+◌, ◌*◌, ◌/◌, ◌%◌, ◌^◌, Bool, true, false, not, List, [], ◌∷◌, Option, none, some,
  bit_and, bit_or, has, flip, ◌==◌, if◌then◌else◌,
}
use asio_extensions.Posix.{Answer, returns, fails, Code, no_error, eof, system}
use asio_extensions.FileAttrs.{
  Row, file_attrs_to_native, native_to_file_attrs, adds_or_removes, adds,
}

-- `close`
abbrev pub close : Answer → Code
close (returns r) = no_error
close (fails e) = system e

-- `duplicate`, and `get_stdin`, `get_stdout` and `get_stderr`
pub handle_or_error : Answer → Option ℕ × Code
handle_or_error (returns h) = (some h, no_error)
handle_or_error (fails e) = (none, system e)

-- the getter `size`
pub get_size : Answer → ℕ × Code
get_size (returns size) = (size, no_error)
get_size (fails e) = (0, system e)

-- the setter `size` from Windows Vista on: the end of the file, then the allocation
abbrev pub allocated : Answer → Code
allocated (returns r) = no_error
allocated (fails e) = system e

pub set_size : Answer → Answer → Code
set_size (returns r) allocation = allocated allocation
set_size (fails e) allocation = system e

pub seek : Answer → Code → ℕ × Code
seek (returns pos) ec = (pos, ec)
seek (fails e) ec = (0, system e)

-- `bytesRead == 0 && size != 0`
abbrev pub read_code : ℕ → ℕ → Code → Code
read_code zero size ec = if size == 0 then ec else eof
read_code n size ec = ec

unfoldable pub read : Answer → ℕ → Code → ℕ × Code
read (returns n) size ec = (n, read_code n size ec)
read (fails e) size ec = (0, system e)

unfoldable pub write : Answer → Code → ℕ × Code
write (returns n) ec = (n, ec)
write (fails e) ec = (0, system e)

-- The two halves of the offset go to the system.
abbrev pub low_part : ℕ → ℕ
low_part x = x % 2 ^ 32

abbrev pub high_part : ℕ → ℕ
high_part x = x / 2 ^ 32

abbrev pub pread : (ℕ → ℕ → Answer) → ℕ → ℕ → Code → ℕ × Code
pread read_file size offset ec = read (read_file (low_part offset) (high_part offset)) size ec

abbrev pub pwrite : (ℕ → ℕ → Answer) → ℕ → Code → ℕ × Code
pwrite write_file offset ec = write (write_file (low_part offset) (high_part offset)) ec

-- the places of FILE_ATTRIBUTE_READONLY, and of FILE_ATTRIBUTE_NORMAL; the rows of
-- `file_attrs_to_native`: FILE_ATTRIBUTE_HIDDEN, _SYSTEM and _NOT_CONTENT_INDEXED
pub record AttributeBits : Type 0 where
  pub readonly : ℕ
  pub normal : ℕ
  pub hidden : ℕ
  pub system_file : ℕ
  pub not_content_indexed : ℕ

-- `file_attrs::hidden`, `system` and `not_indexed` are the bits 0, 1 and 4
abbrev pub rows : AttributeBits → List Row
rows bits = (0, bits.hidden) ∷ (1, bits.system_file) ∷ (4, bits.not_content_indexed) ∷ []

abbrev pub attributes : AttributeBits → Answer → ℕ × Code
attributes bits (returns info) = (native_to_file_attrs (rows bits) info, no_error)
attributes bits (fails e) = (0, system e)

-- the flags behind `|`, `& ~` or `=`
abbrev pub new_attributes : ℕ → ℕ → ℕ → ℕ
new_attributes old new_attrs opts =
    if adds_or_removes opts
    then (if adds opts then bit_or old new_attrs else bit_and old (flip 32 new_attrs))
    else new_attrs

abbrev pub not_zero : AttributeBits → ℕ → ℕ
not_zero bits info = if info == 0 then 2 ^ bits.normal else info

-- the call of `SetFileInformationByHandle` at the end, which leaves `ec` where it succeeds
abbrev pub settled : ℕ → Answer → Code → Code × Option ℕ
settled info (returns r) ec = (ec, some info)
settled info (fails e) ec = (system e, none)

abbrev pub set_attributes : AttributeBits → Answer → (ℕ → Answer) → ℕ → ℕ → Code → Code × Option ℕ
set_attributes bits (returns old) set attrs opts ec =
    let info = not_zero bits (new_attributes old (file_attrs_to_native (rows bits) attrs) opts) in
    settled info (set info) ec
set_attributes bits (fails e) set attrs opts ec = (system e, none)

-- `owner_write | group_write | others_write`
abbrev pub write_perms : ℕ
write_perms = 0x92

-- `file_perms::all & ~write_perms`, or all
abbrev pub permissions : AttributeBits → Answer → ℕ × Code
permissions bits (returns info) =
    if has info (2 ^ bits.readonly) then (0x16d, no_error) else (0x1ff, no_error)
permissions bits (fails e) = (0, system e)

abbrev pub writable_info : AttributeBits → ℕ → ℕ
writable_info bits info = bit_and info (flip 32 (2 ^ bits.readonly))

abbrev pub readonly_info : AttributeBits → ℕ → ℕ
readonly_info bits info = bit_or info (2 ^ bits.readonly)

abbrev pub new_info : AttributeBits → ℕ → ℕ → ℕ → ℕ
new_info bits info perms opts =
    if has opts 2
    then writable_info bits info
    else if has opts 4
    then readonly_info bits info
    else if has perms write_perms
    then writable_info bits info
    else readonly_info bits info

abbrev pub change_permissions :
    AttributeBits → Answer → (ℕ → Answer) → ℕ → ℕ → Code → Code × Option ℕ
change_permissions bits (returns old) set perms opts ec =
    let info = new_info bits old perms opts in settled info (set info) ec
change_permissions bits (fails e) set perms opts ec = (system e, none)

-- It ends early where nothing that Windows has would change.
pub set_permissions : AttributeBits → Answer → (ℕ → Answer) → ℕ → ℕ → Code → Code × Option ℕ
set_permissions bits get set perms opts ec =
    let changed = change_permissions bits get set perms opts ec in
    if has opts 6 then (if has perms write_perms then changed else (no_error, none)) else changed
