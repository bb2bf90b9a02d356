-- ===== src/Windows/Filetime.antt =====
-- Times and offsets in two halves: `filetime_to_chrono`, `chrono_to_filetime`, `get_times` and
-- `set_times` of include/asioext/detail/impl/win_file_ops.cpp.
--
-- A time is a signed 64-bit number of 100-nanosecond steps; a conversion between it and
-- the unsigned number of a FILETIME keeps the bits.
use asio_extensions.Prelude.{
  ℕ, ◌+◌, ◌-◌, ◌*◌, ◌^◌, ◌<◌, ◌≡◌, ◌⊎◌, inl, inr, refl, ap, Option, none, some, ℤ, pos, negsuc, ltb,
  if◌then◌else◌, arith,
}
use asio_extensions.Posix.{Answer, returns, fails, Code, no_error, system}
use asio_extensions.Windows.{low_part, high_part, read, write, pread, pwrite}

-- `dwLowDateTime` and `dwHighDateTime`
pub record Filetime : Type 0 where
  pub low : ℕ
  pub high : ℕ

abbrev pub to_int64 : ℕ → ℤ
to_int64 v = if ltb v (2 ^ 63) then pos v else negsuc (2 ^ 64 - 1 - v)

abbrev pub to_uint64 : ℤ → ℕ
to_uint64 (pos n) = n
to_uint64 (negsuc n) = 2 ^ 64 - 1 - n

abbrev pub filetime_to_chrono : Filetime → ℤ
filetime_to_chrono ft = to_int64 (ft.low + ft.high * 2 ^ 32)

abbrev pub chrono_to_filetime : ℤ → Filetime
chrono_to_filetime t =
    let quad = to_uint64 t in record { low = low_part quad; high = high_part quad }

-- creation, access and modification
abbrev pub Three : Type 0 → Type 0
Three A = A × A × A

-- `get_times`; the arguments keep their values where it fails
pub get_times : Three Filetime ⊎ ℕ → Option (Three ℤ) × Code
get_times (inl (cft, aft, mft)) =
    (some (filetime_to_chrono cft, filetime_to_chrono aft, filetime_to_chrono mft), no_error)
get_times (inr e) = (none, system e)

abbrev pub set_code : Answer → Code
set_code (returns r) = no_error
set_code (fails e) = system e

-- `set_times`, with what it gives to the system
abbrev pub set_times : (Three Filetime → Answer) → ℤ → ℤ → ℤ → Three Filetime × Code
set_times set ctime atime mtime =
    let given : Three Filetime =
      (chrono_to_filetime ctime, chrono_to_filetime atime, chrono_to_filetime mtime) in
    (given, set_code (set given))

-- a number of 64 bits
abbrev pub IsInt64 : ℤ → Type 0
IsInt64 (pos n) = n < 2 ^ 63
IsInt64 (negsuc n) = n < 2 ^ 63

halves : (x : ℕ) → low_part x + high_part x * 2 ^ 32 ≡ x
halves x = omega arith

to_int64-to_uint64 : (t : ℤ) → IsInt64 t → to_int64 (to_uint64 t) ≡ t
to_int64-to_uint64 (pos n) h = ground arith
to_int64-to_uint64 (negsuc n) h = ground arith

pub filetime_to_chrono-chrono_to_filetime :
    (t : ℤ) → IsInt64 t → filetime_to_chrono (chrono_to_filetime t) ≡ t
filetime_to_chrono-chrono_to_filetime t h = rw (halves (to_uint64 t)) (to_int64-to_uint64 t h)

-- The times that `get_times` reads from what `set_times` gave to the system are the same, for all
-- 64-bit times, also those before the epoch; and the halves fit their fields.
pub get_times-set_times :
    (set : Three Filetime → Answer) (ctime atime mtime : ℤ)
    → IsInt64 ctime
    → IsInt64 atime
    → IsInt64 mtime
    → let given = (set_times set ctime atime mtime).0 in
      (get_times (inl given) ≡ (some (ctime, atime, mtime), no_error))
      × (given.0.low < 2 ^ 32)
      × (given.0.high < 2 ^ 32)
unfolding get_times
get_times-set_times set ctime atime mtime c a m = (
  rw
      (
        filetime_to_chrono-chrono_to_filetime ctime c,
        filetime_to_chrono-chrono_to_filetime atime a,
        filetime_to_chrono-chrono_to_filetime mtime m,
      )
      refl,
  omega arith,
  high_fits ctime c,
)
  where
    high_fits : (t : ℤ) → IsInt64 t → high_part (to_uint64 t) < 2 ^ 32
    high_fits (pos n) h = omega arith
    high_fits (negsuc n) h = omega arith

-- `pread` and `pwrite` do at any 64-bit offset what `read` and `write` do there, as the two halves
-- that they give to the system are together the offset, and each fits its field.
pub pread_offset :
    (io : ℕ → Answer) (size offset : ℕ) (ec : Code)
    → offset < 2 ^ 64
    → (pread (λ low high. io (low + high * 2 ^ 32)) size offset ec ≡ read (io offset) size ec)
      × (pwrite (λ low high. io (low + high * 2 ^ 32)) offset ec ≡ write (io offset) ec)
      × (low_part offset < 2 ^ 32)
      × (high_part offset < 2 ^ 32)
pread_offset io size offset ec h = (
  ap (λ (o : ℕ). read (io o) size ec) (halves offset),
  ap (λ (o : ℕ). write (io o) ec) (halves offset),
  omega arith,
  omega arith,
)
