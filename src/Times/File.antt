-- ===== src/Times/File.antt =====
-- The times of a file: `stat_to_times`, `to_timespec`, `get_times` and `set_times` of
-- include/asioext/detail/impl/posix_file_ops.cpp, the branch with `futimens`.
--
-- A system call is what it answers. `time_t` and `tv_nsec` have 64 bits, as `chrono::seconds` has. A
-- time of birth is 0 where the system has none.
use asio_extensions.Prelude.{
  ℕ, ◌≡◌, refl, false, Option, none, some, if◌then◌else◌, ℤ, pos, ◌<ℤ◌, ◌+ℤ◌, scale, eqb_ℤ, arith,
}
use asio_extensions.Posix.{Answer, returns, fails}
use asio_extensions.Times.{int64, decompose_time, compose_time, max_first}
use asio_extensions.Times.Pair.{IsTime, compose-decompose}

pub record FileTimes : Type 0 where
  pub ctime : ℤ
  pub atime : ℤ
  pub mtime : ℤ

-- seconds and nanoseconds
abbrev pub Spec : Type 0
Spec = ℤ × ℤ

-- what `fstat` gives of a file
pub record Stat : Type 0 where
  pub birthtime : Spec
  pub st_atim : Spec
  pub st_mtim : Spec

pub data TimesCode : Type 0 where
  no_error value_too_large : TimesCode
  system : ℕ → TimesCode

abbrev pub compose : Spec → Option ℤ
compose (s, ns) = compose_time int64 s ns

abbrev pub three_times : Option ℤ → Option ℤ → Option ℤ → Option FileTimes
three_times (some c) (some a) (some m) = some (record { ctime = c; atime = a; mtime = m })
three_times (some c) (some a) none = none
three_times (some c) none m = none
three_times none a m = none

abbrev pub stat_to_times : Stat → Option FileTimes
stat_to_times st = three_times (compose st.birthtime) (compose st.st_atim) (compose st.st_mtim)

abbrev pub to_timespec : ℤ → Option Spec
to_timespec t = decompose_time int64 int64 t

-- the times as they are where they cannot be had
abbrev pub times_or : FileTimes → Option FileTimes → FileTimes × TimesCode
times_or old none = (old, value_too_large)
times_or old (some t) = (t, no_error)

pub get_times : Answer → Stat → FileTimes → FileTimes × TimesCode
get_times (fails e) st old = (old, system e)
get_times (returns r) st old = times_or old (stat_to_times st)

-- a `timespec` for `futimens`; `omitted` is UTIME_OMIT
pub data Stamp : Type 0 where
  omitted : Stamp
  at : Spec → Stamp

abbrev pub stamp_or_none : Option Spec → Option Stamp
stamp_or_none none = none
stamp_or_none (some t) = some (at t)

abbrev pub stamp : ℤ → Option Stamp
stamp t = if eqb_ℤ t (pos 0) then some omitted else stamp_or_none (to_timespec t)

abbrev pub answer_code : Answer → TimesCode
answer_code (returns r) = no_error
answer_code (fails e) = system e

-- the stamps that are passed, where `futimens` is called, and the code
abbrev pub pass : Option Stamp → Option Stamp → Answer → Option (Stamp × Stamp) × TimesCode
pass none m answer = (none, value_too_large)
pass (some a) none answer = (none, value_too_large)
pass (some a) (some m) answer = (some (a, m), answer_code answer)

pub set_times : Answer → FileTimes → Option (Stamp × Stamp) × TimesCode
set_times answer t = pass (stamp t.atime) (stamp t.mtime) answer

stamp_lem :
    (t : ℤ) → IsTime t → pos 0 <ℤ t → (p : Spec) × (stamp t ≡ some (at p)) × (compose p ≡ some t)
stamp_lem t v later =
    let other : eqb_ℤ t (pos 0) ≡ false = ground arith in
    let (f, s, parts, whole) =
      compose-decompose int64 int64 t v (omega arith) (omega arith, omega arith)
        (omega arith, omega arith) in
    ((f, s), rw (other, parts) refl, whole)

compose_zero : compose (pos 0, pos 0) ≡ some (pos 0)
unfolding compose_time scale ◌+ℤ◌ max_first
compose_zero = refl

-- Times behind 1970 that are set are passed to `futimens` as stamps, and a file that has these stamps,
-- with no time of birth, is read to have the same times. The code is what `futimens` answers.
pub get_times-set_times :
    (answer : Answer) (r : ℕ) (t old : FileTimes)
    → IsTime t.atime
    → pos 0 <ℤ t.atime
    → IsTime t.mtime
    → pos 0 <ℤ t.mtime
    → (a : Spec) × (m : Spec) × (set_times answer t ≡ (some (at a, at m), answer_code answer))
      × (get_times (returns r) (record { birthtime = (pos 0, pos 0); st_atim = a; st_mtim = m }) old
          ≡ (record { ctime = pos 0; atime = t.atime; mtime = t.mtime }, no_error))
unfolding set_times get_times
get_times-set_times answer r t old va la vm lm =
    let (a, passed, back) = stamp_lem t.atime va la in
    let (m, passed', back') = stamp_lem t.mtime vm lm in
    (a, m, rw (passed, passed') refl, rw (compose_zero, back, back') refl)
