-- ===== src/Times.antt =====
-- Times of files: include/asioext/detail/impl/chrono.hpp, with the types that
-- include/asioext/detail/impl/posix_file_ops.cpp uses it at.
--
-- A duration is its count. `Duration` and `SecondDuration` are nanoseconds in 64 bits, as
-- `file_clock::duration` is; `FirstDuration` is seconds, of a type whose limits are an argument.
-- `intmax_t` has 64 bits. A product beyond it is undefined in C++; here it is exact.
pub mod Cast
pub mod Pair
pub mod File
use asio_extensions.Prelude.{
  ℕ, ◌+◌, ◌-◌, ◌*◌, ◌^◌, Bool, true, false, ◌&&◌, ◌||◌, not, Option, none, some, ◌==◌,
  if◌then◌else◌, ℤ, pos, negsuc, ◌+ℤ◌, ◌-ℤ◌, scale, quot, leb_ℤ, ltb_ℤ, eqb_ℤ,
}

-- `std::numeric_limits` of a signed type
pub record Limits : Type 0 where
  pub lo : ℤ
  pub hi : ℤ

abbrev pub int64 : Limits
int64 = record { lo = negsuc (2 ^ 63 - 1); hi = pos (2 ^ 63 - 1) }

abbrev pub in_limits : Limits → ℤ → Bool
in_limits l c = leb_ℤ l.lo c && leb_ℤ c l.hi

-- `if (temp >= min && temp <= max)`
abbrev pub checked : Limits → ℤ → Option ℤ
checked l c = if in_limits l c then some c else none

-- `safe_duration_cast`, where `num / den` is the ratio of the periods, `l` the limits of the result,
-- and `none` a return of false
pub safe_duration_cast : ℕ → ℕ → Limits → ℤ → Option ℤ
safe_duration_cast num den l c =
    if num == 1 && den == 1
    then checked l c
    else if not (num == 1) && den == 1
    then (if leb_ℤ (quot l.lo num) c && leb_ℤ c (quot l.hi num) then some (scale c num) else none)
    else if num == 1 && not (den == 1)
    then checked l (quot c den)
    else if ltb_ℤ c (quot int64.lo num) && ltb_ℤ (quot int64.hi num) c
    then none
    else checked l (quot (scale c num) den)

-- nanoseconds in a second
abbrev pub tick : ℕ
tick = 1000000000

-- `time_pair_values`: the limits of `Duration`, parted into seconds and the rest
unfoldable pub max_first : ℤ
unfolding quot
max_first = quot int64.hi tick

unfoldable pub min_first : ℤ
unfolding quot
min_first = quot int64.lo tick

pub max_second : ℤ
unfolding max_first scale ◌-ℤ◌
max_second = int64.hi -ℤ scale max_first tick

pub min_second : ℤ
unfolding min_first scale ◌-ℤ◌ ◌+ℤ◌
min_second = int64.lo -ℤ scale min_first tick +ℤ pos tick

-- the test behind `second_temp.count() < 0` in `decompose_time`; `first` are the limits of
-- `FirstDuration::rep`
abbrev pub may_borrow : Limits → ℤ → Bool
may_borrow first f = ltb_ℤ min_first f || (not (eqb_ℤ first.lo min_first) && eqb_ℤ f min_first)

-- the last two casts
abbrev pub both_fit : Limits → Limits → ℤ → ℤ → Option (ℤ × ℤ)
both_fit first second f s =
    if in_limits first f then (if in_limits second s then some (f, s) else none) else none

abbrev pub normalise : Limits → Limits → ℤ → ℤ → Option (ℤ × ℤ)
normalise first second f s =
    if ltb_ℤ s (pos 0)
    then (if may_borrow first f then both_fit first second (f -ℤ pos 1) (s +ℤ pos tick) else none)
    else both_fit first second f s

-- `none` is a return of false, which leaves the results alone.
pub decompose_time : Limits → Limits → ℤ → Option (ℤ × ℤ)
decompose_time first second c = elim (safe_duration_cast 1 tick int64 c) [
  | none ↦ none
  | some f ↦ elim (safe_duration_cast 1 1 int64 (c -ℤ scale f tick)) [
    | none ↦ none
    | some s ↦ normalise first second f s
  ]
]

-- the part of `compose_time` behind the tests
abbrev pub join_negative : ℤ → ℤ → ℤ
join_negative f s =
    if eqb_ℤ s (pos 0) then scale f tick else scale (f +ℤ pos 1) tick -ℤ (pos tick -ℤ s)

-- `first` are the limits of `FirstDuration::rep`. The second of the tests for a negative `first`
-- compares it with `min_second`, as the source does.
unfoldable pub compose_time : Limits → ℤ → ℤ → Option ℤ
compose_time first f s =
    if leb_ℤ (pos 0) f
    then (if ltb_ℤ f max_first || (eqb_ℤ f max_first && leb_ℤ s max_second)
        then some (scale f tick +ℤ s)
        else none)
    else if not (eqb_ℤ first.lo min_first) && eqb_ℤ f (min_first -ℤ pos 1)
    then (if ltb_ℤ s min_second then none else some (join_negative f s))
    else if ltb_ℤ f min_second
    then none
    else some (join_negative f s)
