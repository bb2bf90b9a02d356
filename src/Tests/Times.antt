-- ===== src/Tests/Times.antt =====
-- Theorems on times at a few of them.
use asio_extensions.Prelude.{
  ◌≡◌, ◌≢◌, ◌⊎◌, refl, none, some, pos, negsuc, ◌≤ℤ◌, ◌<ℤ◌, ◌+ℤ◌, ◌-ℤ◌, scale, arith,
}
use asio_extensions.Times.{int64, tick, min_first, max_first, compose_time, safe_duration_cast}
use asio_extensions.Posix.{returns}
use asio_extensions.Times.File.{
  FileTimes, Spec, at, no_error, get_times, set_times, get_times-set_times,
}
use asio_extensions.Times.Cast.{cast_up}

composed : compose_time int64 (pos 1) (pos 5) ≡ some (pos 1000000005)
unfolding compose_time scale ◌+ℤ◌ max_first
composed = refl

not_first : negsuc 9 ≢ min_first -ℤ pos 1
unfolding min_first ◌-ℤ◌
not_first e = cc

-- seconds to nanoseconds
cast_up_example :
    ((safe_duration_cast tick 1 int64 (pos 5) ≡ some (scale (pos 5) tick))
      × (int64.lo ≤ℤ scale (pos 5) tick)
      × (scale (pos 5) tick ≤ℤ int64.hi))
    ⊎ ((safe_duration_cast tick 1 int64 (pos 5) ≡ none)
        × ((scale (pos 5) tick <ℤ int64.lo) ⊎ (int64.hi <ℤ scale (pos 5) tick)))
cast_up_example = cast_up tick int64 (pos 5) (omega arith) (omega arith) (omega arith)

abbrev two_times : FileTimes
two_times = record { ctime = pos 0; atime = pos 1500000000; mtime = pos 7 }

get_times-set_times_example :
    (a : Spec) × (m : Spec) × (set_times (returns 0) two_times ≡ (some (at a, at m), no_error))
    × (get_times
          (returns 0)
          (record { birthtime = (pos 0, pos 0); st_atim = a; st_mtim = m })
          two_times
        ≡ (record { ctime = pos 0; atime = pos 1500000000; mtime = pos 7 }, no_error))
get_times-set_times_example =
    get_times-set_times (returns 0) 0 two_times two_times (omega arith, omega arith) (omega arith)
      (omega arith, omega arith) (omega arith)
