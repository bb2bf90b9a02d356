-- ===== src/Tests/Names.antt =====
-- Theorems on files by name, on names and buffers of Windows, and on groups of threads, at short runs.
use asio_extensions.Prelude.{
  ℕ, ◌<◌, ◌≤◌, ◌≡◌, ◌≢◌, ◌⊎◌, refl, true, Bytes, List, [], ◌∷◌, Option, none, some, ltb, leb,
  if◌then◌else◌, arith,
}
use asio_extensions.Posix.{Answer, returns, fails, no_error, system, readv, preadv, writev, pwritev}
use asio_extensions.Posix.Open.{Native, opened_by}
use asio_extensions.Posix.Args.{PosixArgs}
use asio_extensions.LinearBuffer.{Exception}
use asio_extensions.ReadFile.{ReadCode, Result, terminated}
use asio_extensions.ReadFile
use asio_extensions.ByName.{Ended, read_file_by_name, read_result, read_file_by_name_lem}
use asio_extensions.Tests.Buffers.{zeroed, three}
use asio_extensions.ThreadGroup.{
  Threads, no_threads, Task, starts, starts_many, joins, join, perform_tasks,
}
use asio_extensions.ThreadGroup.Joined.{tasks_joined}
use asio_extensions.Windows.Path.{win_path, c_str_length, win_path_converts}
use asio_extensions.Windows.ReadSome.{
  read_some, read_some_at, write_some, write_some_at, read_some-readv,
}

abbrev linux : Native
linux = record { o_creat = 64; o_excl = 128; o_trunc = 512; o_rdonly = 0; o_wronly = 1; o_rdwr = 2 }

abbrev opens_late : PosixArgs → List Answer
opens_late args = fails 4 ∷ returns 3 ∷ []

abbrev reads_two : Option ℕ → ℕ → Bytes × ReadCode
reads_two fd n = (6 ∷ 7 ∷ [], ReadFile.no_error)

opened-ne-interrupted : returns 3 ≢ fails 4
opened-ne-interrupted e = cc

read_file_by_name_lem_example :
    (e : Ended Result) × (read_file_by_name 4 linux opens_late zeroed
        (λ fd. returns 2)
        reads_two
        three
      ≡ some e)
    × (e.result ≡ read_result zeroed (λ fd. returns 2) reads_two three (returns 3))
    × ((e.closed ≡ opened_by (returns 3)) ⊎ ((x : Exception) × (e.result ≡ terminated x)))
read_file_by_name_lem_example =
    read_file_by_name_lem 4 linux opens_late zeroed (λ fd. returns 2) reads_two three 1 (returns 3)
      [] refl opened-ne-interrupted

abbrev some_tasks : List Task
some_tasks = starts ∷ starts_many 2 ∷ joins ∷ starts ∷ []

tasks_joined_example :
    (w : Threads) × (w' : Threads) × (perform_tasks some_tasks no_threads ≡ some w)
    × (join w ≡ some w')
    × (w'.last ≡ none)
    × ((f : ℕ) → w'.joined f ≡ (if ltb f w.started then 1 else 0))
    × ((f : ℕ) → w'.deleted f ≡ w'.joined f)
tasks_joined_example = tasks_joined some_tasks

-- a name of 300 bytes and 280 characters
abbrev converts_280 : ℕ → ℕ
converts_280 capacity = if leb 280 capacity then 280 else if leb capacity 0 then 280 else 0

takes_280 : (capacity : ℕ) → converts_280 0 ≤ capacity → converts_280 capacity ≡ converts_280 0
takes_280 capacity h = ground arith

win_path_converts_example :
    let path = win_path converts_280 (λ n. true) 12 1113 300 in
    (path.zero_at ≡ some 280)
    × (280 < c_str_length path.heap_memory)
    × (((◌≡◌ {A = ℕ} 280 0) × (path.code ≡ system 1113))
        ⊎ ((◌≢◌ {A = ℕ} 280 0) × (path.code ≡ no_error)))
win_path_converts_example =
    win_path_converts converts_280 (λ n. true) 12 1113 300 refl takes_280 (omega arith)

abbrev end_of_file : ℕ → Answer
end_of_file size = returns 0

idle-ne-interrupted : returns 0 ≢ fails 4
idle-ne-interrupted e = cc

read_some-readv_example :
    (some (read_some end_of_file (0 ∷ 5 ∷ []) no_error) ≡ readv 4 (0 ∷ 5 ∷ []) (returns 0 ∷ []))
    × (some (read_some_at (λ size low high. end_of_file size) 9 (0 ∷ 5 ∷ []) no_error)
        ≡ preadv 4 (0 ∷ 5 ∷ []) (returns 0 ∷ []))
    × (some (write_some end_of_file (0 ∷ 5 ∷ []) no_error) ≡ writev 4 (returns 0 ∷ []))
    × (some (write_some_at (λ size low high. end_of_file size) 9 (0 ∷ 5 ∷ []) no_error)
        ≡ pwritev 4 (returns 0 ∷ []))
read_some-readv_example = read_some-readv 4 9 (0 ∷ 5 ∷ []) end_of_file refl idle-ne-interrupted
