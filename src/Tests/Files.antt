-- ===== src/Tests/Files.antt =====
-- Theorems on the POSIX calls at short rows of answers.
use asio_extensions.Prelude.{
  ℕ, ◌<◌, Bytes, ◌≡◌, ◌≢◌, ◌⊎◌, refl, true, [], ◌∷◌, ◌++◌, none, some, arith,
}
use asio_extensions.Posix.{returns, fails, no_error, eof, readv, preadv, pread}
use asio_extensions.LinearBuffer.{Buffer, bad_alloc, contents, clear}
use asio_extensions.LinearBuffer.Growth.{NoMemory}
use asio_extensions.ReadFile.{
  ReadCode, Result, finished, terminated, read_file, Filled, read_file_result,
}
use asio_extensions.ReadFile
use asio_extensions.Tests.Buffers.{zeroed, three, three-IsValid}
use asio_extensions.Posix.Retry.{interrupted, read_run}
use asio_extensions.Posix.Open.{Native, Opened, open_file, held, open_run, is_valid}

returns-ne-fails : returns 0 ≢ fails 4
returns-ne-fails e = cc

-- twice interrupted, then the end of the file
read_run_example :
    (readv 4 (0 ∷ 5 ∷ []) (interrupted 4 2 ++ (returns 0 ∷ [])) ≡ some (0, eof))
    × (preadv 4 (0 ∷ 5 ∷ []) (interrupted 4 2 ++ (returns 0 ∷ [])) ≡ some (0, eof))
    × (pread 4 5 (interrupted 4 2 ++ (returns 0 ∷ [])) ≡ some (0, eof))
read_run_example = read_run 4 2 (0 ∷ 5 ∷ []) (returns 0) [] returns-ne-fails

-- the attributes are refused
open_run_example :
    (o : Opened) × (open_file 4 1 (fails 9) (interrupted 4 2 ++ (returns 0 ∷ [])) ≡ some o)
    × (held o.fd ++ o.closed ≡ 0 ∷ [])
    × (((o.fd ≡ none) × (o.code ≢ no_error)) ⊎ ((o.code ≡ no_error) × (o.closed ≡ [])))
open_run_example = open_run 4 1 2 (fails 9) (returns 0) [] returns-ne-fails

-- the values that Linux gives the constants
abbrev linux : Native
linux = record { o_creat = 64; o_excl = 128; o_trunc = 512; o_rdonly = 0; o_wronly = 1; o_rdwr = 2 }

valid_flags : is_valid 10 ≡ true
unfolding is_valid
valid_flags = refl

-- a read that the end of the file cuts short
abbrev two_bytes : ℕ → Bytes × ReadCode
two_bytes n = (6 ∷ 7 ∷ [], ReadFile.eof)

read_file_result_example :
    ((8 < 5)
      × (read_file zeroed (returns 5) two_bytes three ≡ finished three ReadFile.message_size))
    ⊎ (NoMemory zeroed three 5
        × (read_file zeroed (returns 5) two_bytes three ≡ terminated bad_alloc))
    ⊎ ((◌≡◌ {A = ℕ} 5 0)
        × (read_file zeroed (returns 5) two_bytes three ≡ finished (clear three) ReadFile.no_error)
        × (contents (clear three) ≡ []))
    ⊎ ((c : Buffer) × (read_file zeroed (returns 5) two_bytes three ≡ finished c ReadFile.eof)
        × Filled 5 (6 ∷ 7 ∷ []) c)
read_file_result_example = read_file_result zeroed 5 two_bytes three three-IsValid (omega arith)
