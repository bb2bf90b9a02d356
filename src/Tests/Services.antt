-- ===== src/Tests/Services.antt =====
-- Theorems on handles, tokens and the file service at short rows of calls.
use asio_extensions.Prelude.{
  ℕ, ◌+◌, ◌≤◌, ◌<◌, ◌≡◌, ◌≢◌, ◌⊎◌, refl, true, false, List, [], ◌∷◌, ◌++◌, Option, some,
  if◌then◌else◌, put, arith,
}
use asio_extensions.Posix.{Answer, returns, fails, Code, no_error}
use asio_extensions.Handles.{no_files, ok}
use asio_extensions.Handles
use asio_extensions.Handles.Owned.{is_of, run_owned}
use asio_extensions.Handles.Leak.{run_kept}
use asio_extensions.Token
use asio_extensions.Token.Trace.{follow}
use asio_extensions.Token.Life.{alive, is_none, token_life}
use asio_extensions.Service.{
  State, nothing, set_handle, Call, constructs, cancels, closes, opens, run, construct, move_assign,
  shutdown_service, initiate, perform, code, operation_aborted,
}
use asio_extensions.Service.Lists.{Lists}
use asio_extensions.Service.Members.{Reach, start, reach-Lists}
use asio_extensions.Service.Members
use asio_extensions.Service.Shutdown.{Shut, shutdown_service_run}
use asio_extensions.Service.Aborted.{emitted, pending_run, move_assign_aborts}

-- systems where each `close` succeeds, and where each is interrupted
abbrev quiet : ℕ → Answer
quiet fd = returns 0

abbrev broken : ℕ → Answer
broken fd = fails 5

one-ne-two : ◌≢◌ {A = ℕ} 1 2
one-ne-two e = omega arith

abbrev moves : List Handles.Call
moves = Handles.constructs 1 ∷ Handles.move_assigns 2 1 ∷ Handles.resets 2 ∷ []

run_owned_example :
    let w = Handles.run quiet moves no_files in
    w.closes 0 + w.released 0 + is_of (w.handles 1) 0 + is_of (w.handles 2) 0 ≤ 1
run_owned_example = run_owned quiet moves 1 2 0 one-ne-two

two_opened : 1 < (Handles.run quiet moves no_files).next
unfolding Handles.run
two_opened = omega arith

run_kept_example :
    let w = Handles.run quiet moves no_files in
    (w.closes 1 + w.released 1 ≡ 1) ⊎ ((i : ℕ) × (w.handles i ≡ some 1))
run_kept_example = run_kept quiet moves 1 (λ f. refl) two_opened

abbrev first_only : List Handles.Call
first_only = Handles.constructs 1 ∷ []

holds_first : (Handles.run broken first_only no_files).handles 1 ≡ some 0
unfolding Handles.run
holds_first = refl

abbrev made : List Token.Call
made = Token.constructs 1 ∷ []

abbrev moved_on : List Token.Call
moved_on = Token.move_constructs 2 1 ∷ Token.cancels 1 ∷ []

token_life_example :
    let w = Token.run made Token.fresh in
    Token.cancelled (Token.token (w.sources 1)) (Token.run moved_on w).blocks
    ≡ (if alive made (λ j. false) 1 then is_none (follow moved_on (some 1)) else true)
token_life_example = token_life made moved_on 1

abbrev one_file : ℕ → List ℕ
one_file = put (λ s. []) 0 (1 ∷ [])

one_file-Reach : Reach quiet (construct quiet 0 1 nothing) one_file
one_file-Reach = Members.constructs 0 1 nothing (λ s. []) (start nothing (λ s. refl)) (λ t. refl)

reach-Lists_example : Lists (construct quiet 0 1 nothing) one_file
reach-Lists_example = reach-Lists quiet one_file-Reach

shutdown_service_run_example :
    (a : List ℕ) × (b : List ℕ) × (w' : State) × (ec : Code) × (shutdown_service quiet 1 0
        (construct quiet 0 1 nothing)
      ≡ some (w', ec))
    × (a ++ b ≡ one_file 0)
    × Shut quiet a b (construct quiet 0 1 nothing) w' ec
shutdown_service_run_example = shutdown_service_run quiet 0 1 one_file-Reach (omega arith)

-- a transfer that is done
abbrev transfer : Option ℕ → ℕ × Code
transfer h = (3, no_error)

abbrev opening : List Call
opening = constructs 0 1 ∷ opens 1 (some 7, no_error) ∷ []

abbrev cancelling : List Call
cancelling = cancels 1 (code no_error) ∷ []

pending_run_example :
    let w = run quiet opening nothing in
    let lost =
      if alive (emitted quiet opening nothing) (λ j. false) 1
      then is_none (follow (emitted quiet cancelling w) (some 1))
      else true in
    perform transfer (initiate 1 w) (run quiet cancelling w)
    ≡ (if lost then (operation_aborted, 0) else (code no_error, 3))
pending_run_example = pending_run quiet opening cancelling 1 transfer

abbrev two_files : State
two_files =
    set_handle 1 (some 7)
      (set_handle 2 (some 8) (construct quiet 0 1 (construct quiet 0 2 nothing)))

-- The other file is closed before the operation is posted.
move_assign_aborts_example :
    let after = (move_assign quiet 0 0 1 2 two_files).0 in
    (after.handle 1 ≡ some 8)
    × (perform transfer (initiate 1 (run quiet (closes 2 ∷ []) after)) after
        ≡ (operation_aborted, 0))
move_assign_aborts_example =
    move_assign_aborts quiet 0 0 1 2 7 0 (closes 2 ∷ []) two_files
      (move_assign quiet 0 0 1 2 two_files).0 transfer refl refl one-ne-two refl
