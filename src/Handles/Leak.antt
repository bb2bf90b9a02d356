-- ===== src/Handles/Leak.antt =====
-- What becomes of open files.
use asio_extensions.Prelude.{
  ℕ, ◌+◌, ◌<◌, ◌≤◌, ◌≡◌, ◌≢◌, ◌⊎◌, inl, inr, refl, ap, sym, true, List, [], ◌∷◌, Option, none, some,
  ◌==◌, ==_iff, Bool-cases, Option-cases, arith,
}
use asio_extensions.Posix.{Answer, fails}
use asio_extensions.Handles.{
  Files, no_files, set, opened, clear, ok, posix_close, close, release, Call, constructs, destructs,
  closes_it, releases, resets, move_constructs, move_assigns, call, run,
}
use asio_extensions.Handles.Owned.{close-none, close-next, run-Owned, no_files-Owned}

-- Where an opened file is: closed or handed out, or with an object.
abbrev pub Kept : Files → ℕ → Type 0
Kept w f = (1 ≤ w.closes f + w.released f) ⊎ ((i : ℕ) × (w.handles i ≡ some f))

abbrev pub Complete : Files → Type 0
Complete w = (f : ℕ) → f < w.next → Kept w f

set-Kept : (i f : ℕ) (o : Option ℕ) (w : Files) → w.handles i ≡ none → Kept w f → Kept (set w i o) f
set-Kept i f o w empty (inl done) = inl done
set-Kept i f o w empty (inr (j, has)) = inr (j, ground arith)

take-Kept :
    (i k f : ℕ) (w : Files)
    → w.handles i ≡ none
    → Kept w f
    → Kept (clear k (set w i (w.handles k))) f
take-Kept i k f w empty (inl done) = inl done
take-Kept i k f w empty (inr (j, has)) = elim (Bool-cases (j == k)) [
  | inl moved ↦ inr (i, ground arith)
  | inr stays ↦ inr (j, ground arith)
]

module _ (sys : ℕ → Answer) where
  close-Kept : (i f : ℕ) (w : Files) → Kept w f → Kept (close sys i w).0 f
  close-Kept i f w k = elim (Option-cases (w.handles i)) [
    | inl gone ↦ rw gone k
    | inr (fd, has) ↦ rw has (elim k [
      | inl done ↦ inl (ground arith)
      | inr (j, holds) ↦ elim (Bool-cases (f == fd)) [
        | inl same ↦ inl (ground arith)
        | inr other ↦ inr (j, ground arith)
      ]
    ])
  ]

  release-Kept : (i f : ℕ) (w : Files) → Kept w f → Kept (release sys i w) f
  release-Kept i f w k = elim (Option-cases (w.handles i)) [
    | inl gone ↦ rw gone (set-Kept i f none w gone k)
    | inr (fd, has) ↦ rw has (elim k [
      | inl done ↦ inl (ground arith)
      | inr (j, holds) ↦ elim (Bool-cases (f == fd)) [
        | inl same ↦ inl (ground arith)
        | inr other ↦ inr (j, ground arith)
      ]
    ])
  ]

  close-Complete : (i : ℕ) (w : Files) → Complete w → Complete (close sys i w).0
  close-Complete i w c f h = close-Kept i f w (c f (rw (close-next sys i w) at h))

  -- a file that was just opened goes to the object
  adopt-Complete :
      (i n : ℕ) (w : Files)
      → w.handles i ≡ none
      → w.next ≡ n
      → Complete w
      → Complete (set (opened w) i (some n))
  adopt-Complete i n w empty e c f h = elim (Bool-cases (f == n)) [
    | inl new ↦ inr (i, rw ((==_iff i i).1 refl) (ap some (sym ((==_iff f n).0 new))))
    | inr old ↦ set-Kept i f (some n) w empty (c f (ground arith))
  ]

  close-opened : (i : ℕ) (w : Files) → (close sys i (opened w)).0 ≡ opened (close sys i w).0
  close-opened i w = elim (Option-cases (w.handles i)) [
    | inl gone ↦ rw gone refl
    | inr (fd, has) ↦ rw has refl
  ]

  release-next : (i : ℕ) (w : Files) → (release sys i w).next ≡ w.next
  release-next i w = elim (Option-cases (w.handles i)) [
    | inl gone ↦ rw gone refl
    | inr (fd, has) ↦ rw has refl
  ]

  construct-Complete : (i : ℕ) (w : Files) → Complete w → Complete (call sys (constructs i) w)
  unfolding call
  construct-Complete i w c =
      adopt-Complete i w.next (close sys i w).0 (close-none sys i w) (close-next sys i w)
        (close-Complete i w c)

  close-ok :
      (i : ℕ) (w : Files) → ((f : ℕ) → ok (posix_close sys f) ≡ true) → ok (close sys i w).1 ≡ true
  close-ok i w fine = elim (Option-cases (w.handles i)) [
    | inl gone ↦ rw gone refl
    | inr (fd, has) ↦ rw has (fine fd)
  ]

  reset-Complete :
      (i : ℕ) (w : Files)
      → ((f : ℕ) → ok (posix_close sys f) ≡ true)
      → Complete w
      → Complete (call sys (resets i) w)
  unfolding call
  reset-Complete i w fine c =
      rw (call, close-ok i (opened w) fine, close-opened i w)
        (adopt-Complete i w.next (close sys i w).0 (close-none sys i w) (close-next sys i w)
          (close-Complete i w c))

  assign-Complete : (i k : ℕ) (w : Files) → Complete w → Complete (call sys (move_assigns i k) w)
  unfolding call
  assign-Complete i k w c =
      let c' = close-Complete i w c in
      elim (Bool-cases (ok (close sys i w).1)) [
        | inl fine ↦
            rw (call, fine) (λ f h. take-Kept i k f (close sys i w).0 (close-none sys i w) (c' f h))
        | inr wrong ↦ rw (call, wrong) c'
      ]

  call-Complete :
      (cs : Call) (w : Files)
      → ((f : ℕ) → ok (posix_close sys f) ≡ true)
      → Complete w
      → Complete (call sys cs w)
  unfolding call
  call-Complete (constructs i) w fine c = construct-Complete i w c
  call-Complete (destructs i) w fine c = close-Complete i w c
  call-Complete (closes_it i) w fine c = close-Complete i w c
  call-Complete (releases i) w fine c = λ f h. release-Kept i f w (c f (rw (release-next i w) at h))
  call-Complete (resets i) w fine c = reset-Complete i w fine c
  call-Complete (move_constructs i k) w fine c = elim (Bool-cases (i == k)) [
    | inl same ↦ rw same c
    | inr apart ↦
        rw apart
          (λ f h. take-Kept i k f (close sys i w).0 (close-none sys i w) (close-Complete i w c f h))
  ]
  call-Complete (move_assigns i k) w fine c = assign-Complete i k w c

  run-Complete :
      (cs : List Call) (w : Files)
      → ((f : ℕ) → ok (posix_close sys f) ≡ true)
      → Complete w
      → Complete (run sys cs w)
  unfolding run
  run-Complete [] w fine c = c
  run-Complete (d ∷ cs) w fine c = run-Complete cs (call sys d w) fine (call-Complete d w fine c)

-- Where no `close` fails, no open file is lost, whatever the calls: each file that was opened is
-- closed once or handed out once, or an object holds it.
pub run_kept :
    (sys : ℕ → Answer) (cs : List Call) (f : ℕ)
    → ((g : ℕ) → ok (posix_close sys g) ≡ true)
    → f < (run sys cs no_files).next
    → let w = run sys cs no_files in
      (w.closes f + w.released f ≡ 1) ⊎ ((i : ℕ) × (w.handles i ≡ some f))
run_kept sys cs f fine below =
    let w = run sys cs no_files in
    let o = run-Owned sys cs no_files no_files-Owned in
    elim (run-Complete sys cs no_files fine (λ g l. absurd (omega arith)) f below) [
      | inl done ↦ inl (let most = o.once f in omega arith)
      | inr held ↦ inr held
    ]

-- `reset` loses the file it is given where the `close` of the old one fails: after any calls, the
-- new file is not closed, not handed out, and no object holds it.
pub reset_leak :
    (sys : ℕ → Answer) (cs : List Call) (i f e : ℕ)
    → (run sys cs no_files).handles i ≡ some f
    → sys f ≡ fails e
    → let w = run sys cs no_files in
      let w' = call sys (resets i) w in
      (w.next < w'.next)
      × (w'.closes w.next + w'.released w.next ≡ 0)
      × ((j : ℕ) → w'.handles j ≢ some w.next)
unfolding call
reset_leak sys cs i f e has wrong =
    let w = run sys cs no_files in
    let o = run-Owned sys cs no_files no_files-Owned in
    let z = o.later w.next (omega arith) in
    let h = o.held i f has in
    rw (call, has, wrong)
      (omega arith, ground arith, λ j k. let g = o.held j w.next in ground arith)
