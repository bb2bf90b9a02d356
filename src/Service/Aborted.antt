-- ===== src/Service/Aborted.antt =====
-- Operations that wait for a thread of the pool.
use asio_extensions.Prelude.{
  ℕ, ◌≡◌, ◌≢◌, inl, inr, refl, sym, ap, ◌∙◌, Bool, true, false, ◌&&◌, not, List, [], ◌∷◌, ◌++◌,
  Option, none, some, ◌==◌, ==_iff, if◌then◌else◌, Bool-cases, Option-cases, arith,
}
use asio_extensions.Posix.{Answer, returns, Code}
use asio_extensions.Handles.{ok}
use asio_extensions.Token.{Shared, Blocks}
use asio_extensions.Token
use asio_extensions.Token.Trace.{follow}
use asio_extensions.Token.Gone.{gives, call-empty}
use asio_extensions.Token.Life.{alive, is_none, token_life}
use asio_extensions.Service.{
  nothing, close_code, State, Call, constructs, move_constructs, move_assigns, destroys, opens,
  assigns, closes, cancels, step, run, close_for_destruction, unless_thrown, move_rest, move_assign,
  unlink, code, operation_aborted, initiate, perform, open_at, assign, close, cancel,
}

-- the sources of the implementations, as sources alone
abbrev pub sources_of : State → Token.World
sources_of w = record { sources = w.source; blocks = w.blocks }

abbrev pub when_open : Option ℕ → List Token.Call → List Token.Call
when_open none cs = []
when_open (some fd) cs = cs

-- What the calls do to the sources.
abbrev pub emits : Call → State → List Token.Call
emits (constructs s i) w = Token.resets i ∷ []
emits (move_constructs s i k) w = Token.move_assigns i k ∷ []
emits (move_assigns this other i k) w = when_open (w.handle i) (Token.destroys i ∷ [])
emits (destroys s i) w = when_open (w.handle i) (Token.destroys i ∷ [])
emits (opens i given) w = []
emits (assigns i given) w = []
emits (closes i) w = []
emits (cancels i ec) w = when_open (w.handle i) (Token.cancels i ∷ [])

run-append :
    (a b : List Token.Call) (w : Token.World) → Token.run (a ++ b) w ≡ Token.run b (Token.run a w)
unfolding Token.run
run-append [] b w = refl
run-append (c ∷ a) b w = run-append a b _

module _ (sys : ℕ → Answer) where
  close_emits :
      (i : ℕ) (w : State) (f : State → State)
      → ((v : State) → sources_of (f v) ≡ sources_of v)
      → sources_of (unless_thrown f (close_for_destruction sys i w)).0
        ≡ Token.run (when_open (w.handle i) (Token.destroys i ∷ [])) (sources_of w)
  unfolding close_for_destruction Token.run
  close_emits i w f keeps = elim (Option-cases (w.handle i)) [
    | inl gone ↦ rw (unless_thrown, gone) (keeps w)
    | inr (fd, has) ↦ elim (Bool-cases (ok (close_code (sys fd)))) [
      | inl fine ↦ rw (unless_thrown, has, fine) (keeps _)
      | inr wrong ↦ rw (unless_thrown, has, wrong) refl
    ]
  ]

  step-emits :
      (c : Call) (w : State) → sources_of (step sys c w) ≡ Token.run (emits c w) (sources_of w)
  unfolding step Token.run
  step-emits (constructs s i) w = refl
  step-emits (move_constructs s i k) w = elim (Bool-cases (i == k)) [
    | inl same ↦ rw same refl
    | inr apart ↦ rw apart refl
  ]
  step-emits (move_assigns this other i k) w = close_emits i w (move_rest sys this other i k) (λ v.
      elim (Bool-cases (this == other)) [ inl same ↦ rw same refl | inr apart ↦ rw apart refl ])
  step-emits (destroys s i) w = close_emits i w (unlink s i) (λ v. refl)
  step-emits (opens i given) w = elim (Option-cases (w.handle i)) [
    | inl gone ↦ rw (step, open_at, gone) refl
    | inr (fd, has) ↦ rw (step, open_at, has) refl
  ]
  step-emits (assigns i given) w = elim (Option-cases (w.handle i)) [
    | inl gone ↦ rw (step, assign, gone) refl
    | inr (fd, has) ↦ rw (step, assign, has) refl
  ]
  step-emits (closes i) w = elim (Option-cases (w.handle i)) [
    | inl gone ↦ rw (step, close, gone) refl
    | inr (fd, has) ↦ rw (step, close, has) refl
  ]
  step-emits (cancels i ec) w = elim (Option-cases (w.handle i)) [
    | inl gone ↦ rw (step, cancel, gone) refl
    | inr (fd, has) ↦ rw (step, cancel, has) refl
  ]

  pub emitted : List Call → State → List Token.Call
  emitted [] w = []
  emitted (c ∷ cs) w = emits c w ++ emitted cs (step sys c w)

  run-emitted :
      (cs : List Call) (w : State)
      → sources_of (run sys cs w) ≡ Token.run (emitted cs w) (sources_of w)
  unfolding run emitted Token.run
  run-emitted [] w = refl
  run-emitted (c ∷ cs) w =
      run-emitted cs (step sys c w)
      ∙ ap (Token.run (emitted cs (step sys c w))) (step-emits c w)
      ∙ sym (run-append (emits c w) (emitted cs (step sys c w)) (sources_of w))

-- An operation that is posted after some calls and comes to a thread after further calls is aborted
-- just where its file had a destroyed source, or the source has let it go since; otherwise it is
-- performed, on the handle that the file had when it was posted.
pub pending_run :
    (sys : ℕ → Answer) (before after : List Call) (i : ℕ) (impl : Option ℕ → ℕ × Code)
    → let w = run sys before nothing in
      let lost =
        if alive (emitted sys before nothing) (λ j. false) i
        then is_none (follow (emitted sys after w) (some i))
        else true in
      perform impl (initiate i w) (run sys after w) ≡ (
        if lost
        then (operation_aborted, 0)
        else (code (impl (w.handle i)).1, (impl (w.handle i)).0))
pending_run sys before after i impl =
    let w = run sys before nothing in
    let first = run-emitted sys before nothing in
    let second = run-emitted sys after w in
    let calls = emitted sys after w in
    let is_cancelled =
      λ (v u : Token.World). Token.cancelled (Token.token (v.sources i)) u.blocks in
    let life =
      ap (λ u. is_cancelled (sources_of w) u) second
      ∙ ap (λ v. is_cancelled v (Token.run calls v)) first
      ∙ token_life (emitted sys before nothing) calls i in
    rw life refl

-- the calls that give an implementation a source: its constructors and `cancel`
abbrev pub renews : ℕ → Call → Bool
renews i (constructs s j) = j == i
renews i (move_constructs s j k) = j == i
renews i (cancels j ec) = j == i
renews i _ = false

abbrev pub spared : ℕ → List Call → Bool
spared i [] = true
spared i (c ∷ cs) = not (renews i c) && spared i cs

module _ (sys : ℕ → Answer) where
  when_open-empty :
      (o : Option ℕ) (c : Token.Call) (i : ℕ) (w : Token.World)
      → gives i c ≡ false
      → w.sources i ≡ Token.empty
      → (Token.run (when_open o (c ∷ [])) w).sources i ≡ Token.empty
  unfolding Token.run
  when_open-empty none c i w h e = e
  when_open-empty (some fd) c i w h e = call-empty c i w h e

  emits-empty :
      (c : Call) (i : ℕ) (v : State) (w : Token.World)
      → renews i c ≡ false
      → w.sources i ≡ Token.empty
      → (Token.run (emits c v) w).sources i ≡ Token.empty
  unfolding Token.run
  emits-empty (constructs s j) i v w h e = call-empty (Token.resets j) i w h e
  emits-empty (move_constructs s j k) i v w h e = call-empty (Token.move_assigns j k) i w h e
  emits-empty (move_assigns this other j k) i v w h e =
      when_open-empty (v.handle j) (Token.destroys j) i w refl e
  emits-empty (destroys s j) i v w h e = when_open-empty (v.handle j) (Token.destroys j) i w refl e
  emits-empty (opens j given) i v w h e = e
  emits-empty (assigns j given) i v w h e = e
  emits-empty (closes j) i v w h e = e
  emits-empty (cancels j ec) i v w h e = when_open-empty (v.handle j) (Token.cancels j) i w h e

  run-empty :
      (cs : List Call) (i : ℕ) (w : State)
      → spared i cs ≡ true
      → w.source i ≡ Token.empty
      → (run sys cs w).source i ≡ Token.empty
  unfolding run
  run-empty [] i w h e = e
  run-empty (c ∷ cs) i w h e = run-empty cs i (step sys c w) (ground arith) (
      ap (λ (u : Token.World). u.sources i) (step-emits sys c w)
      ∙ emits-empty c i w (sources_of w) (ground arith) e)

-- Where a file was open and is closed without an error when another file is moved to it, it has the
-- other's handle, but no source: an operation that is posted on it, right then or after any calls
-- but its construction and `cancel` on it, is aborted, whatever else happens before a thread comes to
-- it.
pub move_assign_aborts :
    (sys : ℕ → Answer) (this other i k fd r : ℕ) (cs : List Call) (w w' : State)
    (impl : Option ℕ → ℕ × Code)
    → w.handle i ≡ some fd
    → sys fd ≡ returns r
    → i ≢ k
    → spared i cs ≡ true
    → let after = (move_assign sys this other i k w).0 in
      (after.handle i ≡ w.handle k)
      × (perform impl (initiate i (run sys cs after)) w' ≡ (operation_aborted, 0))
unfolding move_assign close_for_destruction
move_assign_aborts sys this other i k fd r cs w w' impl has fine differ spares =
    let i_not_k : (i == k) ≡ false = ground arith in
    let self = (==_iff i i).1 refl in
    let k_not_i : (k == i) ≡ false = ground arith in
    let after = (move_assign sys this other i k w).0 in
    let (handle_is, none_left) : (after.handle i ≡ w.handle k) × (after.source i ≡ Token.empty) =
      elim (Bool-cases (this == other)) [
        | inl same ↦ rw (move_assign, has, fine, same, i_not_k, self, k_not_i) (refl, refl)
        | inr apart ↦ rw (move_assign, has, fine, apart, i_not_k, self, k_not_i) (refl, refl)
      ] in
    let later = run-empty sys cs i after spares none_left in (handle_is, rw later refl)
