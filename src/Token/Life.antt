-- ===== src/Token/Life.antt =====
-- How long tokens live.
use asio_extensions.Prelude.{
  ℕ, ◌≡◌, ==_iff, refl, Bool, true, false, List, [], ◌∷◌, Option, none, some, ◌==◌, ==_iff,
  if◌then◌else◌, put, Bool-cases, Option-cases, ◌∙◌, not, inl, inr, arith,
}
use asio_extensions.Token.{
  token, cancelled, World, Call, constructs, cancels, destroys, resets, move_constructs,
  move_assigns, call, run, fresh,
}
use asio_extensions.Token.Owners.{Valid, call-Valid, reset_lem}
use asio_extensions.Token.Trace.{follow, Held, Held-run, Held-call}

fresh-Valid : Valid fresh
fresh-Valid = record {
  null = λ j. refl;
  once = λ j b e. absurd (cc);
  sole = λ j k b e f. absurd (cc);
}

run-Valid : (cs : List Call) (w : World) → Valid w → Valid (run cs w)
unfolding run
run-Valid [] w v = v
run-Valid (c ∷ cs) w v = run-Valid cs (call c w) (call-Valid c w v)

abbrev pub is_none : Option ℕ → Bool
is_none none = true
is_none (some i) = false

-- the sources that give out tokens which live
abbrev pub alive_call : Call → (ℕ → Bool) → ℕ → Bool
alive_call (constructs i) a = put a i true
alive_call (cancels i) a = put a i true
alive_call (destroys i) a = put a i false
alive_call (resets i) a = put a i true
alive_call (move_constructs i k) a = if i == k then a else put (put a k false) i (a k)
alive_call (move_assigns i k) a = if i == k then a else put (put a k false) i (a k)

pub alive : List Call → (ℕ → Bool) → ℕ → Bool
alive [] a = a
alive (c ∷ cs) a = alive cs (alive_call c a)

abbrev Alive : World → (ℕ → Bool) → Type 0
Alive w a = (j : ℕ) → is_none (w.sources j).block ≡ not (a j)

Alive-call :
    (c : Call) (w : World) (a : ℕ → Bool) → Valid w → Alive w a → Alive (call c w) (alive_call c a)
unfolding call
Alive-call (constructs i) w a v h j = let g = h j in ground arith
Alive-call (cancels i) w a v h j = let g = h j in ground arith
Alive-call (destroys i) w a v h j = let g = h j in ground arith
Alive-call (resets i) w a v h j = let g = h j in let n = v.null i in ground arith
Alive-call (move_constructs i k) w a v h j =
    let g = h j in
    let l = h k in
    elim (Bool-cases (i == k)) [ inl same ↦ rw same g | inr apart ↦ rw apart (ground arith) ]
Alive-call (move_assigns i k) w a v h j =
    let g = h j in
    let l = h k in
    elim (Bool-cases (i == k)) [ inl same ↦ rw same g | inr apart ↦ rw apart (ground arith) ]

Alive-run :
    (cs : List Call) (w : World) (a : ℕ → Bool)
    → Valid w
    → Alive w a
    → Alive (run cs w) (alive cs a)
unfolding run alive
Alive-run [] w a v h = h
Alive-run (c ∷ cs) w a v h =
    Alive-run cs (call c w) (alive_call c a) (call-Valid c w v) (Alive-call c w a v h)

Held-some : (w : World) (b i : ℕ) → (w.sources i).block ≡ some b → Held w b (some i)
unfolding Held
Held-some w b i e = e

cancelled-Held :
    (w : World) (b : ℕ) (o : Option ℕ)
    → Valid w
    → Held w b o
    → cancelled (some b) w.blocks ≡ is_none o
unfolding Held
cancelled-Held w b none v h = let u = h.unused in ground arith
cancelled-Held w b (some i) v h = let u = (v.once i b h).0 in ground arith

-- A token that is made after some calls is cancelled after further calls just where the source that
-- it was made from was destroyed, or has let the token go since: by a call of `cancel`, `destroy` or
-- `reset`, or by another source taking its place. A move hands the token on to the other source.
-- This holds for all calls on all sources, in any order.
pub token_life :
    (before after : List Call) (i : ℕ)
    → let w = run before fresh in
      cancelled (token (w.sources i)) (run after w).blocks
      ≡ (if alive before (λ j. false) i then is_none (follow after (some i)) else true)
token_life before after i =
    let w = run before fresh in
    let v = run-Valid before fresh fresh-Valid in
    let lives = Alive-run before fresh (λ j. false) fresh-Valid (λ j. refl) i in
    elim (Option-cases (w.sources i).block) [
      | inl empty_is ↦
          let dead : alive before (λ j. false) i ≡ false =
            let l : true ≡ not _ = rw empty_is at lives in ground arith in
          rw (empty_is, dead) refl
      | inr (b, owned) ↦
          let living : alive before (λ j. false) i ≡ true =
            let l : false ≡ not _ = rw owned at lives in ground arith in
          let (v', held) = Held-run after w b (some i) v (Held-some w b i owned) in
          rw (owned, living) (cancelled-Held (run after w) b (follow after (some i)) v' held)
    ]

-- `reset` of a source that was not destroyed cancels all tokens made from it.
pub reset-cancels :
    (before : List Call) (i : ℕ)
    → let w = run before fresh in
      (call (resets i) w ≡ call (cancels i) w)
      × (cancelled (token (w.sources i)) (call (resets i) w).blocks ≡ true)
reset-cancels before i =
    let w = run before fresh in
    let v = run-Valid before fresh fresh-Valid in
    elim (Option-cases (w.sources i).block) [
      | inl empty_is ↦ (reset_lem i w v, rw empty_is refl)
      | inr (b, owned) ↦
          let v' = call-Valid (resets i) w v in
          let held = Held-call (resets i) w b i v owned in
          (
            reset_lem i w v,
            rw owned
                (cancelled-Held (call (resets i) w) b _ v' held ∙ rw ((==_iff i i).1 refl) refl),
          )
    ]
