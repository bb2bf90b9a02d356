-- ===== src/UniqueHandler/Once.antt =====
-- How often a stored handler is invoked, destroyed and deallocated.
use asio_extensions.Prelude.{
  ℕ, suc, ◌+◌, ◌<◌, ◌≡◌, ◌≢◌, ◌⊎◌, inl, inr, refl, sym, subst, Bool, true, false, ◌&&◌, not, List,
  [], ◌∷◌, Option, none, some, ◌==◌, ==_iff, Bool-cases, Option-cases, arith,
}
use asio_extensions.Handles.{Files, no_files}
use asio_extensions.Handles.Owned.{Owned, run-Owned, no_files-Owned}
use asio_extensions.Handles.Leak.{run_kept}
use asio_extensions.UniqueHandler
use asio_extensions.UniqueHandler.{
  Handlers, no_handlers, point, do_abort, abort, destroy, move_construct, Action, act, perform,
  creates, destroys, stores, assigns, completes, moves_to, assigns_moved,
}
use asio_extensions.UniqueHandler.Owners.{closes_fine, view-perform}

-- where a handler that was stored is
abbrev Placed : Files → ℕ → Type 0
Placed v b = (v.closes b + v.released b ≡ 1) ⊎ ((i : ℕ) × (v.handles i ≡ some b))

module _ (room : ℕ → Bool) where
  -- Storage is deallocated just where the handler ends.
  abbrev Balanced : Handlers → Type 0
  Balanced w = (b : ℕ) → w.freed b ≡ w.invoked b + w.aborted b

  abort-Balanced : (i : ℕ) (w : Handlers) → Balanced w → Balanced (abort i w)
  abort-Balanced i w h = elim (Option-cases (w.storage i)) [
    | inl gone ↦ rw gone h
    | inr (b, has) ↦ rw has (λ c. let e = h c in let e' = h b in ground arith)
  ]

  store-Balanced : (i : ℕ) (w : Handlers) → Balanced w → Balanced (UniqueHandler.store room i w)
  store-Balanced i w h = elim (Bool-cases (room w.fresh)) [
    | inl fits ↦ rw fits h
    | inr full ↦ rw full h
  ]

  act-Balanced : (a : Action) (w : Handlers) → Balanced w → Balanced (act room a w)
  unfolding act
  act-Balanced (creates i) w h = abort-Balanced i w h
  act-Balanced (destroys i) w h = abort-Balanced i w h
  act-Balanced (stores i) w h = store-Balanced i (destroy i w) (abort-Balanced i w h)
  act-Balanced (assigns i) w h = store-Balanced i (abort i w) (abort-Balanced i w h)
  act-Balanced (completes i) w h = elim (Option-cases (w.storage i)) [
    | inl gone ↦ rw gone h
    | inr (b, has) ↦ rw has (λ c. let e = h c in let e' = h b in ground arith)
  ]
  act-Balanced (UniqueHandler.resets i) w h = elim (Option-cases (w.storage i)) [
    | inl gone ↦ rw gone h
    | inr (b, has) ↦ rw has (λ c. let e = h c in let e' = h b in ground arith)
  ]
  act-Balanced (moves_to i k) w h = elim (Bool-cases (i == k)) [
    | inl same ↦ rw same h
    | inr apart ↦ rw apart (abort-Balanced i w h)
  ]
  act-Balanced (assigns_moved i k) w h = abort-Balanced i w h

  perform-Balanced :
      (actions : List Action) (w : Handlers) → Balanced w → Balanced (perform room actions w)
  unfolding perform
  perform-Balanced [] w h = h
  perform-Balanced (a ∷ more) w h = perform-Balanced more (act room a w) (act-Balanced a w h)

-- Where the allocator always has room, each handler that was stored is, after any calls, either held
-- by one object alone, with its storage allocated and neither invoked nor destroyed, or was invoked
-- or destroyed, only one of the two and once, and its storage was deallocated once.
pub perform_once :
    (room : ℕ → Bool) (actions : List Action) (b : ℕ)
    → ((n : ℕ) → room n ≡ true)
    → b < (perform room actions no_handlers).fresh
    → let w = perform room actions no_handlers in
      (((i : ℕ) → w.storage i ≢ some b) × (w.invoked b + w.aborted b ≡ 1) × (w.freed b ≡ 1))
      ⊎ ((i : ℕ) × (w.storage i ≡ some b)
          × ((k : ℕ) → w.storage k ≡ some b → k ≡ i)
          × (w.invoked b + w.aborted b ≡ 0)
          × (w.freed b ≡ 0))
perform_once room actions b r below =
    let w = perform room actions no_handlers in
    let (cs, same) = view-perform room actions no_handlers r in
    let o = subst Owned (sym same) (run-Owned closes_fine cs no_files no_files-Owned) in
    let balance = perform-Balanced room actions no_handlers (λ c. refl) b in
    elim (subst (λ v. b < v.next → Placed v b) (sym same) (run_kept closes_fine cs b (λ g. refl))
      below) [
        | inl done ↦ inl (λ i e. ground (arith, o.held i b e), omega arith, omega arith)
        | inr (i, has) ↦ inr (
          i,
          has,
          λ k e. o.sole k i b e has,
          ground (arith, o.held i b has),
          ground (arith, o.held i b has),
        )
      ]

-- the calls that end what an object holds
abbrev pub ends : ℕ → Action → Bool
ends i (creates j) = j == i
ends i (destroys j) = j == i
ends i (stores j) = j == i
ends i (assigns j) = j == i
ends i (completes j) = j == i
ends i (UniqueHandler.resets j) = j == i
ends i (moves_to j k) = j == i && not (j == k)
ends i (assigns_moved j k) = j == i

-- A handler is invoked or destroyed, and deallocated, from one state to the other.
record Ended (b : ℕ) (w w' : Handlers) : Type 0 where
  once : w'.invoked b + w'.aborted b ≡ suc (w.invoked b + w.aborted b)
  freed_once : w'.freed b ≡ suc (w.freed b)

module _ (room : ℕ → Bool) (i b : ℕ) where
  store-Ended : (j : ℕ) (w v : Handlers) → Ended b w v → Ended b w (UniqueHandler.store room j v)
  store-Ended j w v e = elim (Bool-cases (room v.fresh)) [
    | inl fits ↦ rw fits (record { once = e.once; freed_once = e.freed_once })
    | inr full ↦ rw full (record { once = e.once; freed_once = e.freed_once })
  ]

  abort-Ended : (w : Handlers) → w.storage i ≡ some b → Ended b w (abort i w)
  abort-Ended w has = rw (abort, has) (record { once = ground arith; freed_once = ground arith })

  pointed : (j : ℕ) (o : Option ℕ) (w v : Handlers) → Ended b w v → Ended b w (point j o v)
  pointed j o w v e = record { once = e.once; freed_once = e.freed_once }

  act-Ended :
      (a : Action) (w : Handlers)
      → w.storage i ≡ some b
      → ends i a ≡ true
      → Ended b w (act room a w)
  unfolding act
  act-Ended (creates j) w has h =
      let e = (==_iff j i).0 h in rw e (pointed i none w _ (pointed i none w _ (abort-Ended w has)))
  act-Ended (destroys j) w has h =
      let e = (==_iff j i).0 h in rw e (pointed i none w _ (abort-Ended w has))
  act-Ended (stores j) w has h =
      let e = (==_iff j i).0 h in rw e (store-Ended i w _ (pointed i none w _ (abort-Ended w has)))
  act-Ended (assigns j) w has h =
      let e = (==_iff j i).0 h in rw e (store-Ended i w _ (abort-Ended w has))
  act-Ended (completes j) w has h =
      let e = (==_iff j i).0 h in
      rw (e, has) (record { once = ground arith; freed_once = ground arith })
  act-Ended (UniqueHandler.resets j) w has h =
      let e = (==_iff j i).0 h in
      rw (e, has) (record { once = ground arith; freed_once = ground arith })
  act-Ended (moves_to j k) w has h =
      let same : (j == i) ≡ true = ground arith in
      let apart : (j == k) ≡ false = ground arith in
      let e = (==_iff j i).0 same in
      rw apart
        (rw e (pointed k none w _ (pointed i _ w _ (pointed i none w _ (abort-Ended w has)))))
  act-Ended (assigns_moved j k) w has h =
      let e = (==_iff j i).0 h in rw e (pointed k none w _ (pointed i _ w _ (abort-Ended w has)))

-- An assignment whose allocation fails keeps a pointer to the storage that it has just ended and
-- deallocated: whichever call comes next and ends what the object holds, be it the destructor,
-- a new construction, an assignment, `complete` or `reset`, the same handler is invoked or destroyed
-- once more and the same storage is deallocated again.
pub assign_dangling :
    (room : ℕ → Bool) (w : Handlers) (i b : ℕ) (a : Action)
    → w.storage i ≡ some b
    → room w.fresh ≡ false
    → ends i a ≡ true
    → let w' = perform room (assigns i ∷ []) w in
      let w'' = perform room (assigns i ∷ a ∷ []) w in
      (w'.storage i ≡ some b)
      × (w'.freed b ≡ suc (w.freed b))
      × (w'.invoked b + w'.aborted b ≡ suc (w.invoked b + w.aborted b))
      × (w''.freed b ≡ 2 + w.freed b)
      × (w''.invoked b + w''.aborted b ≡ 2 + (w.invoked b + w.aborted b))
unfolding perform
assign_dangling room w i b a has full h =
    let w' = act room (assigns i) w in
    let kept : w'.storage i ≡ some b = unfold act in rw (has, full) has in
    let first = act-Ended room i b (assigns i) w has ((==_iff i i).1 refl) in
    let second = act-Ended room i b a w' kept h in
    (
      kept,
      first.freed_once,
      first.once,
      omega (arith, first.freed_once, second.freed_once),
      omega (arith, first.once, second.once),
    )
