-- ===== src/UniqueHandler/Owners.antt =====
-- The owners of handlers, compared to the owners of files.
use mathlib.Core.Path.{fun_ext}
use asio_extensions.Prelude.{
  ℕ, suc, ◌≡◌, ◌⊎◌, ◌∙◌, inl, inr, refl, ap, sym, Bool, true, List, [], ◌∷◌, Option, none, some,
  ◌==◌, ==_iff, put, Bool-cases, Option-cases, arith,
}
use asio_extensions.Posix.{Answer, returns}
use asio_extensions.Handles.{
  Files, set, opened, clear, Call, constructs, destructs, closes_it, releases, resets,
  move_constructs, move_assigns, call, run,
}
use asio_extensions.UniqueHandler
use asio_extensions.UniqueHandler.{
  Handlers, no_handlers, point, do_abort, abort, destroy, move_construct, Action, act, perform,
  creates, destroys, stores, assigns, completes, moves_to, assigns_moved,
}

-- The owners of handlers as owners of files: an abort is a `close` that does not fail, an invocation
-- a `release`.
abbrev pub view : Handlers → Files
view w = record { handles = w.storage; next = w.fresh; closes = w.aborted; released = w.invoked }

abbrev pub closes_fine : ℕ → Answer
closes_fine f = returns 0

abbrev as_call : Action → Call
as_call (creates i) = destructs i
as_call (destroys i) = destructs i
as_call (stores i) = constructs i
as_call (assigns i) = resets i
as_call (completes i) = releases i
as_call (UniqueHandler.resets i) = closes_it i
as_call (moves_to i k) = move_constructs i k
as_call (assigns_moved i k) = move_assigns i k

put_same : (f : ℕ → Option ℕ) (i : ℕ) (o : Option ℕ) → f i ≡ o → put f i o ≡ f
put_same f i o e = fun_ext (λ j. elim (Bool-cases (j == i)) [
  | inl at_i ↦ rw at_i (sym e ∙ ap f (sym ((==_iff j i).0 at_i)))
  | inr other ↦ rw other refl
])

put_twice : (f : ℕ → Option ℕ) (i : ℕ) (a b : Option ℕ) → put (put f i a) i b ≡ put f i b
put_twice f i a b = fun_ext (λ j. ground arith)

abbrev files_of : ℕ → (ℕ → ℕ) → (ℕ → ℕ) → (ℕ → Option ℕ) → Files
files_of n c r h = record { handles = h; next = n; closes = c; released = r }

view-destroy : (i : ℕ) (w : Handlers) → view (destroy i w) ≡ call closes_fine (destructs i) (view w)
unfolding call
view-destroy i w = elim (Option-cases (w.storage i)) [
  | inl gone ↦ rw gone (ap (files_of w.fresh w.aborted w.invoked) (put_same w.storage i none gone))
  | inr (b, has) ↦ rw has refl
]

destroy-none :
    (i : ℕ) (w : Handlers) → ((destroy i w).storage i ≡ none) × ((destroy i w).fresh ≡ w.fresh)
destroy-none i w = elim (Option-cases (w.storage i)) [
  | inl gone ↦ rw gone (rw ((==_iff i i).1 refl) refl, refl)
  | inr (b, has) ↦ rw has (rw ((==_iff i i).1 refl) refl, refl)
]

view-move_assign :
    (i k : ℕ) (w : Handlers)
    → view (UniqueHandler.move_assign i k w) ≡ call closes_fine (move_assigns i k) (view w)
unfolding call
view-move_assign i k w = elim (Option-cases (w.storage i)) [
  | inl gone ↦ rw (call, gone) refl
  | inr (b, has) ↦
      rw (call, has)
        (ap (files_of w.fresh (put w.aborted b (suc (w.aborted b))) w.invoked)
          (fun_ext (λ j. ground arith)))
]

module _ (room : ℕ → Bool) where
  view-act :
      (a : Action) (w : Handlers)
      → ((n : ℕ) → room n ≡ true)
      → (view (act room a w) ≡ view w)
        ⊎ (view (act room a w) ≡ call closes_fine (as_call a) (view w))
  unfolding act call
  view-act (creates i) w r =
      inr (ap (files_of _ _ _) (put_same _ i none (destroy-none i w).0) ∙ view-destroy i w)
  view-act (destroys i) w r = inr (view-destroy i w)
  view-act (stores i) w r =
      let d = destroy i w in
      let (none_left, same_fresh) = destroy-none i w in
      inr (
        rw (act, call, r d.fresh)
          (ap (λ (n : ℕ). set (opened (view d)) i (some n)) same_fresh
            ∙ ap (λ (v : Files). set (opened v) i (some w.fresh)) (view-destroy i w)))
  view-act (assigns i) w r = elim (Option-cases (w.storage i)) [
    | inl gone ↦ inr (rw (act, call, gone, r w.fresh) refl)
    | inr (b, has) ↦ inr (
        rw (act, call, has, r w.fresh)
          (ap (files_of (suc w.fresh) (put w.aborted b (suc (w.aborted b))) w.invoked)
            (sym (put_twice w.storage i none (some w.fresh)))))
  ]
  view-act (completes i) w r = elim (Option-cases (w.storage i)) [
    | inl gone ↦ inl (rw gone refl)
    | inr (b, has) ↦ inr (rw has refl)
  ]
  view-act (UniqueHandler.resets i) w r = elim (Option-cases (w.storage i)) [
    | inl gone ↦ inl (rw gone refl)
    | inr (b, has) ↦ inr (rw has refl)
  ]
  view-act (moves_to i k) w r = elim (Bool-cases (i == k)) [
    | inl same ↦ inr (rw same refl)
    | inr apart ↦
        inr (rw apart (ap (λ (v : Files). clear k (set v i (v.handles k))) (view-destroy i w)))
  ]
  view-act (assigns_moved i k) w r = inr (view-move_assign i k w)

  -- What the owners of handlers do, owners of files can do.
  pub view-perform :
      (actions : List Action) (w : Handlers)
      → ((n : ℕ) → room n ≡ true)
      → (cs : List Call) × (view (perform room actions w) ≡ run closes_fine cs (view w))
  unfolding perform run
  view-perform [] w r = ([], refl)
  view-perform (a ∷ more) w r =
      let (cs, same) = view-perform more (act room a w) r in
      elim (view-act a w r) [
        | inl idle ↦ (cs, same ∙ ap (run closes_fine cs) idle)
        | inr one ↦ (as_call a ∷ cs, same ∙ ap (run closes_fine cs) one)
      ]
