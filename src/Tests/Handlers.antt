-- ===== src/Tests/Handlers.antt =====
-- Theorems on stored handlers and composed operations at short runs.
use asio_extensions.Prelude.{
  ℕ, suc, ◌+◌, ◌≡◌, ◌≢◌, ◌⊎◌, refl, true, Bool, List, [], ◌∷◌, some, ◌==◌, arith,
}
use asio_extensions.UniqueHandler.{
  Handlers, no_handlers, Action, stores, moves_to, assigns, completes, perform,
}
use asio_extensions.UniqueHandler.Once.{perform_once, assign_dangling}

abbrev some_actions : List Action
some_actions = stores 0 ∷ moves_to 1 0 ∷ assigns 0 ∷ completes 1 ∷ []

always : ℕ → Bool
always n = true

-- The invoked handler puts a new one in its place.
abbrev after_actions : Handlers
after_actions = perform (λ n. true) some_actions no_handlers

perform_once_example :
    (((i : ℕ) → after_actions.storage i ≢ some 0)
      × (after_actions.invoked 0 + after_actions.aborted 0 ≡ 1)
      × (after_actions.freed 0 ≡ 1))
    ⊎ ((i : ℕ) × (after_actions.storage i ≡ some 0)
        × ((k : ℕ) → after_actions.storage k ≡ some 0 → k ≡ i)
        × (after_actions.invoked 0 + after_actions.aborted 0 ≡ 0)
        × (after_actions.freed 0 ≡ 0))
unfolding perform
perform_once_example = perform_once (λ n. true) some_actions 0 (λ n. refl) (omega arith)

-- room for the first allocation only
abbrev once_room : ℕ → Bool
once_room n = n == 0

abbrev one_stored : Handlers
one_stored = perform once_room (stores 0 ∷ []) no_handlers

assign_dangling_example :
    let w' = perform once_room (assigns 0 ∷ []) one_stored in
    let w'' = perform once_room (assigns 0 ∷ completes 0 ∷ []) one_stored in
    (w'.storage 0 ≡ some 0)
    × (w'.freed 0 ≡ suc (one_stored.freed 0))
    × (w'.invoked 0 + w'.aborted 0 ≡ suc (one_stored.invoked 0 + one_stored.aborted 0))
    × (w''.freed 0 ≡ 2 + one_stored.freed 0)
    × (w''.invoked 0 + w''.aborted 0 ≡ 2 + (one_stored.invoked 0 + one_stored.aborted 0))
unfolding perform
assign_dangling_example = assign_dangling once_room one_stored 0 0 (completes 0) refl refl refl
