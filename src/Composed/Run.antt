-- ===== src/Composed/Run.antt =====
-- Runs of a composed operation.
use asio_extensions.Prelude.{
  ℕ, suc, ◌+◌, ◌≡◌, ◌≤◌, refl, sym, ◌∙◌, ap, min, List, [], ◌∷◌, ◌++◌, some, length, arith,
}
use asio_extensions.Composed.{
  Guards, make_work_tuple, reset, Reply, waits, completes, binds, Operation, Finished, count,
  complete, bound, reply, resume, async_compose,
}
use asio_extensions.Composed.Work.{GuardLaws, occurrences, held, make_work_tuple-held, reset-held}

module _ (guards : Guards) {State Args Message : Type 0}
    (implementation : State → Message → guards.World → Reply State Args × guards.World) where
  -- The implementation waits again at each of the messages.
  pub data Waits : State → List Message → guards.World → State → guards.World → Type 0 where
    no_more : {i : State} {w : guards.World} → Waits i [] w i w
    once_more :
        {i i' j : State} {m : Message} {messages : List Message} {w w' v : guards.World}
        → implementation i m w ≡ (waits i', w')
        → Waits i' messages w' j v
        → Waits i (m ∷ messages) w j v

  module _ (handler : Args → guards.World → guards.World) where
    abbrev advanced : List guards.Guard → State → ℕ → Operation State guards.Guard
    advanced gs i n = record { impl = i; work = gs; state = n }

    count_le : (n : ℕ) → n ≤ 2 → count guards implementation handler n ≤ 2
    count_le n small = ground arith

    resume_run :
        (i j : State) (w v : guards.World) (messages : List Message) (gs : List guards.Guard)
        (n : ℕ) (m : Message) (rest : List Message)
        → n ≤ 2
        → Waits i messages w j v
        → resume guards implementation handler (messages ++ (m ∷ rest)) (advanced gs i n) w ≡ (
            let (r, u) = implementation j m v in
            reply guards implementation handler r
              (advanced gs j (min 2 (n + suc (length messages))))
              u
              (resume guards implementation handler rest))
    unfolding resume
    resume_run i j w v messages gs n m rest small no_more =
        ap
          (λ (s : ℕ).
            let (r, u) = implementation j m v in
            reply guards implementation handler r (advanced gs j s) u
              (resume guards implementation handler rest))
          (ground arith)
    resume_run i j w v (_ ∷ messages) gs n m rest small (once_more {i' = i'} {w' = w'} step more) =
        rw step (
          resume_run i' j w' v messages gs (count guards implementation handler n) m rest
            (count_le n small) more
          ∙ ap
              (λ (s : ℕ).
                let (r, u) = implementation j m v in
                reply guards implementation handler r (advanced gs j s) u
                  (resume guards implementation handler rest))
              (ground arith))

    -- Neither the implementation nor the handler ends or starts work by itself.
    module _ (laws : GuardLaws guards)
        (quiet : (i : State) (m : Message) (w : guards.World) (x : ℕ)
          → laws.outstanding (implementation i m w).1 x ≡ laws.outstanding w x)
        (handler_quiet : (a : Args) (w : guards.World) (x : ℕ)
          → laws.outstanding (handler a w) x ≡ laws.outstanding w x) where
      Waits-quiet :
          (i j : State) (w v : guards.World) (messages : List Message) (x : ℕ)
          → Waits i messages w j v
          → laws.outstanding v x ≡ laws.outstanding w x
      Waits-quiet i j w v messages x no_more = refl
      Waits-quiet i j w v (m ∷ messages) x (once_more {i' = i'} {w' = w'} step more) =
          Waits-quiet i' j w' v messages x more
          ∙ ap (λ (r : Reply State Args × guards.World). laws.outstanding r.1 x) (sym step)
          ∙ quiet i m w x

      complete-outstanding :
          (a : Args) (op : Operation State guards.Guard) (u : guards.World)
          → ((x : ℕ) → held guards laws op.work x ≤ laws.outstanding u x)
          → (x : ℕ)
          → laws.outstanding u x
            ≡ held guards laws op.work x
              + laws.outstanding (complete guards implementation handler a op u).in_the_end x
      complete-outstanding a op u owed x =
          let first =
            reset-held guards laws op.work (handler a u)
              (λ y. let h = owed y in let same = handler_quiet a u y in omega arith) in
          let (gs, w') = reset guards op.work (handler a u) in
          let again = reset-held guards laws gs w' (λ y. let h = (first y).0 in omega arith) x in
          let same = handler_quiet a u x in let once = first x in omega arith

      bound-outstanding :
          (a : Args) (op : Operation State guards.Guard) (u : guards.World)
          → ((x : ℕ) → held guards laws op.work x ≤ laws.outstanding u x)
          → (x : ℕ)
          → let o = bound guards implementation handler a op u in
            (laws.outstanding u x ≡ held guards laws op.work x + laws.outstanding o.at_handler x)
            × (laws.outstanding o.in_the_end x ≡ laws.outstanding o.at_handler x)
      bound-outstanding a op u owed x =
          let first = reset-held guards laws op.work u owed in
          let (gs, w') = reset guards op.work u in
          let again =
            reset-held guards laws gs (handler a w') (λ y. let h = (first y).0 in omega arith) x in
          let same = handler_quiet a w' x in let once = first x in (once.1, omega arith)

      reply-Waits :
          (executors : List ℕ) (i j : State) (messages : List Message) (m : Message)
          (rest : List Message) (w v u : guards.World) (r : Reply State Args)
          → Waits i messages (make_work_tuple guards executors w).1 j v
          → implementation j m v ≡ (r, u)
          → (async_compose guards implementation handler executors i (messages ++ (m ∷ rest)) w
              ≡ reply guards implementation handler r
                  (advanced
                    (make_work_tuple guards executors w).0
                    j
                    (min 2 (suc (length messages))))
                  u
                  (resume guards implementation handler rest))
            × ((x : ℕ) → laws.outstanding u x ≡ occurrences executors x + laws.outstanding w x)
      unfolding async_compose
      reply-Waits executors i j messages m rest w v u r more step =
          let (gs, w') = make_work_tuple guards executors w in
          (
            resume_run i j w' v messages gs 0 m rest (omega arith) more
                ∙ ap
                    (λ (p : Reply State Args × guards.World).
                      reply guards implementation handler p.0
                        (advanced gs j (min 2 (0 + suc (length messages)))) p.1
                        (resume guards implementation handler rest))
                    step
                ∙ ap
                    (λ (s : ℕ).
                      reply guards implementation handler r (advanced gs j s) u
                        (resume guards implementation handler rest))
                    (omega arith),
            λ x.
                let kept = Waits-quiet i j w' v messages x more in
                let made = (make_work_tuple-held guards laws executors x w).1 in
                let last : laws.outstanding u x ≡ laws.outstanding v x =
                  ap (λ (p : Reply State Args × guards.World). laws.outstanding p.1 x) (sym step)
                  ∙ quiet j m v x in
                omega arith,
          )

-- However often a composed operation waits, once its implementation calls `complete` the handler is
-- invoked with those arguments while the work of all its executors is outstanding, and in the end no
-- work is left of it; `state_` counts the invocations of the implementation, up to 2. The guards keep
-- their laws, and neither the implementation nor the handler starts or ends work.
pub composed_run :
    (guards : Guards) (State Args Message : Type 0)
    (implementation : State → Message → guards.World → Reply State Args × guards.World)
    (handler : Args → guards.World → guards.World) (laws : GuardLaws guards)
    → ((i : State) (m : Message) (w : guards.World) (x : ℕ)
        → laws.outstanding (implementation i m w).1 x ≡ laws.outstanding w x)
    → ((a : Args) (w : guards.World) (x : ℕ)
        → laws.outstanding (handler a w) x ≡ laws.outstanding w x)
    → (executors : List ℕ) (i j : State) (messages : List Message) (m : Message)
      (rest : List Message) (w v u : guards.World) (a : Args)
    → Waits guards implementation i messages (make_work_tuple guards executors w).1 j v
    → implementation j m v ≡ (completes a, u)
    → (o : Finished Args guards.World) × (async_compose guards implementation handler executors i
          (messages ++ (m ∷ rest))
          w
        ≡ some o)
      × (o.args ≡ a)
      × ((x : ℕ)
          → (laws.outstanding o.at_handler x ≡ occurrences executors x + laws.outstanding w x)
            × (laws.outstanding o.in_the_end x ≡ laws.outstanding w x))
      × (o.state ≡ min 2 (suc (length messages)))
composed_run guards State Args Message implementation handler laws quiet handler_quiet executors i j
      messages m rest w v u a more step =
    let (gs, w') = make_work_tuple guards executors w in
    let op = advanced guards implementation handler gs j (min 2 (suc (length messages))) in
    let (runs, still) =
      reply-Waits guards implementation handler laws quiet handler_quiet executors i j messages m
        rest w v u (completes a) more step in
    let owed : (x : ℕ) → held guards laws gs x ≤ laws.outstanding u x = λ x.
      let made = (make_work_tuple-held guards laws executors x w).0 in
      let before = still x in omega arith in
    (
      complete guards implementation handler a op u,
      runs,
      refl,
      λ x.
          let made = (make_work_tuple-held guards laws executors x w).0 in
          let ends =
            complete-outstanding guards implementation handler laws quiet handler_quiet a op u owed
              x in
          let before = still x in (before, omega arith),
      refl,
    )

-- Where the implementation posts a bound handler instead, the work of the operation is no longer
-- outstanding when the handler is invoked. The conditions are the same.
pub bound_run :
    (guards : Guards) (State Args Message : Type 0)
    (implementation : State → Message → guards.World → Reply State Args × guards.World)
    (handler : Args → guards.World → guards.World) (laws : GuardLaws guards)
    → ((i : State) (m : Message) (w : guards.World) (x : ℕ)
        → laws.outstanding (implementation i m w).1 x ≡ laws.outstanding w x)
    → ((a : Args) (w : guards.World) (x : ℕ)
        → laws.outstanding (handler a w) x ≡ laws.outstanding w x)
    → (executors : List ℕ) (i j : State) (messages : List Message) (m : Message)
      (rest : List Message) (w v u : guards.World) (a : Args)
    → Waits guards implementation i messages (make_work_tuple guards executors w).1 j v
    → implementation j m v ≡ (binds a, u)
    → (o : Finished Args guards.World) × (async_compose guards implementation handler executors i
          (messages ++ (m ∷ rest))
          w
        ≡ some o)
      × (o.args ≡ a)
      × ((x : ℕ)
          → (laws.outstanding o.at_handler x ≡ laws.outstanding w x)
            × (laws.outstanding o.in_the_end x ≡ laws.outstanding w x))
bound_run guards State Args Message implementation handler laws quiet handler_quiet executors i j
      messages m rest w v u a more step =
    let (gs, w') = make_work_tuple guards executors w in
    let op = advanced guards implementation handler gs j (min 2 (suc (length messages))) in
    let (runs, still) =
      reply-Waits guards implementation handler laws quiet handler_quiet executors i j messages m
        rest w v u (binds a) more step in
    let owed : (x : ℕ) → held guards laws gs x ≤ laws.outstanding u x = λ x.
      let made = (make_work_tuple-held guards laws executors x w).0 in
      let before = still x in omega arith in
    (
      bound guards implementation handler a op u,
      runs,
      refl,
      λ x.
          let made = (make_work_tuple-held guards laws executors x w).0 in
          let (ends, same) =
            bound-outstanding guards implementation handler laws quiet handler_quiet a op u owed
              x in
          let before = still x in (omega arith, omega arith),
    )
