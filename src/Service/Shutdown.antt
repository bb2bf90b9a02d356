-- ===== src/Service/Shutdown.antt =====
-- Shutting a service down.
use asio_extensions.Prelude.{
  ℕ, zero, suc, ◌≤◌, ◌≡◌, ◌⊎◌, inl, inr, refl, sym, ap, ◌∙◌, Bool, true, false, List, [], ◌∷◌,
  Option, none, some, ◌==◌, ==_iff, if◌then◌else◌, Bool-cases, Option-cases, length, ◌++◌, ◌&&◌,
  arith,
}
use asio_extensions.Posix.{Answer, returns, fails, Code, no_error, system}
use asio_extensions.Handles.{ok}
use asio_extensions.Token.{Shared, Blocks}
use asio_extensions.Token
use asio_extensions.Service.{State, close_for_destruction, shutdown_loop, shutdown_service}
use asio_extensions.Service.Links.{elem, elem_ne, distinct, Chain}
use asio_extensions.Service.Members.{Reach, reach-Lists}

and_false : (b : Bool) → (b && false) ≡ false
and_false true = refl
and_false false = refl

abbrev pub is_open : Option ℕ → Bool
is_open none = false
is_open (some fd) = true

-- Of the handles that implementations had: the system closed the one of `i`, if any.
abbrev pub ClosedFine : (ℕ → Answer) → (ℕ → Option ℕ) → ℕ → Type 0
ClosedFine sys handle i =
    (handle i ≡ none) ⊎ ((fd : ℕ) × (r : ℕ) × (handle i ≡ some fd) × (sys fd ≡ returns r))

-- How a shutdown ends: with all implementations closed, or at the first whose close the system
-- fails, with its error.
pub data End (sys : ℕ → Answer) (handle : ℕ → Option ℕ) : List ℕ → List ℕ → Code → Type 0 where
  all_closed : End sys handle [] [] no_error
  fails_at :
      (i fd e : ℕ) (b : List ℕ)
      → handle i ≡ some fd
      → sys fd ≡ fails e
      → End sys handle (i ∷ []) b (system e)
  goes_on :
      (i : ℕ) (a b : List ℕ) (ec : Code)
      → ClosedFine sys handle i
      → End sys handle a b ec
      → End sys handle (i ∷ a) b ec

end_frame :
    {sys : ℕ → Answer} {h h' : ℕ → Option ℕ} (a b : List ℕ) (ec : Code)
    → ((j : ℕ) → elem j a ≡ true → h' j ≡ h j)
    → End sys h' a b ec
    → End sys h a b ec
end_frame [] _ _ same all_closed = all_closed
end_frame (_ ∷ []) _ _ same (fails_at i fd e b has failed) =
    fails_at i fd e b (sym (same i (rw ((==_iff i i).1 refl) refl)) ∙ has) failed
end_frame (_ ∷ _) _ _ same (goes_on i a b ec fine rest) =
    let here = same i (rw ((==_iff i i).1 refl) refl) in
    goes_on i a b ec
      (elim fine [
        | inl gone ↦ inl (sym here ∙ gone)
        | inr (fd, r, has, closed) ↦ inr (fd, r, sym here ∙ has, closed)
      ])
      (end_frame a b ec (λ j m. same j (ground arith)) rest)

answer_cases : (a : Answer) → ((r : ℕ) × (a ≡ returns r)) ⊎ ((e : ℕ) × (a ≡ fails e))
answer_cases (returns r) = inl (r, refl)
answer_cases (fails e) = inr (e, refl)

elem_prefix : (i : ℕ) (a b : List ℕ) → elem i (a ++ b) ≡ false → elem i a ≡ false
elem_prefix i [] b h = refl
elem_prefix i (j ∷ a) b h = elim (Bool-cases (j == i)) [
  | inl same ↦ let h' = rw same at h in ground arith
  | inr other ↦ let h' = rw other at h in rw other (elem_prefix i a b h')
]

-- the descriptors that implementations hold, the last one first, in front of others
abbrev pub closed_of : (ℕ → Option ℕ) → List ℕ → List ℕ → List ℕ
closed_of handle [] before = before
closed_of handle (i ∷ a) before =
    closed_of handle a (elim (handle i) [ none ↦ before | some fd ↦ fd ∷ before ])

closed_of_frame :
    (h h' : ℕ → Option ℕ) (a before : List ℕ)
    → ((j : ℕ) → elem j a ≡ true → h' j ≡ h j)
    → closed_of h' a before ≡ closed_of h a before
closed_of_frame h h' [] before same = refl
closed_of_frame h h' (i ∷ a) before same =
    rw (same i (rw ((==_iff i i).1 refl) refl))
      (closed_of_frame h h' a _ (λ j m. same j (ground arith)))

-- The implementations of the first list were closed, in a shutdown of the first followed by the
-- second.
pub record Shut (sys : ℕ → Answer) (a b : List ℕ) (w w' : State) (ec : Code) : Type 0 where
  pub handles : (j : ℕ) → w'.handle j ≡ (if elem j a then none else w.handle j)
  pub sources :
      (j : ℕ) → w'.source j ≡ (if elem j a && is_open (w.handle j) then Token.empty else w.source j)
  pub calls : w'.closed ≡ closed_of w.handle a w.closed
  pub end : End sys w.handle a b ec

module _ (sys : ℕ → Answer) where
  -- an implementation that was closed for destruction
  abbrev pub shut : ℕ → State → State
  shut i w = (close_for_destruction sys i w).0

  shut_handle :
      (i : ℕ) (w : State) (j : ℕ) → (shut i w).handle j ≡ (if j == i then none else w.handle j)
  unfolding close_for_destruction
  shut_handle i w j = elim (Option-cases (w.handle i)) [
    | inl gone ↦ elim (Bool-cases (j == i)) [
      | inl same ↦ let e = ap w.handle ((==_iff j i).0 same) in rw (shut, gone, same) (e ∙ gone)
      | inr other ↦ rw (shut, gone, other) refl
    ]
    | inr (fd, has) ↦ rw (shut, has) refl
  ]

  shut_source :
      (i : ℕ) (w : State) (j : ℕ)
      → (shut i w).source j ≡ (
          if j == i then (if is_open (w.handle i) then Token.empty else w.source i) else w.source j)
  unfolding close_for_destruction
  shut_source i w j = elim (Option-cases (w.handle i)) [
    | inl gone ↦ elim (Bool-cases (j == i)) [
      | inl same ↦ let e = ap w.source ((==_iff j i).0 same) in rw (shut, gone, same) e
      | inr other ↦ rw (shut, gone, other) refl
    ]
    | inr (fd, has) ↦ rw (shut, has) refl
  ]

  -- what closing one implementation gives
  close_cases :
      (i : ℕ) (w : State)
      → let ec = (close_for_destruction sys i w).1 in
        (ClosedFine sys w.handle i × (ok ec ≡ true))
        ⊎ ((fd : ℕ) × (e : ℕ) × (w.handle i ≡ some fd) × (sys fd ≡ fails e) × (ec ≡ system e))
  unfolding close_for_destruction
  close_cases i w = elim (Option-cases (w.handle i)) [
    | inl gone ↦ inl (inl gone, rw gone refl)
    | inr (fd, has) ↦ elim (answer_cases (sys fd)) [
      | inl (r, fine) ↦ inl (inr (fd, r, has, fine), rw (has, fine) refl)
      | inr (e, failed) ↦ inr (fd, e, has, failed, rw (has, failed) refl)
    ]
  ]

  shut_closed :
      (i : ℕ) (w : State)
      → (shut i w).closed ≡ elim (w.handle i) [ none ↦ w.closed | some fd ↦ fd ∷ w.closed ]
  unfolding close_for_destruction
  shut_closed i w = elim (Option-cases (w.handle i)) [
    | inl gone ↦ rw (shut, gone) refl
    | inr (fd, has) ↦ rw (shut, has) refl
  ]

  shut_next : (i : ℕ) (w : State) → ((shut i w).next ≡ w.next) × ((shut i w).prev ≡ w.prev)
  unfolding close_for_destruction
  shut_next i w = elim (Option-cases (w.handle i)) [
    | inl gone ↦ rw (shut, gone) (refl, refl)
    | inr (fd, has) ↦ rw (shut, has) (refl, refl)
  ]

  -- one more implementation that was closed
  close_one :
      (i j : ℕ) (a : List ℕ) (h h' : ℕ → Option ℕ) (s s' t : ℕ → Shared)
      → h' j ≡ (if j == i then none else h j)
      → s' j ≡ (if j == i then (if is_open (h i) then Token.empty else s i) else s j)
      → t j ≡ (if elem j a && is_open (h' j) then Token.empty else s' j)
      → t j ≡ (if elem j (i ∷ a) && is_open (h j) then Token.empty else s j)
  close_one i j a h h' s s' t g e f = elim (Bool-cases (j == i)) [
    | inl same ↦
        let here = (==_iff j i).0 same in
        let closed : is_open (h' j) ≡ false = rw (rw same at g) refl in
        let handle_is = ap h here in
        let source_is = ap s here in
        let e' = rw same at e in
        let i_is_j = (==_iff i j).1 (sym here) in
        rw (i_is_j, handle_is, source_is) (f ∙ rw (closed, and_false (elem j a)) refl ∙ e')
    | inr other ↦
        let i_not_j : (i == j) ≡ false = ground arith in
        let g' : h' j ≡ h j = rw other at g in
        let e' : s' j ≡ s j = rw other at e in rw i_not_j (rw (g', e') at f)
  ]

  loop_run :
      (fuel : ℕ) (l : List ℕ) (q c : Option ℕ) (w : State)
      → length l ≤ fuel
      → distinct l ≡ true
      → Chain w.next w.prev q c l
      → (a : List ℕ) × (b : List ℕ) × (w' : State) × (ec : Code) × (shutdown_loop sys fuel c w
          ≡ some (w', ec))
        × (a ++ b ≡ l)
        × Shut sys a b w w' ec
  unfolding shutdown_loop
  loop_run zero [] q c w enough d ch = (
    [],
    [],
    w,
    no_error,
    rw ch refl,
    refl,
    record { handles = λ j. refl; sources = λ j. refl; calls = refl; end = all_closed },
  )
  loop_run (suc n) [] q c w enough d ch = (
    [],
    [],
    w,
    no_error,
    rw ch refl,
    refl,
    record { handles = λ j. refl; sources = λ j. refl; calls = refl; end = all_closed },
  )
  loop_run zero (i ∷ l) q c w enough d ch = absurd (omega arith)
  loop_run (suc n) (i ∷ l) q c w enough d (here, back, rest) =
      let w' = shut i w in
      let ec = (close_for_destruction sys i w).1 in
      let (same_next, same_prev) = shut_next i w in
      let handle_is = shut_handle i w in
      let source_is = shut_source i w in
      let rest' : Chain w'.next w'.prev (some i) (w'.next i) l = rw (same_next, same_prev) rest in
      let d' : distinct l ≡ true = ground arith in
      elim (close_cases i w) [
        | inr (fd, e, has, failed, ec_is) ↦
            let wrong : ok ec ≡ false = rw ec_is refl in
            (
              i ∷ [],
              l,
              w',
              ec,
              rw (here, wrong) refl,
              refl,
              record {
                handles = λ j. let h = handle_is j in ground arith;
                sources = λ j. let s = source_is j in ground arith;
                calls = shut_closed i w;
                end = rw ec_is (fails_at i fd e l has failed);
              },
            )
        | inl (fine_close, fine) ↦
            let (a, b, last, code, runs, parts, is) =
              loop_run n l (some i) (w'.next i) w' (omega arith) d' rest' in
            let not_again : elem i a ≡ false =
              elem_prefix i a b (ap (elem i) parts ∙ ground arith) in
            let same_handle : (j : ℕ) → elem j a ≡ true → w'.handle j ≡ w.handle j = λ j m.
              let g = handle_is j in let apart = elem_ne j i a m not_again in rw apart at g in
            (
              i ∷ a,
              b,
              last,
              code,
              rw (here, fine) runs,
              ap (λ t. i ∷ t) parts,
              record {
                handles = λ j. let g = is.handles j in let h = handle_is j in ground arith;
                sources = λ j.
                    close_one i j a w.handle w'.handle w.source w'.source last.source (handle_is j)
                      (source_is j) (is.sources j);
                calls =
                    is.calls
                    ∙ closed_of_frame w.handle w'.handle a w'.closed same_handle
                    ∙ ap (closed_of w.handle a) (shut_closed i w);
                end = goes_on i a b code fine_close (end_frame a b code same_handle is.end);
              },
            )
      ]

-- The shutdown of a service ends, with fuel for each of its implementations. It comes to them from
-- the head of the list on, and asks the system to close the file of each that is open, once and in
-- this order: they have no handle afterwards, and where one was open, its source is destroyed,
-- while all others stay as they are. It comes to all of them, without an error, where the system
-- closes each of their files; otherwise it ends at the first whose file the system fails to close,
-- with the error of that call.
pub shutdown_service_run :
    (sys : ℕ → Answer) (s fuel : ℕ) {w : State} {l : ℕ → List ℕ}
    → Reach sys w l
    → length (l s) ≤ fuel
    → (a : List ℕ) × (b : List ℕ) × (w' : State) × (ec : Code) × (shutdown_service sys fuel s w
        ≡ some (w', ec))
      × (a ++ b ≡ l s)
      × Shut sys a b w w' ec
shutdown_service_run sys s fuel {w} {l} r enough =
    let v = reach-Lists sys r in
    loop_run sys fuel (l s) none (w.impl_list s) w enough (v.once s) (v.chain s)
