-- ===== src/Windows/Pointer.antt =====
-- The setter `size` before Windows Vista, which moves the file pointer: the other branch of `size`
-- in include/asioext/detail/impl/win_file_ops.cpp.
use asio_extensions.Prelude.{ℕ, ◌≡◌, ◌⊎◌, inl, inr, refl, sym, ◌∙◌, ap}
use asio_extensions.Posix.{Answer, returns, fails, Code, no_error, system}

-- `SetFilePointerEx` by `FILE_CURRENT` and by `FILE_BEGIN`, `SetEndOfFile` and `GetLastError`
pub record PointerApi : Type 1 where
  pub State : Type 0
  pub move_by : ℕ → State → Answer × State
  pub move_to : ℕ → State → Answer × State
  pub set_end : State → Answer × State
  pub last_error : State → ℕ

module _ (api : PointerApi) where
  abbrev pub set_error : api.State → Code × api.State
  set_error s = (system (api.last_error s), s)

  abbrev pub restored : Answer → api.State → Code × api.State
  restored (returns r) s = (no_error, s)
  restored (fails e) s = set_error s

  -- what follows `SetEndOfFile`
  abbrev pub ended : ℕ → Answer → api.State → Code × api.State
  ended old_pointer (returns r) s =
      let (answer, s') = api.move_to old_pointer s in restored answer s'
  ended old_pointer (fails e) s = let (answer, s') = api.move_to old_pointer s in set_error s'

  abbrev pub moved : ℕ → Answer → api.State → Code × api.State
  moved old_pointer (returns r) s = let (answer, s') = api.set_end s in ended old_pointer answer s'
  moved old_pointer (fails e) s = set_error s

  abbrev pub found : ℕ → Answer → api.State → Code × api.State
  found new_size (returns old_pointer) s =
      let (answer, s') = api.move_to new_size s in moved old_pointer answer s'
  found new_size (fails e) s = set_error s

  pub set_size_by_pointer : ℕ → api.State → Code × api.State
  set_size_by_pointer new_size s = let (answer, s') = api.move_by 0 s in found new_size answer s'

-- What the documentation of these calls says of the file's pointer and size.
pub record PointerLaws (api : PointerApi) : Type 0 where
  pub pointer : api.State → ℕ
  pub size : api.State → ℕ
  pub tells : (s s' : api.State) (r : ℕ) → api.move_by 0 s ≡ (returns r, s') → r ≡ pointer s
  pub stays :
      (s : api.State)
      → (pointer (api.move_by 0 s).1 ≡ pointer s) × (size (api.move_by 0 s).1 ≡ size s)
  pub moves :
      (n : ℕ) (s s' : api.State) (r : ℕ) → api.move_to n s ≡ (returns r, s') → pointer s' ≡ n
  pub stops :
      (n : ℕ) (s s' : api.State) (e : ℕ) → api.move_to n s ≡ (fails e, s') → pointer s' ≡ pointer s
  pub same_size : (n : ℕ) (s : api.State) → size (api.move_to n s).1 ≡ size s
  pub ends : (s s' : api.State) (r : ℕ) → api.set_end s ≡ (returns r, s') → size s' ≡ pointer s
  pub keeps : (s s' : api.State) (e : ℕ) → api.set_end s ≡ (fails e, s') → size s' ≡ size s
  pub same_pointer : (s : api.State) → pointer (api.set_end s).1 ≡ pointer s

answer_cases :
    {S : Type 0} (p : Answer × S)
    → ((r : ℕ) × (s : S) × (p ≡ (returns r, s))) ⊎ ((e : ℕ) × (s : S) × (p ≡ (fails e, s)))
answer_cases (returns r, s) = inl (r, s, refl)
answer_cases (fails e, s) = inr (e, s, refl)

module _ (api : PointerApi) (laws : PointerLaws api) where
  -- The pointer is at the new size, where it could not be moved back: the last call of the system was
  -- an attempt to, and failed.
  abbrev pub Stayed : ℕ → api.State → api.State → Type 0
  Stayed n s s' =
      (laws.pointer s' ≡ n)
      × ((u : api.State) × (e : ℕ) × (api.move_to (laws.pointer s) u ≡ (fails e, s')))

  -- The size is set and the pointer is where it was; or there is what `GetLastError` says, and the
  -- size is what it was, or the pointer stayed at the new size.
  abbrev pub Sized : ℕ → api.State → Code × api.State → Type 0
  Sized n s (ec, s') =
      ((ec ≡ no_error) × (laws.size s' ≡ n) × (laws.pointer s' ≡ laws.pointer s))
      ⊎ ((ec ≡ system (api.last_error s'))
          × (((laws.size s' ≡ laws.size s) × ((laws.pointer s' ≡ laws.pointer s) ⊎ Stayed n s s'))
              ⊎ ((laws.size s' ≡ n) × Stayed n s s')))

  result_law :
      (f : api.State → ℕ) (p : Answer × api.State) (a : Answer) (s' : api.State) (x : ℕ)
      → p ≡ (a, s')
      → f p.1 ≡ x
      → f s' ≡ x
  result_law f p a s' x step e = ap (λ (q : Answer × api.State). f q.1) (sym step) ∙ e

  -- behind `SetEndOfFile` at the new size
  ended_lem :
      (n old : ℕ) (s s2 : api.State)
      → old ≡ laws.pointer s
      → laws.pointer s2 ≡ n
      → laws.size s2 ≡ laws.size s
      → let (answer, s3) = api.set_end s2 in Sized n s (ended api old answer s3)
  ended_lem n old s s2 e p q =
      let pointer_kept = laws.same_pointer s2 in
      elim (answer_cases (api.set_end s2)) [
        | inl (r, s3, step) ↦
            let p3 = result_law laws.pointer _ _ s3 n step (pointer_kept ∙ p) in
            let q3 = laws.ends s2 s3 r step ∙ p in
            elim (answer_cases (api.move_to old s3)) [
              | inl (r4, s4, back) ↦
                  let q4 = result_law laws.size _ _ s4 n back (laws.same_size old s3 ∙ q3) in
                  rw (step, back) (inl (refl, q4, laws.moves old s3 s4 r4 back ∙ e))
              | inr (e4, s4, back) ↦
                  let q4 = result_law laws.size _ _ s4 n back (laws.same_size old s3 ∙ q3) in
                  rw (step, back)
                    (inr
                      (refl, inr (q4, (laws.stops old s3 s4 e4 back ∙ p3, (s3, e4, rw⁻¹ e back)))))
            ]
        | inr (e3, s3, step) ↦
            let p3 = result_law laws.pointer _ _ s3 n step (pointer_kept ∙ p) in
            let q3 = laws.keeps s2 s3 e3 step ∙ q in
            elim (answer_cases (api.move_to old s3)) [
              | inl (r4, s4, back) ↦
                  let q4 =
                    result_law laws.size _ _ s4 (laws.size s) back (laws.same_size old s3 ∙ q3) in
                  rw (step, back) (inr (refl, inl (q4, inl (laws.moves old s3 s4 r4 back ∙ e))))
              | inr (e4, s4, back) ↦
                  let q4 =
                    result_law laws.size _ _ s4 (laws.size s) back (laws.same_size old s3 ∙ q3) in
                  rw (step, back)
                    (inr (
                      refl,
                      inl (q4, inr (laws.stops old s3 s4 e4 back ∙ p3, (s3, e4, rw⁻¹ e back))),
                    ))
            ]
      ]

-- Before Vista, setting the size either sets it and leaves the pointer where it was, without an
-- error; or it gives what `GetLastError` says in the end, and the size is what it was or the new one.
-- With the old size the pointer is where it was, unless the attempt to move it back failed; with the new size
-- that attempt failed. The calls of the system keep their laws.
pub set_size_pointer :
    (api : PointerApi) (laws : PointerLaws api) (n : ℕ) (s : api.State)
    → Sized api laws n s (set_size_by_pointer api n s)
unfolding set_size_by_pointer
set_size_pointer api laws n s = elim (answer_cases (api.move_by 0 s)) [
  | inr (e, s1, step1) ↦
      let (p, q) = laws.stays s in
      let p1 = result_law api laws laws.pointer _ _ s1 (laws.pointer s) step1 p in
      let q1 = result_law api laws laws.size _ _ s1 (laws.size s) step1 q in
      rw step1 (inr (refl, inl (q1, inl p1)))
  | inl (old, s1, step1) ↦
      let (p, q) = laws.stays s in
      let p1 = result_law api laws laws.pointer _ _ s1 (laws.pointer s) step1 p in
      let q1 = result_law api laws laws.size _ _ s1 (laws.size s) step1 q in
      elim (answer_cases (api.move_to n s1)) [
        | inl (r2, s2, step2) ↦
            let q2 =
              result_law api laws laws.size _ _ s2 (laws.size s) step2 (laws.same_size n s1 ∙ q1) in
            rw (step1, step2)
              (ended_lem api laws n old s s2 (laws.tells s s1 old step1)
                (laws.moves n s1 s2 r2 step2) q2)
        | inr (e2, s2, step2) ↦
            let q2 =
              result_law api laws laws.size _ _ s2 (laws.size s) step2 (laws.same_size n s1 ∙ q1) in
            rw (step1, step2) (inr (refl, inl (q2, inl (laws.stops n s1 s2 e2 step2 ∙ p1))))
      ]
]
