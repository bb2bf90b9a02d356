-- ===== src/Connect/Attempts.antt =====
-- Which endpoint a socket is connected to.
use asio_extensions.Prelude.{
  ℕ, ◌≡◌, ◌≢◌, ◌⊎◌, inl, inr, refl, ap, true, false, List, [], ◌∷◌, ◌++◌, ◌==◌, ==_iff, Bool-cases,
  arith,
}
use asio_extensions.Connect.{Network, attempt, try_each, connect}

ne_of_== : (a b : ℕ) → (a == b) ≡ false → a ≢ b
ne_of_== a b other e = ground arith

pair_at : {S : Type 0} (ec : ℕ) (s : S) → (ec == 0) ≡ true → ◌≡◌ {A = ℕ × S} (ec, s) (0, s)
pair_at ec s fine = ap (λ (e : ℕ). (e, s)) ((==_iff ec 0).0 fine)

module _ (net : Network) where
  -- Each of the endpoints is tried in turn and fails: the code before them and the state, and those
  -- behind them.
  pub data Failed : List ℕ → ℕ → net.State → ℕ → net.State → Type 0 where
    untried : {ec : ℕ} {s : net.State} → Failed [] ec s ec s
    tried :
        {entry ec' ec ec'' : ℕ} {results : List ℕ} {s s' s'' : net.State}
        → attempt net entry s ≡ (ec', s')
        → ec' ≢ 0
        → Failed results ec' s' ec'' s''
        → Failed (entry ∷ results) ec s ec'' s''

  -- Either the first endpoint that can be connected to was reached behind those that failed, or all
  -- of them failed.
  abbrev pub Tried : List ℕ → ℕ → net.State → ℕ → net.State → Type 0
  Tried results ec s ec' s' =
      ((before : List ℕ) × (entry : ℕ) × (after : List ℕ) × (ec'' : ℕ) × (s'' : net.State)
        × (results ≡ before ++ (entry ∷ after))
        × Failed before ec s ec'' s''
        × (attempt net entry s'' ≡ (0, s'))
        × (ec' ≡ 0))
      ⊎ Failed results ec s ec' s'

  try_each-Tried :
      (results : List ℕ) (ec : ℕ) (s : net.State)
      → let (ec', s') = try_each net results ec s in Tried results ec s ec' s'
  try_each-Tried [] ec s = inr untried
  try_each-Tried (entry ∷ results) ec s =
      let (ec', s') = attempt net entry s in
      elim (Bool-cases (ec' == 0)) [
        | inl fine ↦ rw fine (
            inl (
              [],
              entry,
              results,
              ec,
              s,
              refl,
              untried,
              pair_at ec' s' fine,
              (==_iff ec' 0).0 fine,
            ))
        | inr wrong ↦ rw wrong (elim (try_each-Tried results ec' s') [
          | inl (before, found, after, ec'', s'', split, failed, reached, fine) ↦ inl (
            entry ∷ before,
            found,
            after,
            ec'',
            s'',
            ap (λ (l : List ℕ). entry ∷ l) split,
            tried refl (ne_of_== ec' 0 wrong) failed,
            reached,
            fine,
          )
          | inr failed ↦ inr (tried refl (ne_of_== ec' 0 wrong) failed)
        ])
      ]

  Failed-ne :
      (results : List ℕ) (ec : ℕ) (s : net.State) (ec' : ℕ) (s' : net.State)
      → Failed results ec s ec' s'
      → ec ≢ 0
      → ec' ≢ 0
  Failed-ne results ec s ec' s' untried h = h
  Failed-ne results ec s ec' s' (tried {ec' = e} {results = more} {s' = t} once wrong failed) h =
      Failed-ne more e t ec' s' failed wrong

-- `connect` gives the error of the resolver and touches nothing else; or, of the endpoints that the
-- resolver gives, it is connected without an error to the first that it can be connected to, behind
-- those that failed; or all of them failed, and the error is that of the last, or `host_not_found`
-- where there is none.
pub connect_result :
    (net : Network) (host_not_found : ℕ) (s : net.State)
    → host_not_found ≢ 0
    → let ((results, ec), s1) = net.resolve s in
      let (ec', s') = connect net host_not_found s in
      ((ec ≢ 0) × (ec' ≡ ec) × (s' ≡ s1))
      ⊎ ((ec ≡ 0)
          × (((before : List ℕ) × (entry : ℕ) × (after : List ℕ) × (ec'' : ℕ) × (s'' : net.State)
                × (results ≡ before ++ (entry ∷ after))
                × Failed net before host_not_found s1 ec'' s''
                × (attempt net entry s'' ≡ (0, s'))
                × (ec' ≡ 0))
              ⊎ (Failed net results host_not_found s1 ec' s' × (ec' ≢ 0))))
unfolding connect
connect_result net host_not_found s h =
    let ((results, ec), s1) = net.resolve s in
    elim (Bool-cases (ec == 0)) [
      | inl fine ↦ rw fine (
          inr (
            (==_iff ec 0).0 fine,
            elim (try_each-Tried net results host_not_found s1) [
              | inl reached ↦ inl reached
              | inr failed ↦ inr (failed, Failed-ne net results host_not_found s1 _ _ failed h)
            ],
          ))
      | inr wrong ↦ rw wrong (inl (ne_of_== ec 0 wrong, refl, refl))
    ]
