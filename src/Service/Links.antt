-- ===== src/Service/Links.antt =====
-- Lists linked in both directions.
use asio_extensions.Prelude.{
  ℕ, ◌≡◌, ◌⊎◌, inl, inr, refl, sym, subst, ◌∙◌, Bool, true, false, List, [], ◌∷◌, Option, none,
  some, ◌==◌, ==_iff, if◌then◌else◌, Bool-cases, arith,
}
use asio_extensions.Service.{is_at, put_at}

abbrev pub elem : ℕ → List ℕ → Bool
elem i [] = false
elem i (j ∷ l) = if j == i then true else elem i l

abbrev pub distinct : List ℕ → Bool
distinct [] = true
distinct (i ∷ l) = if elem i l then false else distinct l

-- without the first
abbrev pub remove : ℕ → List ℕ → List ℕ
remove i [] = []
remove i (j ∷ l) = if j == i then l else j ∷ remove i l

-- `elem` at a place that may be none
abbrev pub elem_at : Option ℕ → List ℕ → Bool
elem_at none l = false
elem_at (some i) l = elem i l

-- The list from a place on, the place before it being given.
abbrev pub Chain : (ℕ → Option ℕ) → (ℕ → Option ℕ) → Option ℕ → Option ℕ → List ℕ → Type 0
Chain next prev q c [] = c ≡ none
Chain next prev q c (i ∷ l) = (c ≡ some i) × (prev i ≡ q) × Chain next prev (some i) (next i) l

pub put_at_lem :
    {A : Type 0} (f : ℕ → A) (o : Option ℕ) (a : A) (j : ℕ)
    → put_at f o a j ≡ (if is_at o j then a else f j)
put_at_lem f none a j = refl
put_at_lem f (some p) a j = refl

pub put_at_own : {A : Type 0} (f : ℕ → A) (o : Option ℕ) (i : ℕ) → put_at f o (f i) i ≡ f i
put_at_own f none i = refl
put_at_own f (some p) i = elim (Bool-cases (i == p)) [ inl x ↦ rw x refl | inr x ↦ rw x refl ]

pub elem_ne : (i j : ℕ) (l : List ℕ) → elem i l ≡ true → elem j l ≡ false → (i == j) ≡ false
elem_ne i j l h k = elim (Bool-cases (i == j)) [
  | inl same ↦ let e = (==_iff i j).0 same in let h' : elem j l ≡ true = rw e at h in absurd (cc)
  | inr other ↦ other
]

module _ (next prev N P : ℕ → Option ℕ) where
  pub Chain_frame :
      (l : List ℕ) (q c : Option ℕ)
      → ((j : ℕ) → elem j l ≡ true → (N j ≡ next j) × (P j ≡ prev j))
      → Chain next prev q c l
      → Chain N P q c l
  Chain_frame [] q c same h = h
  Chain_frame (i ∷ l) q c same (here, before, rest) =
      let (n, p) = same i (rw ((==_iff i i).1 refl) refl) in
      (
        here,
        p ∙ before,
        rw n (
            Chain_frame l (some i) (next i)
              (λ j e. same j (elim (Bool-cases (i == j)) [ inl x ↦ rw x refl | inr x ↦ rw x e ]))
              rest),
      )

weaken : (o : Option ℕ) (j : ℕ) (l : List ℕ) → elem_at o l ≡ true → elem_at o (j ∷ l) ≡ true
weaken none j l h = h
weaken (some i) j l h = elim (Bool-cases (j == i)) [ inl x ↦ rw x refl | inr x ↦ rw x h ]

at_elem :
    (o : Option ℕ) (j : ℕ) (l : List ℕ) → elem_at o l ≡ true → elem j l ≡ false → is_at o j ≡ false
at_elem none j l h k = refl
at_elem (some i) j l h k = let e = elem_ne i j l h k in ground arith

split_at :
    (o : Option ℕ) (m : ℕ) (r : List ℕ)
    → elem_at o (m ∷ r) ≡ false
    → (is_at o m ≡ false) × (elem_at o r ≡ false)
split_at none m r h = (refl, refl)
split_at (some p) m r h = ground arith

pub not_at :
    (o : Option ℕ) (j : ℕ) (r : List ℕ) → elem_at o r ≡ false → elem j r ≡ true → is_at o j ≡ false
not_at none j r h e = refl
not_at (some p) j r h e = elem_ne j p r e h

module _ (next prev : ℕ → Option ℕ) where
  -- the places before and behind one of the list are in it, or at its ends
  pub before_in :
      (i : ℕ) (l : List ℕ) (q c : Option ℕ)
      → elem i l ≡ true
      → Chain next prev q c l
      → (prev i ≡ q) ⊎ (elem_at (prev i) l ≡ true)
  before_in i [] q c h ch = absurd (cc)
  before_in i (j ∷ l) q c h (here, before, rest) = elim (Bool-cases (j == i)) [
    | inl same ↦ inl (rw ((==_iff j i).0 same) at before)
    | inr other ↦ elim (before_in i l (some j) (next j) (rw other at h) rest) [
      | inl e ↦ inr (rw e (rw ((==_iff j j).1 refl) refl))
      | inr e ↦ inr (weaken (prev i) j l e)
    ]
  ]

  pub behind_in :
      (i : ℕ) (l : List ℕ) (q c : Option ℕ)
      → elem i l ≡ true
      → Chain next prev q c l
      → (next i ≡ none) ⊎ (elem_at (next i) l ≡ true)
  behind_in i [] q c h ch = absurd (cc)
  behind_in i (j ∷ []) q c h (here, before, rest) = elim (Bool-cases (j == i)) [
    | inl same ↦ inl (rw ((==_iff j i).0 same) at rest)
    | inr other ↦ absurd (ground arith)
  ]
  behind_in i (j ∷ k ∷ l) q c h (here, before, rest) = elim (Bool-cases (j == i)) [
    | inl same ↦ inr (
        let e : next i ≡ some k = rw ((==_iff j i).0 same) at (rest.0) in
        rw e (weaken (some k) j (k ∷ l) (rw ((==_iff k k).1 refl) refl)))
    | inr other ↦ elim (behind_in i (k ∷ l) (some j) (next j) (rw other at h) rest) [
      | inl e ↦ inl e
      | inr e ↦ inr (weaken (next i) j (k ∷ l) e)
    ]
  ]

  -- a place of a list is the first, right behind `j`, or it is not behind `j`
  first_or_not :
      (i j : ℕ) (r : List ℕ) (c : Option ℕ)
      → elem i r ≡ true
      → elem j r ≡ false
      → distinct r ≡ true
      → Chain next prev (some j) c r
      → ((is_at c i ≡ true) × (is_at (prev i) j ≡ true))
        ⊎ ((is_at c i ≡ false) × (is_at (prev i) j ≡ false))
  first_or_not i j [] c h out d ch = absurd (cc)
  first_or_not i j (m ∷ r) c h out d (here, back, rest) =
      let (not_m, out') = split_at (some j) m r out in
      elim (Bool-cases (m == i)) [
        | inl same ↦
            let e = (==_iff m i).0 same in
            inl (rw here (ground arith), rw (rw e at back) ((==_iff j j).1 refl))
        | inr other ↦
            let rest_in : elem i r ≡ true = rw other at h in
            inr (
              rw here (ground arith),
              elim (before_in i r (some m) (next m) rest_in rest) [
                | inl at_m ↦ rw at_m (ground arith)
                | inr later ↦ at_elem (prev i) j r later out'
              ],
            )
      ]

-- The fields after `i` was taken out.
module _ (next prev N P : ℕ → Option ℕ) (i : ℕ)
    (hN : (j : ℕ) → N j ≡ (if j == i then none else if is_at (prev i) j then next i else next j))
    (hP : (j : ℕ)
      → P j ≡ (if j == i then none else if is_at (next i) j then prev i else prev j)) where
  -- behind `i`
  after :
      (r : List ℕ) (q : Option ℕ)
      → prev i ≡ q
      → elem i r ≡ false
      → elem_at q r ≡ false
      → distinct r ≡ true
      → Chain next prev (some i) (next i) r
      → Chain N P q (next i) r
  after [] q before out free d rest = rest
  after (m ∷ r) q before out free d (here, back, rest) =
      let (not_m, free') = split_at q m r free in
      let (m_not_i, out') = split_at (some i) m r out in
      let m_new : elem m r ≡ false = ground arith in
      let rest_distinct : distinct r ≡ true = ground arith in
      let m_is : P m ≡ q = hP m ∙ rw (m_not_i, here) (rw ((==_iff m m).1 refl) before) in
      let m_on : N m ≡ next m = hN m ∙ rw (m_not_i, before) (rw not_m refl) in
      let same : (j : ℕ) → elem j r ≡ true → (N j ≡ next j) × (P j ≡ prev j) = λ j e.
        let j_not_i = elem_ne j i r e out' in
        let j_not_m = elem_ne j m r e m_new in
        let j_not_q = not_at q j r free' e in
        (
          hN j ∙ rw (j_not_i, before) (rw j_not_q refl),
          hP j ∙ rw (j_not_i, here) (rw j_not_m refl),
        ) in
      (here, m_is, rw m_on (Chain_frame next prev N P r (some m) (next m) same rest))

  -- `i` comes out of a list that it is in
  pub Chain_remove :
      (l : List ℕ) (q c : Option ℕ)
      → elem i l ≡ true
      → distinct l ≡ true
      → elem_at q l ≡ false
      → Chain next prev q c l
      → Chain N P q (if is_at c i then next i else c) (remove i l)
  Chain_remove [] q c h d free ch = absurd (cc)
  Chain_remove (j ∷ r) q c h d free (here, back, rest) =
      let (not_j, free') = split_at q j r free in
      let j_new : elem j r ≡ false = ground arith in
      let d' : distinct r ≡ true = ground arith in
      elim (Bool-cases (j == i)) [
        | inl same ↦
            let e = (==_iff j i).0 same in
            rw (here, same, (==_iff i j).1 (sym e))
              (after r q (rw e at back) (rw e at j_new) free' d'
                (subst (λ k. Chain next prev (some k) (next k) r) e rest))
        | inr other ↦
            let i_in : elem i r ≡ true = rw other at h in
            let ih = Chain_remove r (some j) (next j) i_in d' j_new rest in
            let i_not_j : (i == j) ≡ false = ground arith in
            let not_behind : is_at (next i) j ≡ false =
              elim (behind_in next prev i r (some j) (next j) i_in rest) [
                | inl e ↦ rw e refl
                | inr e ↦ at_elem (next i) j r e j_new
              ] in
            let P_is : P j ≡ q = hP j ∙ rw (other, not_behind) back in
            let N_is : N j ≡ (if is_at (next j) i then next i else next j) =
              elim (first_or_not next prev i j r (next j) i_in j_new d' rest) [
                | inl (a, b) ↦ hN j ∙ rw (other, a, b) refl
                | inr (a, b) ↦ hN j ∙ rw (other, a, b) refl
              ] in
            rw (here, i_not_j, other) (refl, P_is, rw N_is ih)
      ]

-- The fields after `i` was put in front of a place.
module _ (next prev N P : ℕ → Option ℕ) (i : ℕ) (c : Option ℕ)
    (hN : (j : ℕ) → N j ≡ (if j == i then c else next j))
    (hP : (j : ℕ) → P j ≡ (if is_at c j then some i else if j == i then none else prev j)) where
  pub Chain_link :
      (l : List ℕ)
      → elem i l ≡ false
      → distinct l ≡ true
      → Chain next prev none c l
      → Chain N P none (some i) (i ∷ l)
  Chain_link [] out d ch =
      let self = (==_iff i i).1 refl in (refl, hP i ∙ rw (ch, self) refl, hN i ∙ rw self ch)
  Chain_link (m ∷ r) out d (here, back, rest) =
      let self = (==_iff i i).1 refl in
      let (m_not_i, out') = split_at (some i) m r out in
      let i_not_m : (i == m) ≡ false = ground arith in
      let m_new : elem m r ≡ false = ground arith in
      let m_is : P m ≡ some i = hP m ∙ rw (here, (==_iff m m).1 refl) refl in
      let m_on : N m ≡ next m = hN m ∙ rw m_not_i refl in
      let same : (j : ℕ) → elem j r ≡ true → (N j ≡ next j) × (P j ≡ prev j) = λ j e.
        let j_not_i = elem_ne j i r e out' in
        let j_not_m = elem_ne j m r e m_new in
        (hN j ∙ rw j_not_i refl, hP j ∙ rw (here, j_not_m, j_not_i) refl) in
      (
        refl,
        hP i ∙ rw (here, i_not_m, self) refl,
        (
          hN i ∙ rw self here,
          m_is,
          rw m_on (Chain_frame next prev N P r (some m) (next m) same rest),
        ),
      )
