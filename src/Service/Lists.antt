-- ===== src/Service/Lists.antt =====
-- The list of the implementations of each service.
use asio_extensions.Prelude.{
  ℕ, ◌≡◌, ◌⊎◌, inl, inr, refl, ◌∙◌, true, false, List, [], ◌∷◌, Option, none, some, ◌==◌, ==_iff,
  if◌then◌else◌, put, Bool-cases, Option-cases, arith,
}
use asio_extensions.Posix.{Answer}
use asio_extensions.Service.{State, is_at, link, unlink, close_for_destruction}
use asio_extensions.Service.Links.{
  elem, distinct, remove, elem_at, Chain, put_at_lem, put_at_own, elem_ne, Chain_frame, before_in,
  behind_in, Chain_remove, Chain_link,
}

-- The list of each service has the implementations given, once each, and no two services share
-- one.
pub record Lists (w : State) (l : ℕ → List ℕ) : Type 0 where
  pub chain : (s : ℕ) → Chain w.next w.prev none (w.impl_list s) (l s)
  pub once : (s : ℕ) → distinct (l s) ≡ true
  pub apart : (s t i : ℕ) → elem i (l s) ≡ true → elem i (l t) ≡ true → s ≡ t

-- a place beside one of another list
beside :
    (o : Option ℕ) (l r : List ℕ) (j : ℕ)
    → (o ≡ none) ⊎ (elem_at o l ≡ true)
    → elem j r ≡ true
    → ((i : ℕ) → elem i l ≡ true → elem i r ≡ false)
    → is_at o j ≡ false
beside none l r j h e disjoint = refl
beside (some p) l r j (inl h) e disjoint = absurd (cc)
beside (some p) l r j (inr h) e disjoint = elem_ne j p r e (disjoint p h)

head_in :
    (next prev : ℕ → Option ℕ) (q c : Option ℕ) (l : List ℕ)
    → Chain next prev q c l
    → (c ≡ none) ⊎ (elem_at c l ≡ true)
head_in next prev q c [] ch = inl ch
head_in next prev q c (i ∷ l) (here, back, rest) = inr (rw here (rw ((==_iff i i).1 refl) refl))

disjoint_lem :
    (w : State) (l : ℕ → List ℕ) (s t : ℕ)
    → Lists w l
    → (t == s) ≡ false
    → (i : ℕ) → elem i (l s) ≡ true
    → elem i (l t) ≡ false
disjoint_lem w l s t v differ i e = elim (Bool-cases (elem i (l t))) [
  | inl both ↦ let same = v.apart s t i e both in absurd (ground arith)
  | inr off ↦ off
]

elem-remove : (i j : ℕ) (l : List ℕ) → elem j (remove i l) ≡ true → elem j l ≡ true
elem-remove i j [] h = h
elem-remove i j (k ∷ l) h = let ih = elem-remove i j l in ground arith

distinct-remove : (i : ℕ) (l : List ℕ) → distinct l ≡ true → distinct (remove i l) ≡ true
distinct-remove i [] h = h
distinct-remove i (k ∷ l) h =
    let ih = distinct-remove i l in let e = elem-remove i k l in ground arith

pub unlink-Lists :
    (s i : ℕ) (w : State) (l : ℕ → List ℕ)
    → elem i (l s) ≡ true
    → Lists w l
    → Lists (unlink s i w) (put l s (remove i (l s)))
unlink-Lists s i w l here v =
    let N = (unlink s i w).next in
    let P = (unlink s i w).prev in
    let hN : (j : ℕ)
        → N j ≡ (if j == i then none else if is_at (w.prev i) j then w.next i else w.next j) =
      λ j. rw (put_at_lem w.next (w.prev i) (w.next i) j) refl in
    let hP : (j : ℕ)
        → P j ≡ (if j == i then none else if is_at (w.next i) j then w.prev i else w.prev j) =
      λ j.
        rw (put_at_own w.next (w.prev i) i) (rw (put_at_lem w.prev (w.next i) (w.prev i) j) refl) in
    record {
      chain = λ t. elim (Bool-cases (t == s)) [
        | inl same ↦ rw same (
            Chain_remove w.next w.prev N P i hN hP (l s) none (w.impl_list s) here (v.once s) refl
              (v.chain s))
        | inr other ↦
            let off = disjoint_lem w l s t v other in
            let before = before_in w.next w.prev i (l s) none (w.impl_list s) here (v.chain s) in
            let behind = behind_in w.next w.prev i (l s) none (w.impl_list s) here (v.chain s) in
            rw other (
              Chain_frame w.next w.prev N P (l t) none (w.impl_list t)
                (λ j e.
                  let not_i = elem_ne j i (l t) e (off i here) in
                  (
                    hN j ∙ rw (not_i, beside (w.prev i) (l s) (l t) j before e off) refl,
                    hP j ∙ rw (not_i, beside (w.next i) (l s) (l t) j behind e off) refl,
                  ))
                (v.chain t))
      ];
      once = λ t. let o = v.once t in let r = distinct-remove i (l s) (v.once s) in ground arith;
      apart = λ t u j e f.
          let a = v.apart t u j in
          let b = v.apart s u j in
          let c = v.apart t s j in let r = elem-remove i j (l s) in ground arith;
    }

pub link-Lists :
    (s i : ℕ) (w : State) (l : ℕ → List ℕ)
    → ((t : ℕ) → elem i (l t) ≡ false)
    → Lists w l
    → Lists (link s i w) (put l s (i ∷ l s))
link-Lists s i w l new v =
    let c = w.impl_list s in
    let N = (link s i w).next in
    let P = (link s i w).prev in
    let hN : (j : ℕ) → N j ≡ (if j == i then c else w.next j) = λ j. refl in
    let hP : (j : ℕ) → P j ≡ (if is_at c j then some i else if j == i then none else w.prev j) =
      λ j. put_at_lem (put w.prev i none) c (some i) j in
    record {
      chain = λ t. elim (Bool-cases (t == s)) [
        | inl same ↦
            rw same (Chain_link w.next w.prev N P i c hN hP (l s) (new s) (v.once s) (v.chain s))
        | inr other ↦
            let off = disjoint_lem w l s t v other in
            let first = head_in w.next w.prev none c (l s) (v.chain s) in
            rw other (
              Chain_frame w.next w.prev N P (l t) none (w.impl_list t)
                (λ j e.
                  let not_i = elem_ne j i (l t) e (new t) in
                  (
                    hN j ∙ rw not_i refl,
                    hP j ∙ rw (not_i, beside c (l s) (l t) j first e off) refl,
                  ))
                (v.chain t))
      ];
      once = λ t. let o = v.once t in let p = v.once s in let n = new s in ground arith;
      apart = λ t u j e f.
          let a = v.apart t u j in
          let b = v.apart s u j in
          let c = v.apart t s j in
          let n = new t in
          let m = new u in let x = elem_ne j i (l t) in let y = elem_ne j i (l u) in ground arith;
    }

module _ (sys : ℕ → Answer) where
  -- Closing leaves the lists alone.
  pub close-Lists :
      (i : ℕ) (w : State) (l : ℕ → List ℕ) → Lists w l → Lists (close_for_destruction sys i w).0 l
  unfolding close_for_destruction
  close-Lists i w l v = elim (Option-cases (w.handle i)) [
    | inl gone ↦ rw gone v
    | inr (fd, has) ↦ rw has (record { chain = v.chain; once = v.once; apart = v.apart })
  ]
