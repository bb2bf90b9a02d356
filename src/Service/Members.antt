-- ===== src/Service/Members.antt =====
-- The lists of the services through sequences of calls.
use asio_extensions.Prelude.{
  ℕ, ◌≡◌, inl, inr, refl, true, false, List, [], ◌∷◌, Option, none, ◌==◌, if◌then◌else◌, put,
  Bool-cases, Option-cases, arith,
}
use asio_extensions.Posix.{Answer, Code}
use asio_extensions.Handles.{ok}
use asio_extensions.Token.{Shared, Blocks}
use asio_extensions.Token
use asio_extensions.Service.{
  State, log_close, unlink, set_handle, set_source, close_for_destruction, unless_thrown, construct,
  move_construct, take_handle, move_rest, move_assign, destroy, open_at, assign, close, cancel,
  Outcome,
}
use asio_extensions.Service.Links.{elem, distinct, remove}
use asio_extensions.Service.Lists.{Lists, unlink-Lists, link-Lists, close-Lists}

-- No call but these changes the lists.
handle-Lists :
    (i : ℕ) (h : Option ℕ) (w : State) (l : ℕ → List ℕ) → Lists w l → Lists (set_handle i h w) l
handle-Lists i h w l v = record { chain = v.chain; once = v.once; apart = v.apart }

source-Lists :
    (i : ℕ) (p : Shared × Blocks) (w : State) (l : ℕ → List ℕ)
    → Lists w l
    → Lists (set_source i p w) l
source-Lists i p w l v = record { chain = v.chain; once = v.once; apart = v.apart }

log-Lists : (fd : ℕ) (w : State) (l : ℕ → List ℕ) → Lists w l → Lists (log_close fd w) l
log-Lists fd w l v = record { chain = v.chain; once = v.once; apart = v.apart }

not_removed : (i : ℕ) (l : List ℕ) → distinct l ≡ true → elem i (remove i l) ≡ false
not_removed i [] d = refl
not_removed i (j ∷ l) d = let ih = not_removed i l in ground arith

removed_free :
    (s i : ℕ) (w : State) (l : ℕ → List ℕ)
    → elem i (l s) ≡ true
    → Lists w l
    → (t : ℕ) → elem i (put l s (remove i (l s)) t) ≡ false
removed_free s i w l here v t =
    let gone = not_removed i (l s) (v.once s) in let only = v.apart s t i here in ground arith

module _ (sys : ℕ → Answer) where
  -- the lists that `move_assign` leaves, where closing succeeds
  abbrev pub moved : ℕ → ℕ → ℕ → (ℕ → List ℕ) → ℕ → List ℕ
  moved this other i l =
      if this == other
      then l
      else let apart = put l this (remove i (l this)) in put apart other (i ∷ apart other)

  take-Lists : (i k : ℕ) (w : State) (l : ℕ → List ℕ) → Lists w l → Lists (take_handle sys i k w) l
  take-Lists i k w l v = record { chain = v.chain; once = v.once; apart = v.apart }

  move-Lists :
      (this other i k : ℕ) (w : State) (l : ℕ → List ℕ)
      → elem i (l this) ≡ true
      → Lists w l
      → Lists (move_rest sys this other i k w) (moved this other i l)
  move-Lists this other i k w l here v = elim (Bool-cases (this == other)) [
    | inl same ↦ rw (same) (take-Lists i k w l v)
    | inr differ ↦ rw (differ) (
        link-Lists other i (take_handle sys i k (unlink this i w)) (put l this (remove i (l this)))
          (removed_free this i w l here v)
          (take-Lists i k (unlink this i w) _ (unlink-Lists this i w l here v)))
  ]

  after_close :
      (i : ℕ) (w : State) (l l' : ℕ → List ℕ) (f : State → State)
      → Lists w l
      → ((w' : State) → Lists w' l → Lists (f w') l')
      → let closed = close_for_destruction sys i w in
        Lists (unless_thrown f closed).0 (if ok closed.1 then l' else l)
  after_close i w l l' f v keep =
      let v' = close-Lists sys i w l v in
      elim (Bool-cases (ok (close_for_destruction sys i w).1)) [
        | inl fine ↦ rw (unless_thrown, fine) (keep _ v')
        | inr wrong ↦ rw (unless_thrown, wrong) v'
      ]

  -- The calls on implementations, in any order, with the lists that they leave. A constructed one is
  -- in no list before; a destroyed one, or one that is moved to, is in the list of its service.
  pub data Reach : State → (ℕ → List ℕ) → Type 0 where
    start : (w : State) → ((s : ℕ) → w.impl_list s ≡ none) → Reach w (λ s. [])
    constructs :
        (s i : ℕ) (w : State) (l : ℕ → List ℕ)
        → Reach w l
        → ((t : ℕ) → elem i (l t) ≡ false)
        → Reach (construct sys s i w) (put l s (i ∷ l s))
    move_constructs :
        (s i k : ℕ) (w : State) (l : ℕ → List ℕ)
        → Reach w l
        → ((t : ℕ) → elem i (l t) ≡ false)
        → Reach (move_construct sys s i k w) (put l s (i ∷ l s))
    move_assigns :
        (this other i k : ℕ) (w : State) (l : ℕ → List ℕ)
        → Reach w l
        → elem i (l this) ≡ true
        → Reach
            (move_assign sys this other i k w).0
            (if ok (close_for_destruction sys i w).1 then moved this other i l else l)
    destroys :
        (s i : ℕ) (w : State) (l : ℕ → List ℕ)
        → Reach w l
        → elem i (l s) ≡ true
        → Reach
            (destroy sys s i w).0
            (if ok (close_for_destruction sys i w).1 then put l s (remove i (l s)) else l)
    opens :
        (i : ℕ) (given : Option ℕ × Code) (w : State) (l : ℕ → List ℕ)
        → Reach w l
        → Reach (open_at sys i given w).0 l
    assigns :
        (i : ℕ) (given : Option ℕ) (w : State) (l : ℕ → List ℕ)
        → Reach w l
        → Reach (assign sys i given w).0 l
    closes : (i : ℕ) (w : State) (l : ℕ → List ℕ) → Reach w l → Reach (close sys i w).0 l
    cancels :
        (i : ℕ) (ec : Outcome) (w : State) (l : ℕ → List ℕ)
        → Reach w l
        → Reach (cancel sys i ec w).0 l

  -- In every state that such calls lead to, the list of each service, linked in both directions, has
  -- just the implementations that were put into it and not taken out, once each, the last one
  -- first, and no two services share one. Where closing fails, the implementation stays in
  -- its list.
  pub reach-Lists : {w : State} {l : ℕ → List ℕ} → Reach w l → Lists w l
  unfolding move_assign destroy
  reach-Lists (start w empty) = record {
    chain = empty;
    once = λ s. refl;
    apart = λ s t i e f. absurd (cc);
  }
  reach-Lists (constructs s i w l r new) =
      let p = Token.reset (w.source i) w.blocks in
      link-Lists s i (set_source i p w) l new (source-Lists i p w l (reach-Lists r))
  reach-Lists (move_constructs s i k w l r new) =
      let (mine, left, b) = Token.move_assign (w.source i) (w.source k) w.blocks in
      let w' = set_source k (left, w.blocks) (take_handle sys i k w) in
      link-Lists s i (set_source i (mine, b) w') l new (
        source-Lists i (mine, b) w' l
          (source-Lists k (left, w.blocks) (take_handle sys i k w) l
            (take-Lists i k w l (reach-Lists r))))
  reach-Lists (move_assigns this other i k w l r here) =
      after_close i w l (moved this other i l) (move_rest sys this other i k) (reach-Lists r)
        (λ w' v. move-Lists this other i k w' l here v)
  reach-Lists (destroys s i w l r here) =
      after_close i w l (put l s (remove i (l s))) (unlink s i) (reach-Lists r)
        (λ w' v. unlink-Lists s i w' l here v)
  reach-Lists (opens i given w l r) = elim (Option-cases (w.handle i)) [
    | inl gone ↦ rw (open_at, gone) (handle-Lists i _ w l (reach-Lists r))
    | inr (fd, has) ↦ rw (open_at, has) (reach-Lists r)
  ]
  reach-Lists (assigns i given w l r) = elim (Option-cases (w.handle i)) [
    | inl gone ↦ rw (assign, gone) (handle-Lists i _ w l (reach-Lists r))
    | inr (fd, has) ↦ rw (assign, has) (reach-Lists r)
  ]
  reach-Lists (closes i w l r) = elim (Option-cases (w.handle i)) [
    | inl gone ↦ rw (close, gone) (reach-Lists r)
    | inr (fd, has) ↦ rw (close, has) (log-Lists fd _ l (handle-Lists i _ w l (reach-Lists r)))
  ]
  reach-Lists (cancels i ec w l r) = elim (Option-cases (w.handle i)) [
    | inl gone ↦ rw (cancel, gone) (reach-Lists r)
    | inr (fd, has) ↦
        rw (cancel, has) (source-Lists i (Token.cancel (w.source i) w.blocks) w l (reach-Lists r))
  ]
