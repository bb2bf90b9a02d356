-- ===== src/Url/Walk/Refine.antt =====
-- The pointer loop of `parse_url` computes the walk.
use asio_extensions.Prelude.{
  ℕ, zero, suc, ◌+◌, ◌*◌, ◌≤◌, ◌<◌, ◌≡◌, ◌≢◌, refl, ◌∙◌, ap, subst, [], ◌∷◌, ◌++◌, append_assoc,
  append-nil, none, some, Bytes, length, get_elem?, get_elem?-append, get_elem?_end, arith,
}
use asio_extensions.Url.Parts.{ParsedUrl, invalid_character}
use asio_extensions.Url.State.{UrlState, invalid, path_after_scheme, get_state_for, part_from_state}
use asio_extensions.Url.Parser.{step, scan, split_host, parse_url}
use asio_extensions.Url.Walk.{Walk, begin, advance, walk}
use asio_extensions.Url.Walk.Rounds.{
  scan_of, Sim, close_lem, react_other, arrive_other, enter_lem, slash_before, path_walk,
  scan_round, step-react, rewind_lem,
}

-- what the loop and the walk do with the bytes that are left
abbrev Agrees : Bytes → Bytes → ℕ → ℕ → Walk → Type 0
Agrees pre rest fuel first w = scan fuel (pre ++ rest) (scan_of first pre w) ≡ some (walk w rest)

-- One byte further, the text being cut behind it.
Agrees-next :
    (pre rest : Bytes) (ch fuel first : ℕ) (w : Walk)
    → Agrees (pre ++ (ch ∷ [])) rest fuel first w
    → scan fuel (pre ++ (ch ∷ rest)) (scan_of first (pre ++ (ch ∷ [])) w) ≡ some (walk w rest)
Agrees-next pre rest ch fuel first w a =
    subst (λ (v : Bytes). scan fuel v (scan_of first (pre ++ (ch ∷ [])) w) ≡ some (walk w rest))
      (append_assoc pre (ch ∷ []) rest) a

-- A round that neither fails nor steps back.
forward_round :
    (rest pre : Bytes) (ch first fuel : ℕ) (w : Walk) (n : UrlState)
    → Sim first pre w
    → get_state_for w.s ch ≡ n
    → n ≢ path_after_scheme
    → n ≢ invalid
    → ((next : ℕ)
        → Sim next (pre ++ (ch ∷ [])) (advance n w ch)
        → Agrees (pre ++ (ch ∷ [])) rest fuel next (advance n w ch))
    → Agrees pre (ch ∷ rest) (suc fuel) first w
unfolding walk
forward_round rest pre ch first fuel w n m e fwd good ih =
    let text = pre ++ (ch ∷ rest) in
    let c = scan_of first pre w in
    let (next, entered, m') = enter_lem n ch (ch ∷ rest) m fwd (λ q. slash_before w.s ch (e ∙ q)) in
    let run : step text c ch ≡ some (scan_of next (pre ++ (ch ∷ [])) (advance n w ch)) =
      step-react text c ch n e (react_other n c fwd good) ∙ ap some entered in
    scan_round fuel text c ch (get_elem?-append pre ch rest) run
    ∙ Agrees-next pre rest ch fuel next (advance n w ch) (ih next m')
    ∙ rw (e, arrive_other n w ch fwd good, walk)

-- A round in which the state machine refuses the byte.
refused_round :
    (rest pre : Bytes) (ch first fuel : ℕ) (w : Walk)
    → get_state_for w.s ch ≡ invalid
    → Agrees pre (ch ∷ rest) (suc fuel) first w
unfolding scan walk step
refused_round rest pre ch first fuel w e =
    let at : get_elem? (pre ++ (ch ∷ rest)) (length pre) ≡ some ch = get_elem?-append pre ch rest in
    let failed : scan (suc fuel) (pre ++ (ch ∷ rest)) (scan_of first pre w)
        ≡ some (w.out, some invalid_character) =
      rw (at, e, scan, step) in
    failed ∙ rw (e, walk)

round-Agrees :
    (rest pre : Bytes) (ch first fuel : ℕ) (w : Walk)
    → Sim first pre w
    → ((next more : ℕ) (v : Walk)
        → Sim next (pre ++ (ch ∷ [])) v
        → fuel ≤ more
        → Agrees (pre ++ (ch ∷ [])) rest more next v)
    → (n : UrlState) → get_state_for w.s ch ≡ n
    → Agrees pre (ch ∷ rest) (suc (suc fuel)) first w
unfolding walk
round-Agrees rest pre ch first fuel w m ih invalid e =
    refused_round rest pre ch first (suc fuel) w e
round-Agrees rest pre ch first fuel w m ih path_after_scheme e =
    let (next, run, m') = rewind_lem ch fuel rest m e in
    run
    ∙ Agrees-next pre rest ch fuel next (path_walk w ch)
        (ih next fuel (path_walk w ch) m' (omega arith))
    ∙ rw (e, walk)
round-Agrees rest pre ch first fuel w m ih n e =
    forward_round rest pre ch first (suc fuel) w n m e (λ q. cc) (λ q. cc)
      (λ next m'. ih next (suc fuel) (advance n w ch) m' (omega arith))

scan-eq-walk :
    (rest pre : Bytes) (first fuel : ℕ) (w : Walk)
    → Sim first pre w
    → 2 * length rest < fuel
    → Agrees pre rest fuel first w
unfolding scan walk
scan-eq-walk [] pre first zero w m h = absurd (omega arith)
scan-eq-walk [] pre first (suc fuel) w m h =
    let at : get_elem? (pre ++ []) (length pre) ≡ none = rw append-nil (get_elem?_end pre) in
    rw (at, scan)
      (ap (λ (o : ParsedUrl). some (split_host w.has_userinfo o))
        (close_lem w.part first pre [] w.word w.out m.ahead m.word_is))
scan-eq-walk (ch ∷ rest) pre first zero w m h = absurd (omega arith)
scan-eq-walk (ch ∷ rest) pre first (suc zero) w m h = absurd (omega arith)
scan-eq-walk (ch ∷ rest) pre first (suc (suc fuel)) w m h =
    round-Agrees rest pre ch first fuel w m
      (λ next more v m' enough. scan-eq-walk rest (pre ++ (ch ∷ [])) next more v m' (omega arith))
      (get_state_for w.s ch) refl

-- `parse_url` always comes to an end, and gives on every text what the one-pass walk over its
-- bytes gives, the parts that an error leaves included.
pub parse_url-eq-walk :
    (text : Bytes) (out : ParsedUrl) → parse_url text out ≡ some (walk (begin out) text)
unfolding parse_url part_from_state
parse_url-eq-walk text out =
    scan-eq-walk text [] 0 (2 * length text + 2) (begin out)
      (record {
        ahead = omega arith;
        word_is = refl;
        part_is = refl;
        slash = λ q. cc;
        forward = λ q. cc;
      })
      (omega arith)
