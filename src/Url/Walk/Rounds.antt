-- ===== src/Url/Walk/Rounds.antt =====
-- Single rounds of the loop of `parse_url`, beside the steps of the walk.
use asio_extensions.Prelude.{
  ℕ, suc, ◌+◌, ◌-◌, ◌≤◌, ◌≡◌, ◌≢◌, inl, inr, refl, sym, ◌∙◌, ap, [], ◌∷◌, ◌++◌, append_assoc, true,
  Bool-cases, Option, none, some, Bytes, length, drop, read_at, get_elem?, get_elem?-append,
  take-drop, take-append_left, take_all, drop-append_left, drop-append_right, length-append, arith,
}
use asio_extensions.Url.Parts.{ParsedUrl}
use asio_extensions.Url.State.{
  UrlState, invalid, path_after_scheme, path, scheme_suffix, scheme_suffix_slash, path_part,
  get_state_for, part_from_state, same_part, Part, store_part,
}
use asio_extensions.Url.Parser.{Scan, step, scan, react, enter_part, close_part}
use asio_extensions.Url.Walk.{Walk, advance, arrive, close_word, saw_at}

-- the loop's variables where `pre` has been read and the current part began at `first`
abbrev pub scan_of : ℕ → Bytes → Walk → Scan
scan_of first pre w = record {
  s = w.s;
  has_userinfo = w.has_userinfo;
  current_part = w.part;
  first = first;
  it = length pre;
  out = w.out;
}

pub record Sim (first : ℕ) (pre : Bytes) (w : Walk) : Type 0 where
  pub ahead : first ≤ length pre
  pub word_is : w.word ≡ drop first pre
  pub part_is : w.part ≡ part_from_state w.s
  pub slash : w.s ≡ scheme_suffix_slash → (before : Bytes) × (pre ≡ before ++ (b'/' ∷ []))
  pub forward : w.s ≢ path_after_scheme

-- The bytes between `first` and `it`.
read_word :
    (first : ℕ) (pre rest : Bytes)
    → first ≤ length pre
    → read_at (pre ++ rest) first (length pre - first) ≡ drop first pre
read_word first pre rest h =
    take-drop (length pre - first) first (length pre) (pre ++ rest) (omega arith)
    ∙ ap (drop first) (
        take-append_left (length pre) pre rest (omega arith)
        ∙ take_all (length pre) pre (omega arith))

pub close_lem :
    (p : Option Part) (first : ℕ) (pre rest word : Bytes) (out : ParsedUrl)
    → first ≤ length pre
    → word ≡ drop first pre
    → close_part (pre ++ rest) p first (length pre) out ≡ close_word p word out
close_lem none first pre rest word out h e = refl
close_lem (some p) first pre rest word out h e =
    ap (λ (v : Bytes). store_part p v out) (read_word first pre rest h ∙ sym e)

same_part→eq : (p q : Option Part) → same_part p q ≡ true → p ≡ q
same_part→eq none none h = refl
same_part→eq none (some q) h = ground arith
same_part→eq (some p) none h = ground arith
same_part→eq (some p) (some q) h = ground arith

pub react_other :
    (n : UrlState) (c : Scan)
    → n ≢ path_after_scheme
    → n ≢ invalid
    → react n c ≡ some (record c { s = n; has_userinfo = saw_at n c.has_userinfo })
react_other path_after_scheme c h k = absurd (h refl)
react_other invalid c h k = absurd (k refl)
react_other _ c h k = refl

pub arrive_other :
    (n : UrlState) (w : Walk) (ch : ℕ)
    → n ≢ path_after_scheme
    → n ≢ invalid
    → arrive n w ch ≡ some (advance n w ch)
arrive_other path_after_scheme w ch h k = absurd (h refl)
arrive_other invalid w ch h k = absurd (k refl)
arrive_other _ w ch h k = refl

-- The bytes read once `ch` is read too.
drop_snoc :
    (first : ℕ) (pre : Bytes) (ch : ℕ)
    → first ≤ length pre
    → drop first pre ++ (ch ∷ []) ≡ drop first (pre ++ (ch ∷ []))
drop_snoc first pre ch h = sym (drop-append_left first pre (ch ∷ []) h)

-- The end of a round that does not step back.
pub enter_lem :
    {first : ℕ} {pre : Bytes} {w : Walk} (n : UrlState) (ch : ℕ) (rest : Bytes)
    → Sim first pre w
    → n ≢ path_after_scheme
    → (n ≡ scheme_suffix_slash → ch ≡ b'/')
    → (next : ℕ) × (enter_part
          (pre ++ rest)
          (record (scan_of first pre w) { s = n; has_userinfo = saw_at n w.has_userinfo })
        ≡ scan_of next (pre ++ (ch ∷ [])) (advance n w ch))
      × Sim next (pre ++ (ch ∷ [])) (advance n w ch)
enter_lem {first} {pre} {w} n ch rest m fwd slash =
    let len : length (pre ++ (ch ∷ [])) ≡ length pre + 1 =
      omega (arith, length-append pre (ch ∷ [])) in
    elim (Bool-cases (same_part (part_from_state n) w.part)) [
      | inl same ↦ (
        first,
        rw (same, len),
        rw same (record {
          ahead = omega (arith, len, m.ahead);
          word_is = rw (m.word_is) (drop_snoc first pre ch m.ahead);
          part_is = sym (same_part→eq (part_from_state n) w.part same);
          slash = λ e. (pre, ap (λ (k : ℕ). pre ++ (k ∷ [])) (slash e));
          forward = fwd;
        }),
      )
      | inr other ↦ (
        length pre,
        rw (other, len, close_lem w.part first pre rest w.word w.out m.ahead m.word_is),
        rw other (record {
          ahead = omega (arith, len);
          word_is = sym (drop-append_right (length pre) 0 pre (ch ∷ []) (omega arith));
          part_is = refl;
          slash = λ e. (pre, ap (λ (k : ℕ). pre ++ (k ∷ [])) (slash e));
          forward = fwd;
        }),
      )
    ]

pub slash_before : (s : UrlState) (ch : ℕ) → get_state_for s ch ≡ scheme_suffix_slash → ch ≡ b'/'
unfolding get_state_for
slash_before scheme_suffix ch e = ground arith
slash_before _ ch e = ground arith

-- The state that steps back is reached from behind `scheme:/`, and reads the same byte as a path.
path_again :
    (s : UrlState) (ch : ℕ)
    → get_state_for s ch ≡ path_after_scheme
    → (s ≡ scheme_suffix_slash) × (get_state_for path_after_scheme ch ≡ path)
unfolding get_state_for
path_again scheme_suffix_slash ch e = (refl, ground arith)
path_again _ ch e = ground arith

-- the walk behind the first byte of such a path
abbrev pub path_walk : Walk → ℕ → Walk
path_walk w ch = record w { s = path; part = some path_part; word = b'/' ∷ ch ∷ [] }

pub scan_round :
    (fuel : ℕ) (text : Bytes) (c : Scan) (ch : ℕ) {d : Scan}
    → get_elem? text c.it ≡ some ch
    → step text c ch ≡ some d
    → scan (suc fuel) text c ≡ scan fuel text d
unfolding scan
scan_round fuel text c ch at go = rw (at, go, scan)

-- A round in which the state machine gives `n`.
pub step-react :
    (text : Bytes) (c : Scan) (ch : ℕ) (n : UrlState) {d : Scan}
    → get_state_for c.s ch ≡ n
    → react n c ≡ some d
    → step text c ch ≡ some (enter_part text d)
unfolding step
step-react text c ch n e r = rw (e, r, step)

slash_word :
    (pre before : Bytes) (ch : ℕ)
    → pre ≡ before ++ (b'/' ∷ [])
    → b'/' ∷ ch ∷ [] ≡ drop (length pre - 1) (pre ++ (ch ∷ []))
slash_word pre before ch split =
    let k = length pre - 1 in
    let len : k ≡ length before + 0 =
      omega (arith, ap length split, length-append before (b'/' ∷ [])) in
    sym (
      ap (λ (v : Bytes). drop k (v ++ (ch ∷ []))) split
      ∙ ap (drop k) (append_assoc before (b'/' ∷ []) (ch ∷ []))
      ∙ drop-append_right k 0 before (b'/' ∷ ch ∷ []) len)

-- The two rounds on that byte.
pub rewind_lem :
    {first : ℕ} {pre : Bytes} {w : Walk} (ch fuel : ℕ) (rest : Bytes)
    → Sim first pre w
    → get_state_for w.s ch ≡ path_after_scheme
    → (next : ℕ) × (scan (suc (suc fuel)) (pre ++ (ch ∷ rest)) (scan_of first pre w)
        ≡ scan fuel (pre ++ (ch ∷ rest)) (scan_of next (pre ++ (ch ∷ [])) (path_walk w ch)))
      × Sim next (pre ++ (ch ∷ [])) (path_walk w ch)
unfolding part_from_state
rewind_lem {first} {pre} {w} ch fuel rest m e =
    let text = pre ++ (ch ∷ rest) in
    let (from, again) = path_again w.s ch e in
    let (before, split) = m.slash from in
    let no_part : w.part ≡ none = m.part_is ∙ rw from refl in
    let at : get_elem? text (length pre) ≡ some ch = get_elem?-append pre ch rest in
    let len : length pre ≡ length before + 1 = ap length split ∙ length-append before (b'/' ∷ []) in
    let back : length pre - 1 + 1 ≡ length pre = omega arith in
    let len' : length pre + 1 ≡ length (pre ++ (ch ∷ [])) = sym (length-append pre (ch ∷ [])) in
    let middle : Scan = record (scan_of (length pre - 1) pre w) {
      s = path_after_scheme;
      current_part = some path_part;
    } in
    let one : step text (scan_of first pre w) ch ≡ some middle =
      step-react text (scan_of first pre w) ch path_after_scheme e refl ∙ rw (no_part, back) in
    let two : step text middle ch
        ≡ some (scan_of (length pre - 1) (pre ++ (ch ∷ [])) (path_walk w ch)) =
      step-react text middle ch path again refl ∙ rw len' in
    (
      length pre - 1,
      scan_round (suc fuel) text _ ch at one ∙ scan_round fuel text middle ch at two,
      record {
        ahead = omega (arith, len');
        word_is = slash_word pre before ch split;
        part_is = refl;
        slash = λ q. cc;
        forward = λ q. cc;
      },
    )
