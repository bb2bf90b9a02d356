-- ===== src/Url/Walk/Segments.antt =====
-- The walk over one component of a URL.
use asio_extensions.Prelude.{
  ℕ, ◌≡◌, ◌≢◌, refl, ◌∙◌, ap, [], ◌∷◌, ◌++◌, append_assoc, append-nil, Bool, true, false, ◌||◌,
  ◌==◌, ne_of_test, some, Bytes, all, arith,
}
use asio_extensions.Url.Parts.{ParsedUrl}
use asio_extensions.Url.Chars.{is_alnum, is_alpha, is_user_char, is_url_char}
use asio_extensions.Url.State.{
  UrlState, invalid, initial, scheme_suffix_slash, scheme, scheme_suffix, authority_start,
  authority, authority_with_at, path_after_scheme, path, query_string, fragment, get_state_for,
  part_from_state,
}
use asio_extensions.Url.Walk.{Walk, begin, walk_step, walk}

-- A walk that stands in the part of its state.
abbrev pub inside : UrlState → Bool → Bytes → ParsedUrl → Walk
inside s has word out = record {
  s = s;
  has_userinfo = has;
  part = part_from_state s;
  word = word;
  out = out;
}

-- States that a component's bytes may keep.
abbrev IsPlain : UrlState → Type 0
IsPlain invalid = ⊥
IsPlain path_after_scheme = ⊥
IsPlain authority_with_at = ⊥
IsPlain _ = Unit {0}

pub walk_next :
    (w v : Walk) (ch : ℕ) (rest : Bytes)
    → walk_step w ch ≡ some v
    → walk w (ch ∷ rest) ≡ walk v rest
unfolding walk
walk_next w v ch rest e = rw (e, walk)

keep_step :
    (s : UrlState) (has : Bool) (word : Bytes) (out : ParsedUrl) (ch : ℕ)
    → IsPlain s
    → get_state_for s ch ≡ s
    → walk_step (inside s has word out) ch ≡ some (inside s has (word ++ (ch ∷ [])) out)
unfolding part_from_state
keep_step invalid has word out ch p e = elim p [ ]
keep_step path_after_scheme has word out ch p e = elim p [ ]
keep_step authority_with_at has word out ch p e = elim p [ ]
keep_step _ has word out ch p e = rw e

-- Bytes that keep the state are added to the word.
pub walk_segment :
    (s : UrlState) (stays : ℕ → Bool) (has : Bool) (word v rest : Bytes) (out : ParsedUrl)
    → IsPlain s
    → ((c : ℕ) → stays c ≡ true → get_state_for s c ≡ s)
    → all stays v ≡ true
    → walk (inside s has word out) (v ++ rest) ≡ walk (inside s has (word ++ v) out) rest
walk_segment s stays has word [] rest out p k h = rw append-nil
walk_segment s stays has word (c ∷ cs) rest out p k h =
    walk_next (inside s has word out) (inside s has (word ++ (c ∷ [])) out) c (cs ++ rest)
      (keep_step s has word out c p (k c (ground arith)))
    ∙ walk_segment s stays has (word ++ (c ∷ [])) cs rest out p k (ground arith)
    ∙ ap (λ (u : Bytes). walk (inside s has u out) rest) (append_assoc word (c ∷ []) cs)

-- The characters that keep each state.
pub path_stays : (c : ℕ) → is_url_char c ≡ true → get_state_for path c ≡ path
unfolding get_state_for
path_stays c h = rw h

pub query_stays : (c : ℕ) → is_url_char c ≡ true → get_state_for query_string c ≡ query_string
unfolding get_state_for
query_stays c h = rw h

pub fragment_stays : (c : ℕ) → is_url_char c ≡ true → get_state_for fragment c ≡ fragment
unfolding get_state_for
fragment_stays c h = rw h

abbrev pub scheme_char : ℕ → Bool
scheme_char c = is_alnum c || c == b'+' || c == b'-' || c == b'.'

scheme_stays : (c : ℕ) → scheme_char c ≡ true → get_state_for scheme c ≡ scheme
unfolding get_state_for
scheme_stays c h = rw h

-- A user character is none of the characters that end the authority.
user_char_other :
    (c : ℕ)
    → is_user_char c ≡ true
    → ((c == b'/') ≡ false) × ((c == b'?') ≡ false) × ((c == b'@') ≡ false)
unfolding is_user_char
user_char_other c h = (
  ne_of_test is_user_char b'/' c refl h,
  ne_of_test is_user_char b'?' c refl h,
  ne_of_test is_user_char b'@' c refl h,
)

abbrev IsAuthority : UrlState → Type 0
IsAuthority authority_start = Unit {0}
IsAuthority authority = Unit {0}
IsAuthority authority_with_at = Unit {0}
IsAuthority _ = ⊥

-- In the authority a user character leads to `authority`, from each of its three states.
user_char_next :
    (s : UrlState) (c : ℕ) → IsAuthority s → is_user_char c ≡ true → get_state_for s c ≡ authority
unfolding get_state_for
user_char_next s c p h = let (slash, question, at) = user_char_other c h in go s p slash question at
  where
    go :
        (s : UrlState)
        → IsAuthority s
        → (c == b'/') ≡ false
        → (c == b'?') ≡ false
        → (c == b'@') ≡ false
        → get_state_for s c ≡ authority
    go authority_start p slash question at = ground arith
    go authority p slash question at = ground arith
    go authority_with_at p slash question at = ground arith
    go _ p slash question at = elim p [ ]

-- The user information with its `@`, from the start of the authority.
pub walk_user :
    (has : Bool) (word u rest : Bytes) (out : ParsedUrl)
    → all is_user_char u ≡ true
    → walk (inside authority_start has word out) (u ++ (b'@' ∷ rest))
      ≡ walk (inside authority_with_at true (u ++ (b'@' ∷ [])) out) rest
unfolding part_from_state get_state_for
walk_user has word [] rest out h = walk_next _ _ b'@' rest refl
walk_user has word (c ∷ cs) rest out h =
    walk_next (inside authority_start has word out) (inside authority has (c ∷ []) out) c _
      (rw (user_char_next authority_start c tt (ground arith)))
    ∙ walk_segment authority is_user_char has (c ∷ []) cs (b'@' ∷ rest) out tt
        (λ d k. user_char_next authority d tt k) (ground arith)
    ∙ walk_next (inside authority has (c ∷ cs) out)
        (inside authority_with_at true (c ∷ (cs ++ (b'@' ∷ []))) out) b'@' rest refl

-- The rest of the authority, and the slash behind it.
pub walk_host :
    (word v rest : Bytes) (out : ParsedUrl)
    → all is_user_char v ≡ true
    → v ≢ []
    → walk (inside authority_with_at true word out) (v ++ (b'/' ∷ rest))
      ≡ walk (inside path true (b'/' ∷ []) (record out { host = word ++ v })) rest
unfolding part_from_state get_state_for
walk_host word [] rest out h ne = absurd (ne refl)
walk_host word (c ∷ cs) rest out h ne =
    walk_next (inside authority_with_at true word out)
      (inside authority true (word ++ (c ∷ [])) out) c _
      (rw (user_char_next authority_with_at c tt (ground arith)))
    ∙ walk_segment authority is_user_char true (word ++ (c ∷ [])) cs (b'/' ∷ rest) out tt
        (λ d k. user_char_next authority d tt k) (ground arith)
    ∙ rw append_assoc (walk_next (inside authority true (word ++ (c ∷ cs)) out) _ b'/' rest refl)

-- The scheme up to the start of the authority.
pub walk_scheme :
    (c : ℕ) (cs rest : Bytes) (out : ParsedUrl)
    → is_alpha c ≡ true
    → all scheme_char cs ≡ true
    → walk (begin out) (c ∷ (cs ++ (b':' ∷ b'/' ∷ b'/' ∷ rest)))
      ≡ walk
          (inside authority_start false (b':' ∷ b'/' ∷ b'/' ∷ []) (record out { scheme = c ∷ cs }))
          rest
unfolding part_from_state get_state_for is_alpha is_alnum
walk_scheme c cs rest out a h =
    let closed = record out { scheme = c ∷ cs } in
    let slash = ne_of_test is_alpha b'/' c refl a in
    let star = ne_of_test is_alpha b'*' c refl a in
    let first : get_state_for initial c ≡ scheme = ground arith in
    walk_next (begin out) (inside scheme false (c ∷ []) out) c _ (rw first)
    ∙ walk_segment scheme scheme_char false (c ∷ []) cs _ out tt scheme_stays h
    ∙ walk_next (inside scheme false (c ∷ cs) out) (inside scheme_suffix false (b':' ∷ []) closed)
        b':' _ refl
    ∙ walk_next (inside scheme_suffix false (b':' ∷ []) closed)
        (inside scheme_suffix_slash false (b':' ∷ b'/' ∷ []) closed) b'/' _ refl
    ∙ walk_next (inside scheme_suffix_slash false (b':' ∷ b'/' ∷ []) closed) _ b'/' rest refl
