-- ===== src/Url/Walk/RoundTrip.antt =====
-- A URL that is put together from its components is read back as these components.
use asio_extensions.Prelude.{
  ℕ, ◌≡◌, ◌≢◌, refl, sym, ◌∙◌, ap, [], ◌∷◌, ◌++◌, append_assoc, append-nil, Bool, true, false, some,
  Bytes, all, all-append, arith,
}
use asio_extensions.Url.Parts.{ParsedUrl, no_parts}
use asio_extensions.Url.Chars.{is_mark, is_alnum, is_alpha, is_user_char, is_url_char}
use asio_extensions.Url.State.{
  path, query_string_start, query_string, fragment_start, fragment, get_state_for, part_from_state,
}
use asio_extensions.Url.Authority.{name_char, parse_authority}
use asio_extensions.Url.Authority.Port.{is_digit, port_parts}
use asio_extensions.Url.Authority.Join.{IsName, parse_authority_join}
use asio_extensions.Url.Parser.{split_host, parse_url}
use asio_extensions.Url.Walk.{walk}
use asio_extensions.Url.Walk.Refine.{parse_url-eq-walk}
use asio_extensions.Url.Walk.Segments.{
  inside, walk_next, walk_segment, path_stays, query_stays, fragment_stays, scheme_char,
  walk_scheme, walk_user, walk_host,
}

-- the components of a URL with a name for a host and all parts, each without its delimiters
pub record Components : Type 0 where
  pub letter : ℕ
  pub scheme_rest : Bytes
  pub user : Bytes
  pub name : Bytes
  pub digits : Bytes
  pub path_rest : Bytes
  pub query : Bytes
  pub fragment : Bytes

pub record IsComponents (c : Components) : Type 0 where
  pub letter_alpha : is_alpha c.letter ≡ true
  pub scheme_chars : all scheme_char c.scheme_rest ≡ true
  pub user_chars : all is_user_char c.user ≡ true
  pub name_is : IsName c.name
  pub digit_chars : all is_digit c.digits ≡ true
  pub path_chars : all is_url_char c.path_rest ≡ true
  pub query_chars : all is_url_char c.query ≡ true
  pub fragment_chars : all is_url_char c.fragment ≡ true

-- `scheme://user@name:digits/path?query#fragment`
abbrev pub url_text : Components → Bytes
url_text c =
    c.letter
    ∷ (c.scheme_rest
        ++ (b':'
            ∷ b'/'
            ∷ b'/'
            ∷ (c.user
                ++ (b'@'
                    ∷ ((c.name ++ (b':' ∷ c.digits))
                        ++ (b'/' ∷ (c.path_rest ++ (b'?' ∷ (c.query ++ (b'#' ∷ c.fragment))))))))))

fragment_next : (c : ℕ) → is_url_char c ≡ true → get_state_for fragment_start c ≡ fragment
unfolding get_state_for
fragment_next c h = rw h

query_next : (c : ℕ) → is_url_char c ≡ true → get_state_for query_string_start c ≡ query_string
unfolding get_state_for
query_next c h = rw h

walk_fragment :
    (has : Bool) (word f : Bytes) (out : ParsedUrl)
    → all is_url_char f ≡ true
    → out.fragment ≡ []
    → walk (inside fragment_start has word out) f ≡ split_host has (record out { fragment = f })
unfolding walk part_from_state
walk_fragment has word [] out h e =
    ap (λ (v : Bytes). split_host has (record out { fragment = v })) e
walk_fragment has word (c ∷ cs) out h e =
    walk_next (inside fragment_start has word out) (inside fragment has (c ∷ []) out) c cs
      (rw (fragment_next c (ground arith)))
    ∙ ap (walk (inside fragment has (c ∷ []) out)) (sym (append-nil cs))
    ∙ walk_segment fragment is_url_char has (c ∷ []) cs [] out tt fragment_stays (ground arith)

walk_query :
    (has : Bool) (word q f : Bytes) (out : ParsedUrl)
    → all is_url_char q ≡ true
    → all is_url_char f ≡ true
    → out.query ≡ []
    → out.fragment ≡ []
    → walk (inside query_string_start has word out) (q ++ (b'#' ∷ f))
      ≡ split_host has (record out { query = q; fragment = f })
unfolding part_from_state get_state_for is_url_char
walk_query has word [] f out h k e d =
    walk_next (inside query_string_start has word out)
      (inside fragment_start has (word ++ (b'#' ∷ [])) out) b'#' f refl
    ∙ walk_fragment has (word ++ (b'#' ∷ [])) f out k d
    ∙ ap (λ (v : Bytes). split_host has (record out { query = v; fragment = f })) e
walk_query has word (c ∷ cs) f out h k e d =
    walk_next (inside query_string_start has word out) (inside query_string has (c ∷ []) out) c _
      (rw (query_next c (ground arith)))
    ∙ walk_segment query_string is_url_char has (c ∷ []) cs (b'#' ∷ f) out tt query_stays
        (ground arith)
    ∙ walk_next (inside query_string has (c ∷ cs) out)
        (inside fragment_start has (b'#' ∷ []) (record out { query = c ∷ cs })) b'#' f refl
    ∙ walk_fragment has (b'#' ∷ []) f (record out { query = c ∷ cs }) k d

walk_path :
    (has : Bool) (word p q f : Bytes) (out : ParsedUrl)
    → all is_url_char p ≡ true
    → all is_url_char q ≡ true
    → all is_url_char f ≡ true
    → out.query ≡ []
    → out.fragment ≡ []
    → walk (inside path has word out) (p ++ (b'?' ∷ (q ++ (b'#' ∷ f))))
      ≡ split_host has (record out { path = word ++ p; query = q; fragment = f })
unfolding part_from_state get_state_for is_url_char
walk_path has word p q f out hp hq hf e d =
    walk_segment path is_url_char has word p (b'?' ∷ (q ++ (b'#' ∷ f))) out tt path_stays hp
    ∙ walk_next (inside path has (word ++ p) out)
        (inside query_string_start has (b'?' ∷ []) (record out { path = word ++ p })) b'?'
        (q ++ (b'#' ∷ f)) refl
    ∙ walk_query has (b'?' ∷ []) q f (record out { path = word ++ p }) hq hf e d

name-is_user_char : (c : ℕ) → name_char c ≡ true → is_user_char c ≡ true
unfolding is_user_char is_mark is_alnum
name-is_user_char c h = ground arith

digit-is_user_char : (c : ℕ) → is_digit c ≡ true → is_user_char c ≡ true
unfolding is_user_char is_alnum
digit-is_user_char c h = ground arith

all_weaken :
    (p q : ℕ → Bool) (v : Bytes)
    → ((c : ℕ) → p c ≡ true → q c ≡ true)
    → all p v ≡ true
    → all q v ≡ true
all_weaken p q [] k h = refl
all_weaken p q (c ∷ cs) k h =
    let head : q c ≡ true = k c (ground arith) in
    let tail : all q cs ≡ true = all_weaken p q cs k (ground arith) in ground arith

host_chars :
    (h ds : Bytes)
    → all name_char h ≡ true
    → all is_digit ds ≡ true
    → all is_user_char (h ++ (b':' ∷ ds)) ≡ true
unfolding is_user_char
host_chars h ds n d =
    let name : all is_user_char h ≡ true =
      all_weaken name_char is_user_char h name-is_user_char n in
    let digits : all is_user_char ds ≡ true =
      all_weaken is_digit is_user_char ds digit-is_user_char d in
    rw (all-append is_user_char h (b':' ∷ ds), name, digits) refl

split_host_join :
    (u h ds : Bytes) (out : ParsedUrl)
    → all is_user_char u ≡ true
    → IsName h
    → all is_digit ds ≡ true
    → split_host true (record out { host = (u ++ (b'@' ∷ [])) ++ (h ++ (b':' ∷ ds)) })
      ≡ port_parts ds (record out { userinfo = u; host = h })
split_host_join [] h ds out user name digits =
    let rest = h ++ (b':' ∷ ds) in
    parse_authority_join [] h ds (record out { host = b'@' ∷ rest }) user name digits
split_host_join (c ∷ cs) h ds out user name digits =
    let rest = h ++ (b':' ∷ ds) in
    let whole = (c ∷ (cs ++ (b'@' ∷ []))) ++ rest in
    ap (λ (v : Bytes). parse_authority (c ∷ v) true (record out { host = whole }))
      (append_assoc cs (b'@' ∷ []) rest)
    ∙ parse_authority_join (c ∷ cs) h ds (record out { host = whole }) user name digits

host_nonempty : (h ds : Bytes) → h ++ (b':' ∷ ds) ≢ []
host_nonempty [] ds e = cc
host_nonempty (c ∷ cs) ds e = cc

-- A URL that is written from a scheme, user characters, a host name that is not empty, digits, a
-- path, a query and a fragment of URL characters is accepted, and every component is read back:
-- the delimiters fall away, the path keeps its slash, and the port is its decimal value. A port of
-- more than five digits or above 65535 is refused.
pub parse_url_round_trip :
    (c : Components)
    → IsComponents c
    → parse_url (url_text c) no_parts
      ≡ some (
          port_parts c.digits (record no_parts {
            scheme = c.letter ∷ c.scheme_rest;
            userinfo = c.user;
            host = c.name;
            path = b'/' ∷ c.path_rest;
            query = c.query;
            fragment = c.fragment;
          }))
parse_url_round_trip c v =
    let host = c.name ++ (b':' ∷ c.digits) in
    let behind = c.path_rest ++ (b'?' ∷ (c.query ++ (b'#' ∷ c.fragment))) in
    let one = record no_parts { scheme = c.letter ∷ c.scheme_rest } in
    let whole = (c.user ++ (b'@' ∷ [])) ++ host in
    parse_url-eq-walk (url_text c) no_parts
    ∙ ap some (
        walk_scheme c.letter c.scheme_rest (c.user ++ (b'@' ∷ (host ++ (b'/' ∷ behind)))) no_parts
          v.letter_alpha v.scheme_chars
        ∙ walk_user false (b':' ∷ b'/' ∷ b'/' ∷ []) c.user (host ++ (b'/' ∷ behind)) one
            v.user_chars
        ∙ walk_host (c.user ++ (b'@' ∷ [])) host behind one
            (host_chars c.name c.digits v.name_is.1 v.digit_chars) (host_nonempty c.name c.digits)
        ∙ walk_path true (b'/' ∷ []) c.path_rest c.query c.fragment (record one { host = whole })
            v.path_chars v.query_chars v.fragment_chars refl refl
        ∙ split_host_join c.user c.name c.digits
            (record one { path = b'/' ∷ c.path_rest; query = c.query; fragment = c.fragment })
            v.user_chars v.name_is v.digit_chars)
