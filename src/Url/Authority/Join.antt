-- ===== src/Url/Authority/Join.antt =====
-- `parse_authority` reads back an authority that was put together from its parts.
use asio_extensions.Prelude.{
  ℕ, ◌-◌, true, false, ◌&&◌, ◌≡◌, ◌≢◌, inl, inr, refl, ◌∙◌, ap, [], ◌∷◌, ◌++◌, ◌==◌, none, some,
  Bool-cases, Bytes, length, all, arith, ne_of_test, take_all,
}
use asio_extensions.Url.Parts.{ParsedUrl}
use asio_extensions.Url.Chars.{is_user_char, is_alnum}
use asio_extensions.Url.Authority.{
  Parsed, skip_user, literal_char, scan_literal, name_char, scan_name, parse_after_host, parse_host,
  parse_authority,
}
use asio_extensions.Url.Authority.Port.{is_digit, port_parts, parse_port_digits}
use asio_extensions.Url.Authority.Split.{view_lem}

-- a host that is no literal in brackets
abbrev pub IsName : Bytes → Type 0
IsName h = (h ≢ []) × (all name_char h ≡ true)

skip_user_run :
    (u rest : Bytes) → all is_user_char u ≡ true → skip_user (u ++ (b'@' ∷ rest)) ≡ b'@' ∷ rest
unfolding skip_user is_user_char
skip_user_run [] rest h = refl
skip_user_run (c ∷ cs) rest h = elim (Bool-cases (is_user_char c)) [
  | inl user ↦ rw (user, skip_user) (skip_user_run cs rest (rw user at h))
  | inr other ↦ cc (rw other at h)
]

scan_name_run :
    (h ds : Bytes) → all name_char h ≡ true → scan_name (h ++ (b':' ∷ ds)) ≡ some (b':' ∷ ds)
unfolding scan_name is_alnum
scan_name_run [] ds h = refl
scan_name_run (c ∷ cs) ds h = elim (Bool-cases (name_char c)) [
  | inl name ↦ rw (name, scan_name) (scan_name_run cs ds (rw name at h))
  | inr other ↦ cc (rw other at h)
]

scan_literal_open :
    (h : Bytes) → all (literal_char false) h ≡ true → scan_literal false 0 h ≡ some []
unfolding scan_literal
scan_literal_open [] h = refl
scan_literal_open (c ∷ cs) h = elim (Bool-cases (literal_char false c)) [
  | inl plain ↦ rw (plain, scan_literal) (scan_literal_open cs (rw plain at h))
  | inr other ↦ cc (rw other at h)
]

not_bracket : (c : ℕ) → name_char c ≡ true → (c == b'[') ≡ false
unfolding is_alnum
not_bracket c h = ne_of_test name_char b'[' c refl h

parse_host_run :
    (h ds : Bytes) (out : ParsedUrl)
    → IsName h
    → all is_digit ds ≡ true
    → parse_host (h ++ (b':' ∷ ds)) out ≡ port_parts ds (record out { host = h })
unfolding parse_host is_alnum
parse_host_run [] ds out n d = absurd (n.0 refl)
parse_host_run (c ∷ cs) ds out n d =
    let names : (name_char c && all name_char cs) ≡ true = n.1 in
    let no_bracket : (c == b'[') ≡ false = not_bracket c (ground arith) in
    rw (no_bracket, scan_name_run (c ∷ cs) ds n.1, parse_host)
      (ap (λ (v : Bytes). parse_after_host (b':' ∷ ds) (record out { host = v }))
          (view_lem (c ∷ cs) (b':' ∷ ds))
        ∙ parse_port_digits ds (record out { host = c ∷ cs }) d)

-- An authority that is put together from user characters with an `@`, a host name that is not
-- empty, and digits behind a `:` is read back as just these parts, with the port as its decimal
-- value; a port of more than five digits or above 65535 is refused.
pub parse_authority_join :
    (u h ds : Bytes) (out : ParsedUrl)
    → all is_user_char u ≡ true
    → IsName h
    → all is_digit ds ≡ true
    → parse_authority (u ++ (b'@' ∷ (h ++ (b':' ∷ ds)))) true out
      ≡ port_parts ds (record out { userinfo = u; host = h })
unfolding parse_authority
parse_authority_join u h ds out user name digits =
    let rest = h ++ (b':' ∷ ds) in
    rw (skip_user_run u rest user) (
      ap (λ (v : Bytes). parse_host rest (record out { userinfo = v })) (view_lem u (b'@' ∷ rest))
      ∙ parse_host_run h ds (record out { userinfo = u }) name digits)

-- A literal in brackets needs no closing bracket: without user information, `[` and any
-- hexadecimal digits, colons and dots up to the end are taken for a host.
pub parse_authority_open_bracket :
    (h : Bytes) (out : ParsedUrl)
    → all (literal_char false) h ≡ true
    → parse_authority (b'[' ∷ h) false out ≡ (record out { host = b'[' ∷ h }, none)
unfolding parse_authority
parse_authority_open_bracket h out plain =
    rw (scan_literal_open h plain, parse_host)
      (ap {B = Parsed} (λ (v : Bytes). (record out { host = v }, none))
        (take_all (length (b'[' ∷ h) - 0) (b'[' ∷ h) (omega arith)))
