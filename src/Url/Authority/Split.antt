-- ===== src/Url/Authority/Split.antt =====
-- `parse_authority` cuts the authority into user information, host and port.
use asio_extensions.Prelude.{
  subst, ap₂, ==_iff, ℕ, zero, suc, ◌≤◌, ◌<◌, ◌^◌, Bool, true, false, ◌&&◌, ◌≡◌, ◌⊎◌, inl, inr,
  refl, ◌∙◌, sym, ap, [], ◌∷◌, ◌++◌, leb, ◌==◌, if◌then◌else◌, none, some, Bool-cases, Option-cases,
  Bytes, length, take, all, arith, take_all, take-append_left, length-append, append-nil,
}
use asio_extensions.Url.Parts.{ParsedUrl}
use asio_extensions.Url.Chars.{is_user_char}
use asio_extensions.Url.Authority.{
  Parsed, view, skip_user, literal_char, percent_encoded, scan_literal, name_char, scan_name,
  parse_after_host, parse_host, parse_at, parse_authority,
}
use asio_extensions.Url.Authority.Port.{is_digit, decimal, port_parts, parse_port_result}

-- The bytes between two pointers.
pub view_lem : (w rest : Bytes) → view (w ++ rest) rest ≡ w
view_lem w rest =
    ap (λ (n : ℕ). take n (w ++ rest)) (omega (arith, length-append w rest))
    ∙ take-append_left (length w) w rest (omega arith)
    ∙ take_all (length w) w (omega arith)

skip_user_read :
    (start : Bytes) → (u : Bytes) × (start ≡ u ++ skip_user start) × (all is_user_char u ≡ true)
unfolding skip_user
skip_user_read [] = ([], refl, refl)
skip_user_read (c ∷ cs) = elim (Bool-cases (is_user_char c)) [
  | inl user ↦
      let (u, split, users) = skip_user_read cs in
      (c ∷ u, rw (user, skip_user) (ap (◌∷◌ c) split), rw user users)
  | inr other ↦ ([], rw (other, skip_user), refl)
]

scan_name_read :
    (start : Bytes) {rest : Bytes}
    → scan_name start ≡ some rest
    → (h : Bytes) × (start ≡ h ++ rest) × (all name_char h ≡ true)
unfolding scan_name
scan_name_read [] e = ([], ground arith, refl)
scan_name_read (c ∷ cs) e = elim (Bool-cases (name_char c)) [
  | inl name ↦
      let (h, split, names) = scan_name_read cs (rw (name, scan_name) at e) in
      (c ∷ h, ap (◌∷◌ c) split, rw name names)
  | inr other ↦ ([], ground arith, refl)
]

scan_literal_read :
    (zone : Bool) (skip : ℕ) (start : Bytes) {rest : Bytes}
    → scan_literal zone skip start ≡ some rest
    → (h : Bytes) × (start ≡ h ++ rest)
unfolding scan_literal
scan_literal_read zone zero [] e = ([], ground arith)
scan_literal_read zone (suc skip) [] e = ([], ground arith)
scan_literal_read zone (suc skip) (c ∷ cs) e =
    let (h, split) = scan_literal_read zone skip cs e in (c ∷ h, ap (◌∷◌ c) split)
scan_literal_read zone zero (c ∷ cs) e = elim (Bool-cases (literal_char zone c)) [
  | inl plain ↦
      let (h, split) = scan_literal_read zone 0 cs (rw (plain, scan_literal) at e) in
      (c ∷ h, ap (◌∷◌ c) split)
  | inr special ↦ elim (Bool-cases (c == b'%' && percent_encoded cs)) [
    | inl opens ↦
        let (h, split) = scan_literal_read true 2 cs (rw (special, opens, scan_literal) at e) in
        (c ∷ h, ap (◌∷◌ c) split)
    | inr other ↦ (c ∷ [], ap (◌∷◌ c) (ground arith))
  ]
]

-- The parts of an authority that was accepted, for the text from the host on.
pub record HostSplit (text : Bytes) (out res : ParsedUrl) : Type 0 where
  pub joined :
      ((text ≡ res.host) × (res.port ≡ out.port) × (res.port_value ≡ out.port_value))
      ⊎ ((text ≡ res.host ++ (b':' ∷ res.port))
          × (all is_digit res.port ≡ true)
          × (length res.port ≤ 5)
          × (res.port_value ≡ decimal res.port)
          × (res.port_value < 2 ^ 16))
  pub userinfo_kept : res.userinfo ≡ out.userinfo
  pub others_kept :
      (res.scheme ≡ out.scheme)
      × (res.path ≡ out.path)
      × (res.query ≡ out.query)
      × (res.fragment ≡ out.fragment)

port_parts-eq-ok :
    (ds : Bytes) (out : ParsedUrl) {res : ParsedUrl}
    → port_parts ds out ≡ (res, none)
    → (record out { port = ds; port_value = decimal ds } ≡ res)
      × (length ds ≤ 5)
      × (decimal ds ≤ 0xffff)
port_parts-eq-ok ds out e = elim (Bool-cases (leb (length ds) 5 && leb (decimal ds) 0xffff)) [
  | inl fits ↦ (ap (λ (p : Parsed). p.0) (rw fits at e), ground arith, ground arith)
  | inr over ↦ cc (rw over at e)
]

after_host-HostSplit :
    (h rest : Bytes) (out : ParsedUrl) {res : ParsedUrl}
    → parse_after_host rest (record out { host = h }) ≡ (res, none)
    → HostSplit (h ++ rest) out res
unfolding parse_after_host
after_host-HostSplit h [] out e =
    subst (HostSplit (h ++ []) out) (ap (λ (p : Parsed). p.0) e) (record {
      joined = inl (append-nil h, refl, refl);
      userinfo_kept = refl;
      others_kept = (refl, refl, refl, refl);
    })
after_host-HostSplit h (c ∷ cs) out {res} e = elim (Bool-cases (c == b':')) [
  | inl colon ↦ elim (parse_port_result cs (record out { host = h })) [
    | inl (digits, runs) ↦
        let (same, short, small) =
          port_parts-eq-ok cs (record out { host = h }) (sym runs ∙ (rw colon at e)) in
        let at_colon : h ++ (c ∷ cs) ≡ h ++ (b':' ∷ cs) =
          ap (λ (k : ℕ). h ++ (k ∷ cs)) ((==_iff c b':').0 colon) in
        subst (HostSplit (h ++ (c ∷ cs)) out) same (record {
          joined = inr (at_colon, digits, short, refl, omega arith);
          userinfo_kept = refl;
          others_kept = (refl, refl, refl, refl);
        })
    | inr (no_digits, inl runs) ↦ cc (sym runs ∙ (rw colon at e))
    | inr (no_digits, inr runs) ↦ cc (sym runs ∙ (rw colon at e))
  ]
  | inr other ↦ cc (rw other at e)
]

parse_host-HostSplit :
    (text : Bytes) (out : ParsedUrl) {res : ParsedUrl}
    → parse_host text out ≡ (res, none)
    → HostSplit text out res
unfolding parse_host
parse_host-HostSplit [] out e = cc
parse_host-HostSplit (c ∷ cs) out {res} e = elim (Bool-cases (c == b'[')) [
  | inl bracket ↦ elim (Option-cases (scan_literal false 0 cs)) [
    | inl bad ↦ cc (rw (bracket, bad, parse_host) at e)
    | inr (rest, run) ↦
        let (h, split) = scan_literal_read false 0 cs run in
        host_view (c ∷ h) rest (ap (◌∷◌ c) split) (rw (bracket, run, parse_host) at e)
  ]
  | inr name ↦ elim (Option-cases (scan_name (c ∷ cs))) [
    | inl bad ↦ cc (rw (name, bad, parse_host) at e)
    | inr (rest, run) ↦
        let (h, split, names) = scan_name_read (c ∷ cs) run in
        host_view h rest split (rw (name, run, parse_host) at e)
  ]
]
  where
    host_view :
        (h rest : Bytes)
        → c ∷ cs ≡ h ++ rest
        → parse_after_host rest (record out { host = view (c ∷ cs) rest }) ≡ (res, none)
        → HostSplit (c ∷ cs) out res
    host_view h rest split e = rw split (
        after_host-HostSplit h rest out (
          rw (← view_lem h rest) (
            subst
              (λ (t : Bytes).
                parse_after_host rest (record out { host = view t rest }) ≡ (res, none))
              split e)))

-- The parts of an authority that was accepted: put together again they are the text.
pub record AuthoritySplit (text : Bytes) (has_userinfo : Bool) (out res : ParsedUrl) : Type 0 where
  pub behind : Bytes
  pub front : text ≡ (if has_userinfo then res.userinfo ++ (b'@' ∷ behind) else behind)
  pub users : has_userinfo ≡ true → all is_user_char res.userinfo ≡ true
  pub host :
      HostSplit behind (if has_userinfo then record out { userinfo = res.userinfo } else out) res

at-AuthoritySplit :
    (text u first : Bytes) (out : ParsedUrl) {res : ParsedUrl}
    → text ≡ u ++ first
    → all is_user_char u ≡ true
    → parse_at text first out ≡ (res, none)
    → AuthoritySplit text true out res
unfolding parse_at
at-AuthoritySplit text u [] out split users e = cc
at-AuthoritySplit text u (c ∷ cs) out {res} split users e = elim (Bool-cases (c == b'@')) [
  | inl found ↦
      let with_user = record out { userinfo = view text (c ∷ cs) } in
      let host = parse_host-HostSplit cs with_user (rw found at e) in
      let user : res.userinfo ≡ u = host.userinfo_kept ∙ rw split (view_lem u (c ∷ cs)) in
      record {
        behind = cs;
        front =
            split ∙ ap₂ (λ (v : Bytes) (k : ℕ). v ++ (k ∷ cs)) (sym user) ((==_iff c b'@').0 found);
        users = λ _. rw user users;
        host =
            subst (λ (v : Bytes). HostSplit cs (record out { userinfo = v }) res)
              (sym host.userinfo_kept) host;
      }
  | inr other ↦ cc (rw other at e)
]

-- An accepted authority is the user information with its `@` if there is any, the host, and the
-- port with its `:` if there is one. The user information has only user characters, the port is at
-- most five digits of a value below 2 ^ 16, which is `port_value`, and the other parts stay.
pub parse_authority-AuthoritySplit :
    (text : Bytes) (has_userinfo : Bool) (out : ParsedUrl) {res : ParsedUrl}
    → parse_authority text has_userinfo out ≡ (res, none)
    → AuthoritySplit text has_userinfo out res
unfolding parse_authority
parse_authority-AuthoritySplit text false out e = record {
  behind = text;
  front = refl;
  users = λ h. cc;
  host = parse_host-HostSplit text out e;
}
parse_authority-AuthoritySplit text true out e =
    let (u, split, users) = skip_user_read text in
    at-AuthoritySplit text u (skip_user text) out split users e
