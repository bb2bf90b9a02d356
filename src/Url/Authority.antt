-- ===== src/Url/Authority.antt =====
-- `parse_authority` of include/asioext/detail/impl/url_parser.cpp. A pointer into the authority is
-- the bytes from it up to `last`, so `first == last` is [], and `std::string_view(start, first -
-- start)` is the bytes of `start` that are no longer ahead.
pub mod Port
pub mod Split
pub mod Join
use asio_extensions.Prelude.{
  ℕ, zero, suc, ◌+◌, ◌-◌, ◌*◌, ◌%◌, ◌^◌, Bool, true, false, ◌&&◌, ◌||◌, List, [], ◌∷◌, ltb, ◌==◌,
  if◌then◌else◌, Option, none, some, Bytes, length, take,
}
use asio_extensions.Url.Parts.{ParsedUrl, UrlError, invalid_character, missing_host, port_overflow}
use asio_extensions.Url.Chars.{is_alnum, is_hex, is_user_char}

abbrev pub view : Bytes → Bytes → Bytes
view start first = take (length start - length first) start

-- `while (first != last && is_user_char(*first)) ++first;`
pub skip_user : Bytes → Bytes
skip_user [] = []
skip_user (ch ∷ first) = elim (is_user_char ch) [ true ↦ skip_user first | false ↦ ch ∷ first ]

abbrev pub literal_char : Bool → ℕ → Bool
literal_char true ch =
    is_alnum ch || ch == b'%' || ch == b'.' || ch == b'-' || ch == b'_' || ch == b'~'
literal_char false ch = is_hex ch || ch == b':' || ch == b'.'

-- `last - first > 3 && first[1] == '2' && first[2] == '5'`, given what stands behind `first`
abbrev pub percent_encoded : Bytes → Bool
percent_encoded (a ∷ b ∷ rest) = ltb 3 (length rest + 3) && a == b'2' && b == b'5'
percent_encoded _ = false

-- The loop over a host in brackets, behind the `[`. The flag is `is_zone_spec`; `skip` counts the
-- bytes that `first += 2` steps over. `none` is the error exit.
pub scan_literal : Bool → ℕ → Bytes → Option Bytes
scan_literal zone skip [] = some []
scan_literal zone (suc skip) (ch ∷ first) = scan_literal zone skip first
scan_literal zone zero (ch ∷ first) = elim (literal_char zone ch) [
  | true ↦ scan_literal zone 0 first
  | false ↦ elim (ch == b'%' && percent_encoded first) [
    | true ↦ scan_literal true 2 first
    | false ↦ if ch == b']' then some first else none
  ]
]

abbrev pub name_char : ℕ → Bool
name_char ch = is_alnum ch || ch == b'.' || ch == b'-' || ch == b'_'

-- the loop over any other host
pub scan_name : Bytes → Option Bytes
scan_name [] = some []
scan_name (ch ∷ first) = elim (name_char ch) [
  | true ↦ scan_name first
  | false ↦ if ch == b':' then some (ch ∷ first) else none
]

abbrev max_port_digits : ℕ
max_port_digits = 5

-- The loop over the digits of the port, in `std::uint32_t`; the first argument is
-- `max_port_digits - num_digits`.
pub scan_port : ℕ → ℕ → Bytes → Option (ℕ × Bytes)
scan_port zero port first = some (port, first)
scan_port (suc left) port [] = some (port, [])
scan_port (suc left) port (ch ∷ first) =
    let rest = scan_port left ((port * 10 + (ch - b'0')) % 2 ^ 32) first in
    if ltb ch b'0' || ltb b'9' ch then none else rest

-- `out` and `ec` as they are left; `none` is an `ec` that was not touched
abbrev pub Parsed : Type 0
Parsed = ParsedUrl × Option UrlError

-- `first != last`
abbrev pub not_end : Bytes → Bool
not_end [] = false
not_end (c ∷ cs) = true

pub parse_port : Bytes → ParsedUrl → Parsed
unfolding scan_port
parse_port start out = elim (scan_port max_port_digits 0 start) [
  | none ↦ (out, some invalid_character)
  | some (port, first) ↦
      if ltb 0xffff port || not_end first
      then (out, some port_overflow)
      else (record out { port = view start first; port_value = port % 2 ^ 16 }, none)
]

-- behind the host
pub parse_after_host : Bytes → ParsedUrl → Parsed
unfolding parse_port
parse_after_host [] out = (out, none)
parse_after_host (ch ∷ first) out =
    if ch == b':' then parse_port first out else (out, some invalid_character)

-- from the host on
pub parse_host : Bytes → ParsedUrl → Parsed
unfolding parse_after_host scan_literal scan_name
parse_host [] out = (out, some missing_host)
parse_host (ch ∷ first) out =
    elim (if ch == b'[' then scan_literal false 0 first else scan_name (ch ∷ first)) [
      | none ↦ (out, some invalid_character)
      | some rest ↦ parse_after_host rest (record out { host = view (ch ∷ first) rest })
    ]

-- behind the user information
parse_at : Bytes → Bytes → ParsedUrl → Parsed
parse_at start [] out = (out, some invalid_character)
parse_at start (ch ∷ first) out =
    if ch == b'@'
    then parse_host first (record out { userinfo = view start (ch ∷ first) })
    else (out, some invalid_character)

pub parse_authority : Bytes → Bool → ParsedUrl → Parsed
unfolding parse_at parse_host skip_user
parse_authority first true out = parse_at first (skip_user first) out
parse_authority first false out = parse_host first out
