-- ===== src/Url/Parser.antt =====
-- `parse_url` of include/asioext/detail/impl/url_parser.cpp: the loop over the text.
--
-- Pointers into the text are offsets from its start. `*it` is read only where `it != last`, that is
-- where the text has a byte at `it`. The loop takes fuel, two rounds for each byte and two more: a
-- byte is read at most twice, since only `path_after_scheme` steps back, and it goes on to `path`.
use asio_extensions.Prelude.{
  ℕ, zero, suc, ◌+◌, ◌-◌, ◌*◌, Bool, true, false, [], ◌∷◌, if◌then◌else◌, Option, none, some, Bytes,
  length, get_elem?, read_at,
}
use asio_extensions.Url.Parts.{ParsedUrl, invalid_character}
use asio_extensions.Url.State.{
  UrlState, invalid, initial, authority_with_at, path_after_scheme, get_state_for, Part,
  part_from_state, store_part, same_part,
}
use asio_extensions.Url.Authority.{Parsed, parse_authority}

-- the local variables of `parse_url`, with `out`
pub record Scan : Type 0 where
  pub s : UrlState
  pub has_userinfo : Bool
  pub current_part : Option Part
  pub first : ℕ
  pub it : ℕ
  pub out : ParsedUrl

abbrev pub start : ParsedUrl → Scan
start out = record {
  s = initial;
  has_userinfo = false;
  current_part = none;
  first = 0;
  it = 0;
  out = out;
}

-- `if (current_part) *current_part = std::string_view(first, it - first);`
abbrev pub close_part : Bytes → Option Part → ℕ → ℕ → ParsedUrl → ParsedUrl
close_part text none first it out = out
close_part text (some part) first it out = store_part part (read_at text first (it - first)) out

-- from `part_from_state` to the end of the body, and `++it`
abbrev pub enter_part : Bytes → Scan → Scan
enter_part text c =
    let part = part_from_state c.s in
    if same_part part c.current_part then record c { it = c.it + 1 } else record c {
      out = close_part text c.current_part c.first c.it c.out;
      current_part = part;
      first = c.it;
      it = c.it + 1;
    }

-- the `switch (s)` of the body; `none` is the error exit
abbrev pub react : UrlState → Scan → Option Scan
react invalid c = none
react path_after_scheme c = some (record c { s = path_after_scheme; it = c.it - 1 })
react authority_with_at c = some (record c { s = authority_with_at; has_userinfo = true })
react s c = some (record c { s = s })

-- one round of the loop on the character at `it`
unfoldable pub step : Bytes → Scan → ℕ → Option Scan
unfolding part_from_state
step text c ch = elim (react (get_state_for c.s ch) c) [
  | none ↦ none
  | some d ↦ some (enter_part text d)
]

-- `if (!out.host.empty())`: the whole authority stands in `host` until here
abbrev pub split_host : Bool → ParsedUrl → Parsed
split_host has out = elim out.host [ [] ↦ (out, none) | h ∷ hs ↦ parse_authority (h ∷ hs) has out ]

-- behind the loop
abbrev finish : Bytes → Scan → Parsed
finish text c = split_host c.has_userinfo (close_part text c.current_part c.first c.it c.out)

unfoldable pub scan : ℕ → Bytes → Scan → Option Parsed
unfolding step
scan zero text c = none
scan (suc fuel) text c = elim (get_elem? text c.it) [
  | none ↦ some (finish text c)
  | some ch ↦ elim (step text c ch) [
    | none ↦ some (c.out, some invalid_character)
    | some d ↦ scan fuel text d
  ]
]

-- Each byte is read at most twice.
unfoldable pub parse_url : Bytes → ParsedUrl → Option Parsed
unfolding scan
parse_url text out = scan (2 * length text + 2) text (start out)
