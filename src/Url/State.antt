-- ===== src/Url/State.antt =====
-- The state machine of include/asioext/detail/impl/url_parser.cpp.
use asio_extensions.Prelude.{ℕ, Bool, ◌||◌, ◌==◌, if◌then◌else◌, Option, none, some, Bytes}
use asio_extensions.Url.Parts.{ParsedUrl}
use asio_extensions.Url.Chars.{is_alpha, is_alnum, is_user_char, is_url_char}

pub data UrlState : Type 0 where
  invalid initial scheme scheme_suffix scheme_suffix_slash : UrlState
  authority_start authority authority_with_at : UrlState
  path_after_scheme path query_string_start query_string fragment_start fragment : UrlState

-- the cases of `authority_start` and `authority`, into which `authority_with_at` falls through
authority_next : ℕ → UrlState
authority_next ch =
    if ch == b'/'
    then path
    else if ch == b'?'
    then query_string_start
    else if ch == b'@'
    then authority_with_at
    else if ch == b'[' || ch == b']'
    then authority
    else if is_user_char ch
    then authority
    else invalid

path_next : ℕ → UrlState
path_next ch =
    if is_url_char ch
    then path
    else if ch == b'?'
    then query_string_start
    else if ch == b'#'
    then fragment_start
    else invalid

query_next : ℕ → UrlState
query_next ch =
    if is_url_char ch
    then query_string
    else if ch == b'?'
    then query_string
    else if ch == b'#'
    then fragment_start
    else invalid

unfoldable pub get_state_for : UrlState → ℕ → UrlState
unfolding authority_next path_next query_next
get_state_for initial ch =
    if ch == b'/' || ch == b'*' then path else if is_alpha ch then scheme else invalid
get_state_for scheme ch =
    if is_alnum ch || ch == b'+' || ch == b'-' || ch == b'.'
    then scheme
    else if ch == b':'
    then scheme_suffix
    else invalid
get_state_for scheme_suffix ch =
    if ch == b'/' then scheme_suffix_slash else if is_url_char ch then path else invalid
get_state_for scheme_suffix_slash ch =
    if ch == b'/' then authority_start else if is_url_char ch then path_after_scheme else invalid
get_state_for authority_with_at ch = if ch == b'@' then invalid else authority_next ch
get_state_for authority_start ch = authority_next ch
get_state_for authority ch = authority_next ch
get_state_for path_after_scheme ch = path_next ch
get_state_for path ch = path_next ch
get_state_for query_string_start ch = query_next ch
get_state_for query_string ch = query_next ch
get_state_for fragment_start ch =
    if is_url_char ch || ch == b'?'
    then fragment
    else if ch == b'#'
    then fragment_start
    else invalid
get_state_for fragment ch =
    if is_url_char ch then fragment else if ch == b'?' || ch == b'#' then fragment else invalid
get_state_for invalid ch = invalid

-- the members of `parsed_url` that `part_from_state` points to
pub data Part : Type 0 where
  scheme_part host_part path_part query_part fragment_part : Part

-- `part_from_state`; `none` is the null pointer
unfoldable pub part_from_state : UrlState → Option Part
part_from_state scheme = some scheme_part
part_from_state authority = some host_part
part_from_state authority_with_at = some host_part
part_from_state path_after_scheme = some path_part
part_from_state path = some path_part
part_from_state query_string = some query_part
part_from_state fragment = some fragment_part
part_from_state _ = none

-- `*current_part = ...`
abbrev pub store_part : Part → Bytes → ParsedUrl → ParsedUrl
store_part scheme_part v out = record out { scheme = v }
store_part host_part v out = record out { host = v }
store_part path_part v out = record out { path = v }
store_part query_part v out = record out { query = v }
store_part fragment_part v out = record out { fragment = v }

abbrev part_code : Option Part → ℕ
part_code none = 0
part_code (some scheme_part) = 1
part_code (some host_part) = 2
part_code (some path_part) = 3
part_code (some query_part) = 4
part_code (some fragment_part) = 5

-- equality of two pointers to members
abbrev pub same_part : Option Part → Option Part → Bool
same_part p q = part_code p == part_code q
