-- ===== src/Url.antt =====
-- The URL parser: include/asioext/detail/url_parser.hpp, include/asioext/detail/impl/url_parser.cpp
-- and include/asioext/impl/url_view.cpp.
--
-- A URL is the list of its bytes. `Chars` has the character classes, `State` the state machine,
-- `Authority` the parser of the part between `//` and the path, `Parser` the loop over the text, and
-- `View` the class `url_view`.
pub mod Parts
pub mod Chars
pub mod State
pub mod Authority
pub mod Parser
pub mod Walk
pub mod View
