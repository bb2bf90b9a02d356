-- ===== src/Socks/Protocol.antt =====
-- The packets of include/asioext/socks/detail/impl/protocol.cpp, with the enumerations of
-- include/asioext/socks/constants.hpp.
--
-- An encoder stores its bytes from `out` on, one behind the other: it is the list of these bytes. A
-- cast to `uint8_t` and the mask `0xff` are `% 256`, and `>> 8` is `/ 256`.
use asio_extensions.Prelude.{
  ℕ, ◌+◌, ◌/◌, ◌%◌, Bool, true, false, ◌&&◌, not, [], ◌∷◌, ◌++◌, Bytes, length, ltb, if◌then◌else◌,
}
use asio_extensions.LinearBuffer.{add_size}

-- `enum class command`
pub data Command : Type 0 where
  connect bind bind_udp : Command

abbrev pub command_code : Command → ℕ
command_code connect = 1
command_code bind = 2
command_code bind_udp = 3

-- What the code asks of an `asio::ip::tcp::endpoint`: its protocol, the bytes of its address in
-- either family, and its port.
pub record Endpoint : Type 0 where
  pub is_v4 : Bool
  pub v4_bytes : Bytes
  pub v6_bytes : Bytes
  pub port : ℕ

-- `std::string::empty`
abbrev pub is_empty : Bytes → Bool
is_empty [] = true
is_empty (c ∷ cs) = false

abbrev pub port_bytes : ℕ → Bytes
port_bytes port = (port / 256) % 256 ∷ port % 256 ∷ []

-- SOCKS v4a

unfoldable pub get_v4_exec_packet_size : Endpoint → Bytes → Bytes → ℕ
get_v4_exec_packet_size remote remote_host user_id =
    if is_empty remote_host && not remote.is_v4
    then 0
    else let size = add_size 8 (add_size (length user_id) 1) in
      if is_empty remote_host then size else add_size size (add_size (length remote_host) 1)

unfoldable pub encode_v4_exec_packet : Command → Endpoint → Bytes → ℕ → Bytes → Bytes
encode_v4_exec_packet cmd remote remote_host port user_id =
    4
    ∷ command_code cmd
    ∷ (port_bytes port
        ++ ((if is_empty remote_host then remote.v4_bytes else 0 ∷ 0 ∷ 0 ∷ 1 ∷ [])
            ++ (user_id ++ (0 ∷ (if is_empty remote_host then [] else remote_host ++ (0 ∷ []))))))

-- SOCKS v5: an `auth_method` is its byte

unfoldable pub get_greet_packet_size : Bytes → ℕ
get_greet_packet_size auth_methods =
    if ltb 255 (length auth_methods) then 0 else length auth_methods + 2

unfoldable pub get_login_packet_size : Bytes → Bytes → ℕ
get_login_packet_size username password =
    if ltb 255 (length username)
    then 0
    else if ltb 255 (length password)
    then 0
    else length username + length password + 3

-- the length of address, port and fixed part, once in the size and once, unused, in the encoder
abbrev v5_exec_size : Endpoint → Bytes → ℕ
v5_exec_size remote remote_host =
    if not (is_empty remote_host)
    then 6 + (length remote_host + 1)
    else if remote.is_v4
    then 6 + 4
    else 6 + 16

unfoldable pub get_v5_exec_packet_size : Endpoint → Bytes → ℕ
get_v5_exec_packet_size remote remote_host =
    if ltb 255 (length remote_host) then 0 else v5_exec_size remote remote_host

unfoldable pub encode_greet_packet : Bytes → Bytes
encode_greet_packet auth_methods = 5 ∷ length auth_methods % 256 ∷ auth_methods

unfoldable pub encode_login_packet : Bytes → Bytes → Bytes
encode_login_packet username password =
    1 ∷ length username % 256 ∷ (username ++ (length password % 256 ∷ password))

unfoldable pub encode_v5_exec_packet : Command → Endpoint → Bytes → ℕ → Bytes
encode_v5_exec_packet cmd remote remote_host port =
    5
    ∷ command_code cmd
    ∷ 0
    ∷ (if not (is_empty remote_host)
        then 3 ∷ length remote_host % 256 ∷ (remote_host ++ port_bytes port)
        else if remote.is_v4
        then 1 ∷ (remote.v4_bytes ++ port_bytes remote.port)
        else 4 ∷ (remote.v6_bytes ++ port_bytes remote.port))
