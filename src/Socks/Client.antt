-- ===== src/Socks/Client.antt =====
-- The composed operations of include/asioext/socks/detail/client.hpp.
--
-- An operation is a coroutine: `point` is where it was left, and a call resumes it with the outcome
-- of the operation that it waits for. What it starts next is its action. The buffer is the bytes that
-- are committed to it; a region that was prepared is filled by the read, and the next call commits
-- it. Where the buffer cannot grow, `prepare` throws from the operation: this is not modelled.
use asio_extensions.Prelude.{
  ℕ, ◌+◌, Bool, true, false, not, ◌++◌, Bytes, length, take, drop, get_or, ◌==◌, if◌then◌else◌,
}
use asio_extensions.Socks.Protocol.{
  Command, Endpoint, is_empty, get_v4_exec_packet_size, get_greet_packet_size, encode_greet_packet,
  get_login_packet_size, encode_login_packet, get_v5_exec_packet_size, encode_v5_exec_packet,
}

-- the errors that the operations name, those of `enum class error` of
-- include/asioext/socks/error.hpp among them, and those of the transport
pub data ErrorCode : Type 0 where
  success : ErrorCode
  invalid_argument no_permission network_unreachable host_unreachable : ErrorCode
  connection_refused timed_out address_family_not_supported : ErrorCode
  invalid_version no_acceptable_auth_method invalid_auth_version login_failed : ErrorCode
  command_not_supported identd_not_reachable generic : ErrorCode
  transport : ℕ → ErrorCode

abbrev is_error : ErrorCode → Bool
is_error success = false
is_error _ = true

-- `ec` and `size` of a call, and the bytes that a read has stored
pub record Event : Type 0 where
  pub ec : ErrorCode
  pub size : ℕ
  pub filled : Bytes

-- what a call starts, or completes with
pub data Action (R : Type 0) : Type 0 where
  post : Action R
  write : Bytes → Action R
  read : ℕ → Action R
  complete : R → Action R

pub data Point : Type 0 where
  at_start posted written reply_read address_read : Point

-- The constructors: a packet of size `size` is encoded into the prepared `region` and committed. With
-- size 0 nothing is written.
abbrev pub commit_packet : ℕ → Bytes → Bytes → Bytes → Bytes
commit_packet size packet region buffer =
    if size == 0 then buffer else buffer ++ take size (packet ++ drop (length packet) region)

-- `v4_exec_op`; the call has no `user_id`, and so it is the encoder for version 5
abbrev pub v4_exec_packet : Command → Endpoint → Bytes → ℕ → Bytes
v4_exec_packet cmd remote remote_host port = encode_v5_exec_packet cmd remote remote_host port

unfoldable pub v4_exec_op : Command → Endpoint → Bytes → ℕ → Bytes → Bytes → Bytes → Bytes
v4_exec_op cmd remote remote_host port user_id region buffer =
    commit_packet (get_v4_exec_packet_size remote remote_host user_id)
      (v4_exec_packet cmd remote remote_host port) region buffer

unfoldable pub v5_greet_op : Bytes → Bytes → Bytes → Bytes
v5_greet_op auth_methods region buffer =
    commit_packet (get_greet_packet_size auth_methods) (encode_greet_packet auth_methods) region
      buffer

unfoldable pub v5_login_op : Bytes → Bytes → Bytes → Bytes → Bytes
v5_login_op username password region buffer =
    commit_packet (get_login_packet_size username password) (encode_login_packet username password)
      region buffer

unfoldable pub v5_exec_op : Command → Endpoint → Bytes → ℕ → Bytes → Bytes → Bytes
v5_exec_op cmd remote remote_host port region buffer =
    commit_packet (get_v5_exec_packet_size remote remote_host)
      (encode_v5_exec_packet cmd remote remote_host port) region buffer

-- The members of an operation; the last two are those of `v5_exec_op` alone.
pub record Op : Type 0 where
  pub point : Point
  pub buffer : Bytes
  pub address_type : ℕ
  pub first_address_byte : ℕ

abbrev pub begin : Bytes → Op
begin buffer = record {
  point = at_start;
  buffer = buffer;
  address_type = 0;
  first_address_byte = 0;
}

module _ {R : Type 0} (fail : ErrorCode → R) (n : ℕ) where
  -- The four operations have these parts in common: up to the read of the reply's first `n` bytes.
  abbrev request_part : (Op → Event → Op × Action R) → Op → Event → Op × Action R
  request_part reply op e = elim op.point [
    | at_start ↦
        (if is_empty op.buffer
          then (record op { point = posted }, post)
          else (record op { point = written }, write op.buffer))
    | posted ↦ (op, complete (fail invalid_argument))
    | written ↦ (record op { point = reply_read; buffer = drop e.size op.buffer }, read n)
    | _ ↦ reply op e
  ]

  -- `operator()`, with `if (ec)` first
  abbrev pub resume : (Op → Event → Op × Action R) → Op → Event → Op × Action R
  resume reply op e = if is_error e.ec then (op, complete (fail e.ec)) else request_part reply op e

  -- the reply is committed, its first two bytes are read, and it is consumed
  abbrev pub short_reply : (ErrorCode → ℕ → ℕ → R) → Op → Event → Op × Action R
  short_reply answer op e =
      let bytes = op.buffer ++ take n e.filled in
      (
        record op { buffer = drop n bytes },
        complete (answer e.ec (get_or bytes 0 0) (get_or bytes 1 0)),
      )

abbrev pub only_error : ErrorCode → ErrorCode
only_error ec = ec

abbrev pub v4_answer : ErrorCode → ℕ → ℕ → ErrorCode
v4_answer ec null_byte status_code =
    if not (null_byte == 0)
    then invalid_version
    else if status_code == 90
    then ec
    else if status_code == 91
    then generic
    else if status_code == 92
    then identd_not_reachable
    else if status_code == 93
    then login_failed
    else ec

unfoldable pub v4_exec_resume : Op → Event → Op × Action ErrorCode
v4_exec_resume = resume only_error 8 (short_reply only_error 8 v4_answer)

-- `auth_method::no_acceptable`
abbrev pub no_acceptable : ℕ
no_acceptable = 255

abbrev pub no_method : ErrorCode → ErrorCode × ℕ
no_method ec = (ec, no_acceptable)

abbrev pub greet_answer : ErrorCode → ℕ → ℕ → ErrorCode × ℕ
greet_answer ec version chosen_method =
    if not (version == 5)
    then (invalid_version, no_acceptable)
    else if chosen_method == no_acceptable
    then (no_acceptable_auth_method, no_acceptable)
    else (ec, chosen_method)

unfoldable pub v5_greet_resume : Op → Event → Op × Action (ErrorCode × ℕ)
v5_greet_resume = resume no_method 2 (short_reply no_method 2 greet_answer)

abbrev pub login_answer : ErrorCode → ℕ → ℕ → ErrorCode
login_answer ec version status_code =
    if not (version == 1)
    then invalid_auth_version
    else if not (status_code == 0)
    then login_failed
    else ec

unfoldable pub v5_login_resume : Op → Event → Op × Action ErrorCode
v5_login_resume = resume only_error 2 (short_reply only_error 2 login_answer)

-- the `switch` over a status other than 0; another status leaves `ec`
abbrev pub status_error : ErrorCode → ℕ → ErrorCode
status_error ec status_code =
    if status_code == 2
    then no_permission
    else if status_code == 3
    then network_unreachable
    else if status_code == 4
    then host_unreachable
    else if status_code == 5
    then connection_refused
    else if status_code == 6
    then timed_out
    else if status_code == 7
    then command_not_supported
    else if status_code == 8
    then address_family_not_supported
    else ec

-- the `switch` over the address type; another type leaves `size`
abbrev pub address_size : ℕ → ℕ → ℕ → ℕ
address_size kind first_byte size =
    if kind == 1 then 3 else if kind == 3 then first_byte else if kind == 4 then 15 else size

-- from `buffer_.commit(5)` to the second read
abbrev exec_header : Op → Event → Op × Action ErrorCode
exec_header op e =
    let bytes = op.buffer ++ take 5 e.filled in
    let kind = get_or bytes 3 0 in
    let first_byte = get_or bytes 4 0 in
    let status = get_or bytes 1 0 in
    let next = record op {
      point = address_read;
      buffer = drop 5 bytes;
      address_type = kind;
      first_address_byte = first_byte;
    } in
    if not (get_or bytes 0 0 == 5)
    then (next, complete invalid_version)
    else if not (status == 0)
    then (next, complete (status_error e.ec status))
    else (next, read (address_size kind first_byte e.size + 2))

-- `size` is the outcome of the second read
abbrev exec_address : Op → Event → Op × Action ErrorCode
exec_address op e =
    (record op { buffer = drop e.size (op.buffer ++ take e.size e.filled) }, complete e.ec)

abbrev exec_reply : Op → Event → Op × Action ErrorCode
exec_reply op e = elim op.point [ address_read ↦ exec_address op e | _ ↦ exec_header op e ]

unfoldable pub v5_exec_resume : Op → Event → Op × Action ErrorCode
v5_exec_resume = resume only_error 5 exec_reply
