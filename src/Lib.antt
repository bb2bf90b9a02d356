-- ===== src/Lib.antt =====
-- Asio Extensions: buffers, URLs, the SOCKS client and files, after the sources under
-- include/asioext.
--
-- LinearBuffer models `basic_linear_buffer` (linear_buffer.hpp, impl/linear_buffer.hpp) as a record
-- of the block, the capacity, the size and the maximum. A method gives the new object or the
-- exception that it throws. The allocator is a parameter with the one law that a block has the
-- length asked for. `std::size_t` has 64 bits and wraps. LinearBuffer/Growth has the invariant and
-- `append`, Resize the other methods that may move to a larger block, Edit `erase` and `insert`,
-- Move copies and moves.
--
-- DynamicBuffer models `dynamic_linear_buffer` over such a buffer: Queue has the first form of
-- Asio's concept (`prepare`, `commit`, `consume`), Window the second (`data(pos, n)`, `grow`,
-- `shrink`).
--
-- Url models detail/url_parser.hpp, detail/impl/url_parser.cpp and impl/url_view.cpp. Chars has the
-- character classes, State the state machine, Parser the loop of `parse_url` over offsets into the
-- text, Authority the functions of `parse_authority`, and View `url_view`. Walk is a one-pass
-- description of the loop. The loop takes two rounds of fuel for each byte and two more, since
-- a byte is read at most twice. In a `parsed_url` a view is the bytes that it spans.
--
-- Socks models socks/detail/impl/protocol.cpp (Protocol) and the coroutines of
-- socks/detail/client.hpp (Client) as functions from the outcome of the operation that they wait for
-- to the next one. Packets and PacketsV4 hold decoders after RFC 1928, RFC 1929 and SOCKS 4A;
-- Exchange runs a coroutine against a server's bytes, and Sessions and ExecSessions say what whole
-- exchanges do. A coroutine makes four calls at most, and the fuel of a run is that number. What the
-- encoders ask of an Asio endpoint is a record that they are given.
--
-- Posix models the transfers, `open`, `parse_open_flags`, `duplicate`, `size` and `seek` of
-- detail/impl/posix_file_ops.cpp and
-- `is_valid` of impl/open_flags.cpp. The system is the row of its answers, one for each call; a
-- function that is still repeating where they end gives no result.
--
-- Buffered models the writing half of experimental/buffered_stream.hpp over LinearBuffer and
-- DynamicBuffer; a write of Asio is what it answers and how many bytes were taken, and one that is
-- asynchronous takes them piece by piece between its start and its end. Order is about the order of
-- the bytes, Drain about flushes that write all, Stuck about pending ones.
--
-- Handles models `unique_file_handle` (impl/unique_file_handle.cpp) with the calls of
-- impl/file_handle_posix.cpp that it makes, as objects in a store. Files are numbered by their
-- opening and the calls of `close` on each are counted. Owned is about double closes, Leak about
-- files that are lost.
--
-- Times models detail/impl/chrono.hpp over signed integers, at nanoseconds in 64 bits and seconds of
-- any signed type: Cast the conversions, Pair `decompose_time` and `compose_time`, File the times of a
-- file in detail/impl/posix_file_ops.cpp.
--
-- ReadFile models `read_file` of impl/read_file.hpp for a `basic_linear_buffer`.
--
-- FileHandle models `file_handle` (impl/file_handle_posix.cpp, impl/file_handle_posix.hpp and
-- impl/file_handle.cpp) over Posix, FileAttrs and Times.
--
-- ByName models reading and writing a file by its name (impl/read_file.hpp, impl/write_file.hpp and
-- impl/open.cpp) over Posix, ReadFile and the owner of the descriptor.
--
-- ThreadGroup models detail/thread_group.hpp; the fuel of the loop of `join` is the number of the
-- threads that were started.
--
-- Token models impl/cancellation_token.cpp over control blocks with counts of their owners. Owners
-- and Trace follow a control block through the calls, Life the tokens; Gone is about places without a
-- source.
--
-- Service models impl/thread_pool_file_service.cpp and the operations of
-- impl/thread_pool_file_service.hpp on top of Token: the implementations are numbered, and their
-- fields are functions of the number. Links has the theory of the lists linked in both directions,
-- Lists and Members the lists of the services, Shutdown the loop of `shutdown_service`, whose
-- fuel is the length of the list, and Aborted the operations that wait for a thread.
--
-- FileAttrs models the attributes and permissions of detail/impl/posix_file_ops.cpp on systems with
-- file flags: a row of a table for each `#ifdef` that holds. Rows follows the bits of a
-- translation, After what is read behind a change. Posix/Args has `open_args` for those systems.
--
-- Windows models detail/impl/win_file_ops.cpp; what a call of the Windows API answers is an argument.
-- Attributes is about attributes and permissions, Filetime about times and offsets in two halves,
-- Pointer about the setter `size` that moves the file pointer, whose calls are a record with the
-- laws of their documentation, and OpenArgs about `parse_open_flags` and `open_args`. Path models
-- detail/impl/win_path.cpp, and ReadSome the transfers of impl/file_handle_win.hpp with
-- detail/buffer.hpp.
--
-- UniqueHandler models unique_handler.hpp as objects in a store, with counts for each handler. Owners
-- shows that they are owners of files as in Handles, Once how a handler ends.
--
-- Composed models `composed_operation` (compose.hpp), `work_tuple` (work.hpp) and `bound_handler`
-- (detail/bound_handler.hpp) for any implementation. Asio's guards are a record of operations,
-- and Work has the record of their laws and what a tuple of them holds. Run is about whole operations.
-- Connect models impl/connect.cpp (Attempts), and `connect_op` of connect.hpp as what it does when
-- Asio's own composed operation invokes it.
--
-- Prelude has what the parts share: lists over the native numbers, signed integers, Boolean tests,
-- the bits of numbers, and blocks of memory that are written and moved. Tests has runs on concrete inputs.
--
-- Not modelled: the calls that `basic_file` passes on, the scheduling of the thread pool, the reading
-- half of the buffered stream, and the types that adapt to Asio. `async_compose` is the one for Asio
-- before 1.24, since later ones use Asio's. Memory that a caller gives to `append` and `insert` is taken
-- not to lie in the buffer's own block. A `prepare` that throws from a SOCKS operation is not modelled,
-- nor are handlers whose moves throw.
pub mod Prelude
pub mod LinearBuffer
pub mod DynamicBuffer
pub mod Url
pub mod Socks
pub mod Posix
pub mod Buffered
pub mod Handles
pub mod ReadFile
pub mod Service
pub mod Times
pub mod Token
pub mod UniqueHandler
pub mod Composed
pub mod Connect
pub mod FileAttrs
pub mod Windows
pub mod ThreadGroup
pub mod ByName
pub mod FileHandle
pub mod Tests
