-- ===== src/Socks/ExecSessions.antt =====
-- What `v5_exec_op` does over a whole exchange, and the packet of `v4_exec_op`.
use asio_extensions.Prelude.{
  ℕ, zero, suc, ◌+◌, ◌<◌, ◌≡◌, ◌≢◌, ◌⊎◌, inl, inr, refl, ap, ◌∙◌, true, [], ◌∷◌, ◌++◌, some, Bytes,
  length, get_or, ◌==◌, ==_iff, leb, if◌then◌else◌, Bool-cases, length-append, drop-append_right,
  arith,
}
use asio_extensions.Socks.Protocol.{
  Command, Endpoint, get_v5_exec_packet_size, encode_v5_exec_packet, get_v4_exec_packet_size,
}
use asio_extensions.Socks.Packets.{IsEndpoint, v5_exec_round_trip, name_size}
use asio_extensions.Socks.Client.{
  ErrorCode, success, no_permission, network_unreachable, host_unreachable, connection_refused,
  timed_out, command_not_supported, address_family_not_supported, invalid_version, written,
  reply_read, address_read, begin, v5_exec_op, v5_exec_resume, v4_exec_packet, status_error,
  v4_exec_op, v4_exec_resume, v4_answer, address_size,
}
use asio_extensions.Socks.Exchange.{
  run-read, run-complete, done, run_op, commit_packet_empty, drop_self,
}

pub data IsAddress : ℕ → Bytes → Type 0 where
  v4_address : (v : Bytes) → length v ≡ 4 → IsAddress 1 v
  name_address : (n : ℕ) (v : Bytes) → length v ≡ n → IsAddress 3 (n ∷ v)
  v6_address : (v : Bytes) → length v ≡ 16 → IsAddress 4 v

-- The first byte of an address says, with its type, how many bytes are behind it.
address_split :
    (kind : ℕ) (v : Bytes)
    → IsAddress kind v
    → (b : ℕ) × (bs : Bytes) × (v ≡ b ∷ bs) × (length bs ≡ address_size kind b 5)
address_split _ _ (v4_address [] h) = absurd (omega arith)
address_split _ _ (v4_address (b ∷ bs) h) = (b, bs, refl, omega arith)
address_split _ _ (v6_address [] h) = absurd (omega arith)
address_split _ _ (v6_address (b ∷ bs) h) = (b, bs, refl, omega arith)
address_split _ _ (name_address n v h) = (n, v, refl, h)

exec_accepted :
    (packet : Bytes) (r kind b : ℕ) (bs : Bytes) (hi lo : ℕ) (rest : Bytes)
    → packet ≢ []
    → length bs ≡ address_size kind b 5
    → run_op v5_exec_resume packet (5 ∷ 0 ∷ r ∷ kind ∷ b ∷ (bs ++ (hi ∷ lo ∷ rest)))
      ≡ some (record { result = success; sent = packet; unread = rest })
unfolding v5_exec_resume
exec_accepted [] r kind b bs hi lo rest h l = absurd (h refl)
exec_accepted (p ∷ ps) r kind b bs hi lo rest h l =
    let tail = bs ++ (hi ∷ lo ∷ rest) in
    let header = 5 ∷ 0 ∷ r ∷ kind ∷ b ∷ [] in
    let n = address_size kind b 5 + 2 in
    let opened = begin (p ∷ ps) in
    let asked = record opened { point = reply_read; buffer = [] } in
    let known = record asked {
      point = address_read;
      address_type = kind;
      first_address_byte = b;
    } in
    let size : length tail ≡ length bs + suc (suc (length rest)) =
      length-append bs (hi ∷ lo ∷ rest) in
    run-read v5_exec_resume 2 (record opened { point = written }) asked (done (suc (length ps)) [])
      5 (p ∷ ps) (header ++ tail) (rw (drop_self ps) refl) (omega arith)
    ∙ run-read v5_exec_resume 1 asked known (done 5 header) n (p ∷ ps) tail refl
        (omega (arith, l, size))
    ∙ ap (λ (v : Bytes). some (record { result = success; sent = p ∷ ps; unread = v }))
        (drop-append_right n 2 bs (hi ∷ lo ∷ rest) (omega (arith, l)))

exec_refused :
    (packet : Bytes) (v status r kind b : ℕ) (rest : Bytes)
    → packet ≢ []
    → (v ≢ 5) ⊎ (status ≢ 0)
    → run_op v5_exec_resume packet (v ∷ status ∷ r ∷ kind ∷ b ∷ rest)
      ≡ some (record {
        result = if v == 5 then status_error success status else invalid_version;
        sent = packet;
        unread = rest;
      })
unfolding v5_exec_resume
exec_refused [] v status r kind b rest h bad = absurd (h refl)
exec_refused (p ∷ ps) v status r kind b rest h bad =
    let opened = begin (p ∷ ps) in
    let asked = record opened { point = reply_read; buffer = [] } in
    let header = v ∷ status ∷ r ∷ kind ∷ b ∷ [] in
    run-read v5_exec_resume 2 (record opened { point = written }) asked (done (suc (length ps)) [])
      5 (p ∷ ps) (header ++ rest) (rw (drop_self ps) refl) (omega arith)
    ∙ run-complete v5_exec_resume 1 asked
        (record asked { point = address_read; address_type = kind; first_address_byte = b })
        (done 5 header) _ (p ∷ ps) rest
        (elim (Bool-cases (v == 5)) [
          | inr other ↦ rw other refl
          | inl five ↦ elim (Bool-cases (status == 0)) [
            | inr some_status ↦ rw (five, some_status) refl
            | inl zero_status ↦ absurd (ground arith)
          ]
        ])

exec_nonempty :
    (cmd : Command) (remote : Endpoint) (host : Bytes) (port : ℕ)
    → encode_v5_exec_packet cmd remote host port ≢ []
unfolding encode_v5_exec_packet
exec_nonempty cmd remote host port e = cc

exec_committed :
    (cmd : Command) (remote : Endpoint) (host : Bytes) (port : ℕ) (region : Bytes)
    → IsEndpoint remote
    → port < 65536
    → get_v5_exec_packet_size remote host ≢ 0
    → v5_exec_op cmd remote host port region [] ≡ encode_v5_exec_packet cmd remote host port
unfolding v5_exec_op
exec_committed cmd remote host port region v b h =
    elim (commit_packet_empty (get_v5_exec_packet_size remote host)
      (encode_v5_exec_packet cmd remote host port) region
      (λ k. (v5_exec_round_trip cmd remote host port v b k).0)) [
        | inl (empty, e) ↦ absurd (h (ground arith))
        | inr (other, e) ↦ e
      ]

-- Over an empty buffer and with a request whose size is not 0, for an endpoint with addresses of 4
-- and 16 bytes and a port below 65536: where the server accepts, `v5_exec_op` sends exactly the
-- request packet and takes exactly the reply from the stream, with the address and the port
-- whatever kind of address it holds. It completes with success, and no byte behind the reply is
-- lost.
pub exec_run_accepted :
    (cmd : Command) (remote : Endpoint) (host : Bytes) (port : ℕ) (region : Bytes) (r kind : ℕ)
    (address : Bytes) (hi lo : ℕ) (rest : Bytes)
    → IsEndpoint remote
    → port < 65536
    → get_v5_exec_packet_size remote host ≢ 0
    → IsAddress kind address
    → run_op v5_exec_resume
        (v5_exec_op cmd remote host port region [])
        (5 ∷ 0 ∷ r ∷ kind ∷ (address ++ (hi ∷ lo ∷ rest)))
      ≡ some (record {
        result = success;
        sent = encode_v5_exec_packet cmd remote host port;
        unread = rest;
      })
exec_run_accepted cmd remote host port region r kind address hi lo rest v p h is =
    let (b, bs, e, l) = address_split kind address is in
    let packet = encode_v5_exec_packet cmd remote host port in
    ap (λ (w : Bytes). run_op v5_exec_resume w (5 ∷ 0 ∷ r ∷ kind ∷ (address ++ (hi ∷ lo ∷ rest))))
      (exec_committed cmd remote host port region v p h)
    ∙ ap (λ (w : Bytes). run_op v5_exec_resume packet (5 ∷ 0 ∷ r ∷ kind ∷ (w ++ (hi ∷ lo ∷ rest))))
        e
    ∙ exec_accepted packet r kind b bs hi lo rest (exec_nonempty cmd remote host port) l

exec_run_status :
    (cmd : Command) (remote : Endpoint) (host : Bytes) (port : ℕ) (region : Bytes)
    (v status r kind b : ℕ) (rest : Bytes)
    → IsEndpoint remote
    → port < 65536
    → get_v5_exec_packet_size remote host ≢ 0
    → (v ≢ 5) ⊎ (status ≢ 0)
    → run_op v5_exec_resume
        (v5_exec_op cmd remote host port region [])
        (v ∷ status ∷ r ∷ kind ∷ b ∷ rest)
      ≡ some (record {
        result = if v == 5 then status_error success status else invalid_version;
        sent = encode_v5_exec_packet cmd remote host port;
        unread = rest;
      })
exec_run_status cmd remote host port region v status r kind b rest e p h bad =
    ap (λ (w : Bytes). run_op v5_exec_resume w (v ∷ status ∷ r ∷ kind ∷ b ∷ rest))
      (exec_committed cmd remote host port region e p h)
    ∙ exec_refused (encode_v5_exec_packet cmd remote host port) v status r kind b rest
        (exec_nonempty cmd remote host port) bad

-- How a status other than 0 is reported: as the errors that RFC 1928 names, but for the general
-- failure and for the numbers that it leaves unassigned, which are reported as success.
pub data Reported : ℕ → ErrorCode → Type 0 where
  not_allowed : Reported 2 no_permission
  no_network : Reported 3 network_unreachable
  no_host : Reported 4 host_unreachable
  refused : Reported 5 connection_refused
  expired : Reported 6 timed_out
  no_command : Reported 7 command_not_supported
  no_address : Reported 8 address_family_not_supported
  lost : (status : ℕ) → (status ≡ 1) ⊎ (8 < status) → Reported status success

reported : (status : ℕ) → status ≢ 0 → Reported status (status_error success status)
reported zero h = absurd (h refl)
reported (suc zero) h = lost 1 (inl refl)
reported (suc (suc zero)) h = not_allowed
reported (suc (suc (suc zero))) h = no_network
reported (suc (suc (suc (suc zero)))) h = no_host
reported (suc (suc (suc (suc (suc zero))))) h = refused
reported (suc (suc (suc (suc (suc (suc zero)))))) h = expired
reported (suc (suc (suc (suc (suc (suc (suc zero))))))) h = no_command
reported (suc (suc (suc (suc (suc (suc (suc (suc zero)))))))) h = no_address
reported (suc (suc (suc (suc (suc (suc (suc (suc (suc n))))))))) h =
    let large : 8 < suc (suc (suc (suc (suc (suc (suc (suc (suc n)))))))) = omega arith in
    let e : status_error success (suc (suc (suc (suc (suc (suc (suc (suc (suc n))))))))) ≡ success =
      ground arith in
    rw e (lost _ (inr large))

-- Over an empty buffer and with a request whose size is not 0, for an endpoint with addresses of 4
-- and 16 bytes and a port below 65536: a reply of another version, or with a status other than 0,
-- ends `v5_exec_op` behind its first five bytes, which are all that it takes from the stream. The
-- result is `invalid_version`, or the error for the status; but the status 1 and those above 8 end
-- in success.
pub exec_run_refused :
    (cmd : Command) (remote : Endpoint) (host : Bytes) (port : ℕ) (region : Bytes)
    (v status r kind b : ℕ) (rest : Bytes)
    → IsEndpoint remote
    → port < 65536
    → get_v5_exec_packet_size remote host ≢ 0
    → (v ≢ 5) ⊎ (status ≢ 0)
    → (ec : ErrorCode) × (((v ≢ 5) × (ec ≡ invalid_version)) ⊎ ((v ≡ 5) × Reported status ec))
      × (run_op v5_exec_resume
            (v5_exec_op cmd remote host port region [])
            (v ∷ status ∷ r ∷ kind ∷ b ∷ rest)
          ≡ some (record {
            result = ec;
            sent = encode_v5_exec_packet cmd remote host port;
            unread = rest;
          }))
exec_run_refused cmd remote host port region v status r kind b rest e p h bad =
    let ends = exec_run_status cmd remote host port region v status r kind b rest e p h bad in
    elim (Bool-cases (v == 5)) [
      | inr other ↦ (invalid_version, inl (λ is. ground arith, refl), rw other at ends)
      | inl five ↦
          let bad_status : status ≢ 0 = λ is. ground arith in
          (
            status_error success status,
            inr ((==_iff v 5).0 five, reported status bad_status),
            rw five at ends,
          )
    ]

-- Over an empty buffer and with a request whose size is not 0, for an endpoint with addresses of 4
-- and 16 bytes and a port below 65536: a reply with status 1, the general failure of RFC 1928, or
-- with a status above 8 is reported as success.
pub exec_run_failure_lost :
    (cmd : Command) (remote : Endpoint) (host : Bytes) (port : ℕ) (region : Bytes)
    (status r kind b : ℕ) (rest : Bytes)
    → IsEndpoint remote
    → port < 65536
    → get_v5_exec_packet_size remote host ≢ 0
    → (status ≡ 1) ⊎ (8 < status)
    → run_op v5_exec_resume
        (v5_exec_op cmd remote host port region [])
        (5 ∷ status ∷ r ∷ kind ∷ b ∷ rest)
      ≡ some (record {
        result = success;
        sent = encode_v5_exec_packet cmd remote host port;
        unread = rest;
      })
exec_run_failure_lost cmd remote host port region status r kind b rest e p h bad =
    let lost : status_error success status ≡ success = ground arith in
    exec_run_status cmd remote host port region 5 status r kind b rest e p h
      (inr (λ z. ground arith))
    ∙ ap
        (λ (c : ErrorCode).
          some (record {
            result = c;
            sent = encode_v5_exec_packet cmd remote host port;
            unread = rest;
          }))
        lost

-- `v4_exec_op` encodes its request for version 5. For an IPv4 endpoint, whose address has 4 bytes,
-- with no host name and no user, the packet in the empty buffer begins with 5, and what the
-- encoder writes is one byte longer than the region that was prepared for it.
pub v4_exec_op_packet :
    (cmd : Command) (remote : Endpoint) (port : ℕ) (region : Bytes)
    → IsEndpoint remote
    → remote.is_v4 ≡ true
    → (get_or (v4_exec_op cmd remote [] port [] region []) 0 0 ≡ 5)
      × (length (v4_exec_packet cmd remote [] port) ≡ get_v4_exec_packet_size remote [] [] + 1)
unfolding v4_exec_op get_v4_exec_packet_size encode_v5_exec_packet
v4_exec_op_packet cmd remote port region v e =
    rw e (refl, omega (arith, v.v4_length, name_size remote.v4_bytes remote.port))

-- The v4 operation sends what is in its buffer, takes exactly the eight bytes of the reply from the
-- stream, and the first two of them decide its result.
pub v4_exec_run :
    (packet : Bytes) (a b c d e f g h : ℕ) (rest : Bytes)
    → packet ≢ []
    → run_op v4_exec_resume packet (a ∷ b ∷ c ∷ d ∷ e ∷ f ∷ g ∷ h ∷ rest)
      ≡ some (record { result = v4_answer success a b; sent = packet; unread = rest })
unfolding v4_exec_resume
v4_exec_run [] a b c d e f g h rest n = absurd (n refl)
v4_exec_run (p ∷ ps) a b c d e f g h rest n =
    let enough : leb 8 (length (a ∷ b ∷ c ∷ d ∷ e ∷ f ∷ g ∷ h ∷ rest)) ≡ true = ground arith in
    rw (enough, drop_self ps) refl
