-- ===== src/Socks/Sessions.antt =====
-- What the SOCKS operations do over a whole exchange: the packet that the server is sent, the result,
-- and the bytes that are left in its stream.
use asio_extensions.Prelude.{
  ℕ, ◌+◌, ◌%◌, ◌<◌, ◌≤◌, ◌≡◌, ◌≢◌, ◌⊎◌, inl, inr, refl, ap, ◌∙◌, false, [], ◌∷◌, ◌++◌, some, Bytes,
  length, ◌==◌, ==_iff, ltb, if◌then◌else◌, Bool-cases, arith,
}
use asio_extensions.Socks.Protocol.{
  get_login_packet_size, encode_login_packet, get_greet_packet_size, encode_greet_packet,
}
use asio_extensions.Socks.Packets.{login_round_trip, greet_round_trip}
use asio_extensions.Socks.Client.{
  ErrorCode, success, invalid_argument, invalid_auth_version, login_failed, only_error,
  login_answer, greet_answer, no_method, v5_login_op, v5_login_resume, v5_greet_op, v5_greet_resume,
  no_acceptable,
}
use asio_extensions.Socks.Exchange.{
  eof, End, run_op, two_byte_reply, two_byte_run, commit_packet_empty,
}

-- a call that is refused: nothing is sent and nothing is read
abbrev pub refused : {R : Type 0} → R → Bytes → End R
refused r stream = record { result = r; sent = []; unread = stream }

abbrev pub login_end : Bytes → Bytes → Bytes → End ErrorCode
login_end user password stream =
    if get_login_packet_size user password == 0
    then refused invalid_argument stream
    else two_byte_reply only_error login_answer (encode_login_packet user password) stream

login_nonempty : (user password : Bytes) → encode_login_packet user password ≢ []
unfolding encode_login_packet
login_nonempty user password e = cc

login_end_lem :
    (user password region stream : Bytes)
    → run_op v5_login_resume (v5_login_op user password region []) stream
      ≡ some (login_end user password stream)
unfolding v5_login_resume v5_login_op
login_end_lem user password region stream =
    elim (commit_packet_empty (get_login_packet_size user password)
      (encode_login_packet user password) region (λ h. (login_round_trip user password h).0)) [
        | inl (empty, e) ↦ rw empty refl
        | inr (other, e) ↦
            ap (λ (v : Bytes). run_op v5_login_resume v stream) e
            ∙ rw other (
                two_byte_run only_error login_answer (encode_login_packet user password) stream
                  (login_nonempty user password))
      ]

-- What RFC 1929 makes of a server's stream: the result, and the bytes that are left in it.
pub data LoginReply : Bytes → ErrorCode → Bytes → Type 0 where
  accepted : (rest : Bytes) → LoginReply (1 ∷ 0 ∷ rest) success rest
  other_version :
      (version status : ℕ) (rest : Bytes)
      → version ≢ 1
      → LoginReply (version ∷ status ∷ rest) invalid_auth_version rest
  denied :
      (status : ℕ) (rest : Bytes) → status ≢ 0 → LoginReply (1 ∷ status ∷ rest) login_failed rest
  cut_off : (stream : Bytes) → length stream < 2 → LoginReply stream eof []

login_replies :
    (packet stream : Bytes)
    → (ec : ErrorCode) × (rest : Bytes) × LoginReply stream ec rest
      × (two_byte_reply only_error login_answer packet stream
          ≡ record { result = ec; sent = packet; unread = rest })
login_replies packet [] = (eof, [], cut_off [] (omega arith), refl)
login_replies packet (a ∷ []) = (eof, [], cut_off (a ∷ []) (omega arith), refl)
login_replies packet (a ∷ b ∷ rest) = elim (Bool-cases (a == 1)) [
  | inr other ↦
      (invalid_auth_version, rest, other_version a b rest (λ e. ground arith), rw other refl)
  | inl one ↦
      let a_is = (==_iff a 1).0 one in
      elim (Bool-cases (b == 0)) [
        | inr wrong ↦
            (login_failed, rest, rw a_is (denied b rest (λ e. ground arith)), rw (one, wrong) refl)
        | inl fine ↦
            let b_is = (==_iff b 0).0 fine in
            (success, rest, rw (a_is, b_is) (accepted rest), rw (one, fine) refl)
      ]
]

-- A login over an empty buffer, with a name and a password of at most 255 bytes, sends exactly the
-- packet of RFC 1929 and takes exactly the two bytes of the reply from the stream: it succeeds just
-- where these are 1 and 0, and otherwise fails with the error for a wrong version, for a refused
-- login or for a stream that ends too early. A longer name or password is refused as an invalid
-- argument, and nothing is sent or read.
pub login_run :
    (user password region stream : Bytes)
    → ((length user ≤ 255)
        × (length password ≤ 255)
        × ((ec : ErrorCode) × (rest : Bytes) × LoginReply stream ec rest
            × (run_op v5_login_resume (v5_login_op user password region []) stream
                ≡ some (record {
                  result = ec;
                  sent = 1 ∷ length user ∷ (user ++ (length password ∷ password));
                  unread = rest;
                }))))
      ⊎ (((255 < length user) ⊎ (255 < length password))
          × (run_op v5_login_resume (v5_login_op user password region []) stream
              ≡ some (record { result = invalid_argument; sent = []; unread = stream })))
unfolding get_login_packet_size encode_login_packet
login_run user password region stream =
    let whole_run = login_end_lem user password region stream in
    elim (Bool-cases (ltb 255 (length user))) [
      | inl long ↦ inr (inl (ground arith), whole_run ∙ rw long refl)
      | inr short ↦ elim (Bool-cases (ltb 255 (length password))) [
        | inl long ↦ inr (inr (ground arith), whole_run ∙ rw (short, long) refl)
        | inr short' ↦
            let some_size : (length user + length password + 3 == 0) ≡ false = ground arith in
            let user_byte : length user % 256 ≡ length user = ground arith in
            let password_byte : length password % 256 ≡ length password = ground arith in
            let packet = 1 ∷ length user ∷ (user ++ (length password ∷ password)) in
            let (ec, rest, is, e) = login_replies packet stream in
            inl (
              ground arith,
              ground arith,
              (
                ec,
                rest,
                is,
                whole_run ∙ rw (short, short', some_size, user_byte, password_byte) (ap some e),
              ),
            )
      ]
    ]

abbrev pub greet_end : Bytes → Bytes → End (ErrorCode × ℕ)
greet_end methods stream =
    if get_greet_packet_size methods == 0
    then refused (invalid_argument, no_acceptable) stream
    else two_byte_reply no_method greet_answer (encode_greet_packet methods) stream

greet_nonempty : (methods : Bytes) → encode_greet_packet methods ≢ []
unfolding encode_greet_packet
greet_nonempty methods e = cc

-- A greeting over an empty buffer sends exactly the greeting packet and takes exactly the two bytes
-- of the reply from the stream, and these decide the result and the method; more than 255 methods are
-- refused as an invalid argument, and nothing is sent or read.
pub greet_run :
    (methods region stream : Bytes)
    → run_op v5_greet_resume (v5_greet_op methods region []) stream
      ≡ some (greet_end methods stream)
unfolding v5_greet_resume v5_greet_op
greet_run methods region stream =
    elim (commit_packet_empty (get_greet_packet_size methods) (encode_greet_packet methods) region
      (λ h. (greet_round_trip methods h).0)) [
        | inl (empty, e) ↦ rw empty refl
        | inr (other, e) ↦
            ap (λ (v : Bytes). run_op v5_greet_resume v stream) e
            ∙ rw other (
                two_byte_run no_method greet_answer (encode_greet_packet methods) stream
                  (greet_nonempty methods))
      ]
