-- ===== src/Socks/Exchange.antt =====
-- Runs of the client operations against a server.
use asio_extensions.Prelude.{
  ℕ, zero, suc, ◌≤◌, ◌≡◌, ◌≢◌, ◌⊎◌, inl, inr, refl, ap, ◌∙◌, true, false, [], ◌∷◌, ◌++◌, append-nil,
  Option, none, some, Bytes, length, take, drop, ◌==◌, leb, if◌then◌else◌, Bool-cases, drop_all,
  take-append_right, arith,
}
use asio_extensions.Socks.Client.{
  ErrorCode, success, transport, Event, Action, post, write, read, complete, Op, begin, resume,
  short_reply, commit_packet,
}

-- how a run ends: the result, the bytes that the server was sent, and those of its stream that are
-- still unread
pub record End (R : Type 0) : Type 0 where
  pub result : R
  pub sent : Bytes
  pub unread : Bytes

abbrev pub done : ℕ → Bytes → Event
done size filled = record { ec = success; size = size; filled = filled }

-- `asio::error::eof`
abbrev pub eof : ErrorCode
eof = transport 2

module _ {R : Type 0} (step : Op → Event → Op × Action R) where
  -- The server's stream answers the reads: a read of `n` bytes ends with the first `n` of them, and
  -- with the end of the stream where there are fewer. Writes are complete. The fuel is the number of
  -- calls; an operation makes four at most.
  abbrev pub run : ℕ → Op → Event → Bytes → Bytes → Option (End R)
  run zero op e sent stream = none
  run (suc fuel) op e sent stream = elim (step op e).1 [
    | post ↦ run fuel (step op e).0 (done 0 []) sent stream
    | write packet ↦ run fuel (step op e).0 (done (length packet) []) (sent ++ packet) stream
    | read n ↦
        (if leb n (length stream)
          then run fuel (step op e).0 (done n (take n stream)) sent (drop n stream)
          else run fuel (step op e).0 (record { ec = eof; size = length stream; filled = stream })
              sent [])
    | complete r ↦ some (record { result = r; sent = sent; unread = stream })
  ]

  pub run-read :
      (fuel : ℕ) (op next : Op) (e : Event) (n : ℕ) (sent stream : Bytes)
      → step op e ≡ (next, read n)
      → n ≤ length stream
      → run (suc fuel) op e sent stream
        ≡ run fuel next (done n (take n stream)) sent (drop n stream)
  run-read fuel op next e n sent stream s h =
      let enough : leb n (length stream) ≡ true = ground arith in
      rw (s, enough, run)
        (ap (λ (o : Op × Action R). run fuel o.0 (done n (take n stream)) sent (drop n stream)) s)

  pub run-complete :
      (fuel : ℕ) (op next : Op) (e : Event) (r : R) (sent stream : Bytes)
      → step op e ≡ (next, complete r)
      → run (suc fuel) op e sent stream ≡ some (record { result = r; sent = sent; unread = stream })
  run-complete fuel op next e r sent stream s = rw (s, run) refl

-- a run of an operation from its first call
abbrev pub run_op : {R : Type 0} → (Op → Event → Op × Action R) → Bytes → Bytes → Option (End R)
run_op step buffer stream = run step 4 (begin buffer) (done 0 []) [] stream

-- a reply of two bytes, as a server sends it: too short, or its bytes and what is behind them
abbrev pub two_byte_reply :
    {R : Type 0} → (ErrorCode → R) → (ErrorCode → ℕ → ℕ → R) → Bytes → Bytes → End R
two_byte_reply fail answer sent (a ∷ b ∷ rest) = record {
  result = answer success a b;
  sent = sent;
  unread = rest;
}
two_byte_reply fail answer sent _ = record { result = fail eof; sent = sent; unread = [] }

pub drop_self : (v : Bytes) → drop (length v) v ≡ []
drop_self v = drop_all (length v) v (omega arith)

-- An operation with a reply of two bytes sends its packet and takes two bytes from the stream.
pub two_byte_run :
    {R : Type 0} (fail : ErrorCode → R) (answer : ErrorCode → ℕ → ℕ → R) (packet stream : Bytes)
    → packet ≢ []
    → run_op (resume fail 2 (short_reply fail 2 answer)) packet stream
      ≡ some (two_byte_reply fail answer packet stream)
two_byte_run fail answer [] stream h = absurd (h refl)
two_byte_run fail answer (p ∷ ps) [] h = refl
two_byte_run fail answer (p ∷ ps) (_ ∷ []) h = refl
two_byte_run fail answer (p ∷ ps) (a ∷ b ∷ rest) h =
    let enough : leb 2 (length (a ∷ b ∷ rest)) ≡ true = ground arith in
    rw (enough, drop_self ps) refl

-- the packet that an operation commits to an empty buffer
pub commit_packet_empty :
    (size : ℕ) (packet region : Bytes)
    → (size ≢ 0 → length packet ≡ size)
    → (((size == 0) ≡ true) × (commit_packet size packet region [] ≡ []))
      ⊎ (((size == 0) ≡ false) × (commit_packet size packet region [] ≡ packet))
commit_packet_empty size packet region h = elim (Bool-cases (size == 0)) [
  | inl empty ↦ inl (empty, rw empty refl)
  | inr some_size ↦ inr (
    some_size,
    rw some_size (
        take-append_right size 0 packet (drop (length packet) region)
          (omega (arith, h (ground arith)))
        ∙ append-nil packet),
  )
]
