-- ===== src/Token.antt =====
-- Cancellation: include/asioext/impl/cancellation_token.cpp.
--
-- A `shared_ptr<void>` is the pointer it gives and the control block it owns, if any. Control blocks
-- are numbered in the order of their making, with the number of pointers that own each. A
-- `weak_ptr` is the block it watches. A source is a place in a world: a constructor ends the
-- object that was there before.
pub mod Owners
pub mod Trace
pub mod Life
pub mod Gone
use asio_extensions.Prelude.{
  ℕ, zero, suc, ◌+◌, ◌-◌, Bool, true, false, List, [], ◌∷◌, Option, none, some, ◌==◌, if◌then◌else◌,
  put,
}

pub record Shared : Type 0 where
  pub get : ℕ
  pub block : Option ℕ

pub record Blocks : Type 0 where
  pub next : ℕ
  pub uses : ℕ → ℕ

abbrev pub empty : Shared
empty = record { get = 0; block = none }

-- a null pointer with a deleter, in a block of its own
abbrev pub make_shared : Blocks → Shared × Blocks
make_shared h = (
  record { get = 0; block = some h.next },
  record { next = suc h.next; uses = put h.uses h.next 1 },
)

-- one owner less
abbrev pub one_less : Option ℕ → (ℕ → ℕ) → ℕ → ℕ
one_less none uses = uses
one_less (some b) uses = put uses b (uses b - 1)

abbrev pub release : Option ℕ → Blocks → Blocks
release o h = record { next = h.next; uses = one_less o h.uses }

abbrev pub construct : Blocks → Shared × Blocks
construct h = make_shared h

-- `ptr_.reset(null, deleter)`: the new block is made before the old one is let go
abbrev pub cancel : Shared → Blocks → Shared × Blocks
cancel s h = let (fresh, h') = make_shared h in (fresh, release s.block h')

abbrev pub destroy : Shared → Blocks → Shared × Blocks
destroy s h = (empty, release s.block h)

-- `if (!ptr_)` asks for the pointer, not for the block.
abbrev pub reset : Shared → Blocks → Shared × Blocks
reset s h = if s.get == 0 then cancel s h else (s, h)

-- the new source, and what is left in the other
abbrev pub move_construct : Shared → Shared × Shared
move_construct other = (other, empty)

-- the source, what is left in the other, and the blocks, where the two are not one object
abbrev pub move_assign : Shared → Shared → Blocks → Shared × Shared × Blocks
move_assign s other h = (other, empty, release s.block h)

abbrev pub token : Shared → Option ℕ
token s = s.block

-- `expired`
abbrev pub cancelled : Option ℕ → Blocks → Bool
cancelled none h = true
cancelled (some b) h = h.uses b == 0

pub record World : Type 0 where
  pub sources : ℕ → Shared
  pub blocks : Blocks

-- the calls on the sources at the given places, the one moved from last
pub data Call : Type 0 where
  constructs cancels destroys resets : ℕ → Call
  move_constructs move_assigns : ℕ → ℕ → Call

abbrev at_place : World → ℕ → Shared × Blocks → World
at_place w i (s, h) = record { sources = put w.sources i s; blocks = h }

-- A source is not constructed from itself, and an assignment to itself changes nothing.
pub call : Call → World → World
call (constructs i) w =
    let (s, h) = construct w.blocks in at_place w i (s, release (w.sources i).block h)
call (cancels i) w = at_place w i (cancel (w.sources i) w.blocks)
call (destroys i) w = at_place w i (destroy (w.sources i) w.blocks)
call (resets i) w = at_place w i (reset (w.sources i) w.blocks)
call (move_constructs i k) w =
    if i == k
    then w
    else let (s, left) = move_construct (w.sources k) in
      record {
        sources = put (put w.sources k left) i s;
        blocks = release (w.sources i).block w.blocks;
      }
call (move_assigns i k) w =
    if i == k
    then w
    else let (s, left, h) = move_assign (w.sources i) (w.sources k) w.blocks in
      record { sources = put (put w.sources k left) i s; blocks = h }

unfoldable pub run : List Call → World → World
unfolding call
run [] w = w
run (c ∷ cs) w = run cs (call c w)

-- before any source
abbrev pub fresh : World
fresh = record { sources = λ i. empty; blocks = record { next = 0; uses = λ b. 0 } }
