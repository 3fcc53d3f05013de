-- ===== src/Agent/RingBuffer.antt =====
-- backend/agent/src/ring_buffer.rs. The front of the deque is the head of the list.
pub mod Bounds
pub mod Replay
use ktty.Base.{
  ℕ, ◌+◌, Text, Bytes, length, Bool, List, [], ◌∷◌, ◌++◌, Option, none, some, head?, retain, ltb,
  if◌then◌else◌, word_add, word_sub,
}
use ktty.Common.Constants.{ring_buffer_size}
use mathlib.Core.Option

pub record Packet : Type 0 where
  pub seq : ℕ
  pub msg_type : Text
  pub payload : Bytes

unfoldable pub byte_size : Packet → ℕ
byte_size p = word_add (word_add (length p.msg_type) (length p.payload)) 16

pub record RingBuffer : Type 0 where
  pub buf : List Packet
  pub max_bytes : ℕ
  pub current_bytes : ℕ

unfoldable pub new : RingBuffer
new = record { buf = []; max_bytes = ring_buffer_size; current_bytes = 0 }

-- The `while` loop of `push`; every round pops the front, so it recurs on the deque.
unfoldable pub evict : ℕ → List Packet → ℕ → List Packet × ℕ
evict max_bytes [] current_bytes = ([], current_bytes)
evict max_bytes (old ∷ rest) current_bytes =
    let more = evict max_bytes rest (word_sub current_bytes (byte_size old)) in
    if ltb max_bytes current_bytes then more else (old ∷ rest, current_bytes)

unfoldable pub push : RingBuffer → Packet → RingBuffer
push r packet =
    let (buf, current_bytes) =
      evict r.max_bytes (r.buf ++ packet ∷ []) (word_add r.current_bytes (byte_size packet)) in
    record r { buf = buf; current_bytes = current_bytes }

unfoldable pub oldest_seq : RingBuffer → Option ℕ
oldest_seq r = Option.map (λ p. p.seq) (head? r.buf)

unfoldable pub gap : ℕ → Option ℕ → Option (ℕ × ℕ)
gap last_seq none = none
gap last_seq (some oldest) =
    if ltb (word_add last_seq 1) oldest then some (word_add last_seq 1, word_sub oldest 1) else none

-- The packets after `last_seq`, and the range of those that are gone.
unfoldable pub packets_since : RingBuffer → ℕ → List Packet × Option (ℕ × ℕ)
unfolding gap oldest_seq
packets_since r last_seq = (retain (λ p. ltb last_seq p.seq) r.buf, gap last_seq (oldest_seq r))

unfoldable pub clear : RingBuffer → RingBuffer
clear r = record r { buf = []; current_bytes = 0 }
