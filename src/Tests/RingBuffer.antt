-- ===== src/Tests/RingBuffer.antt =====
-- The ring buffer on a buffer of 60 bytes, whose packets take 22 bytes each.
use ktty.Base.{◌≤◌, ℕ, ◌≡◌, refl, lit, List, [], ◌∷◌, ◌++◌, none, some, arith, word_add, word_sub}
use ktty.Agent.RingBuffer.{
  Packet, RingBuffer, byte_size, evict, push, packets_since, oldest_seq, clear,
}
use ktty.Agent.RingBuffer.Bounds.{total, IsValid, push_longest}
use ktty.Agent.RingBuffer.Replay.{Counts, resumes_at, ReportsGap, packets_since_complete}

abbrev packet : ℕ → Packet
packet n = record { seq = n; msg_type = lit "pty"; payload = n ∷ n ∷ n ∷ [] }

abbrev small : RingBuffer
small = record { buf = packet 4 ∷ packet 5 ∷ []; max_bytes = 60; current_bytes = 44 }

size : (n : ℕ) → byte_size (packet n) ≡ 22
unfolding byte_size word_add
size n = refl

small-IsValid : IsValid small
unfolding byte_size word_add
small-IsValid = record { counted = refl; within = omega arith }

push_evicts :
    push small (packet 6)
    ≡ record { buf = packet 5 ∷ packet 6 ∷ []; max_bytes = 60; current_bytes = 44 }
unfolding push evict byte_size word_add word_sub
push_evicts = refl

replay_reports : packets_since small 1 ≡ (packet 4 ∷ packet 5 ∷ [], some (2, 3))
unfolding packets_since word_add word_sub
replay_reports = refl

replay_partial : packets_since small 4 ≡ (packet 5 ∷ [], none)
unfolding packets_since word_add word_sub
replay_partial = refl

cleared : oldest_seq (clear small) ≡ none
unfolding clear oldest_seq
cleared = refl

push_longest_example :
    (gone : List Packet) × (es : List Packet) × (small.buf ++ packet 6 ∷ []
      ≡ gone ++ (push small (packet 6)).buf)
    × (total (push small (packet 6)).buf ≤ 60)
    × ((push small (packet 6)).current_bytes ≡ total (push small (packet 6)).buf)
    × ((push small (packet 6)).buf ≡ es ++ packet 5 ∷ packet 6 ∷ [])
push_longest_example =
    push_longest small (packet 6) (packet 4 ∷ []) (packet 5 ∷ packet 6 ∷ []) small-IsValid
      (omega (arith, size 6)) refl (omega (arith, size 5, size 6))

packets_since_complete_example :
    Counts (resumes_at 1 (packets_since small 1).1) (packets_since small 1).0 6
    × ReportsGap 1 4 (packets_since small 1).1
packets_since_complete_example =
    packets_since_complete small 1 4 6 (refl, (refl, refl)) (λ e. cc) (omega arith) (omega arith)
