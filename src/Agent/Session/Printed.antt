-- ===== src/Agent/Session/Printed.antt =====
-- What the agent should remember: the terminal's outputs, numbered from 1, of which the longest suffix
-- that fits into the buffer's limit.
use ktty.Base.{
  ℕ, suc, ◌+◌, ◌≤◌, ◌<◌, ◌≡◌, refl, ap, sym, ◌∙◌, Bytes, lit, List, [], ◌∷◌, ◌++◌, length,
  length-append, arith, word_mod, word_add, word_add_lem,
}
use ktty.Common.Constants.{ring_buffer_size}
use ktty.Agent.RingBuffer.{Packet, RingBuffer}
use ktty.Agent.RingBuffer.Bounds.{
  IsValid, total, fitting, fitting-append, total-fitting-le, push-fitting,
}
use ktty.Agent.Session.State.{Agent}
use ktty.Agent.Session.Bridge.{BridgeEvent, pty_output, record_output}
use ktty.Agent.Session.History.{read_size, small_output}
use ktty.Agent.Session.Rounds.{Keeps}

abbrev pub numbered : ℕ → List Bytes → List Packet
numbered n [] = []
numbered n (output ∷ outputs) =
    record { seq = n; msg_type = lit "pty"; payload = output } ∷ numbered (suc n) outputs

-- The packets that should be buffered after these outputs.
abbrev pub kept : List Bytes → List Packet
kept outputs = fitting ring_buffer_size (numbered 1 outputs)

-- The counter and the buffer are what these outputs make them.
abbrev pub Remembers : List Bytes → Agent → Type 0
Remembers outputs a =
    (a.seq ≡ length outputs)
    × (a.ring ≡ record {
      buf = kept outputs;
      max_bytes = ring_buffer_size;
      current_bytes = total (kept outputs);
    })

pub Remembers-Keeps :
    (outputs : List Bytes) (a b : Agent) → Remembers outputs a → Keeps a b → Remembers outputs b
Remembers-Keeps outputs a b (n, r) (n', r') = (n' ∙ n, r' ∙ r)

numbered-append :
    (n : ℕ) (outputs : List Bytes) (output : Bytes)
    → numbered n (outputs ++ output ∷ [])
      ≡ numbered n outputs
        ++ record { seq = n + length outputs; msg_type = lit "pty"; payload = output } ∷ []
numbered-append n [] output =
    ap (λ (k : ℕ). record { seq = k; msg_type = lit "pty"; payload = output } ∷ []) (omega arith)
numbered-append n (o ∷ outputs) output =
    let e : suc n + length outputs ≡ n + length (o ∷ outputs) = omega arith in
    ap (◌∷◌ (record { seq = n; msg_type = lit "pty"; payload = o })) (
      numbered-append (suc n) outputs output
      ∙ ap
          (λ (k : ℕ).
            numbered (suc n) outputs
            ++ record { seq = k; msg_type = lit "pty"; payload = output } ∷ [])
          e)

pub record_output-Remembers :
    (outputs : List Bytes) (output : Bytes) (a : Agent)
    → Remembers outputs a
    → length output ≤ read_size
    → suc (length outputs) < word_mod
    → Remembers (outputs ++ output ∷ []) (record_output output a)
unfolding record_output
record_output-Remembers outputs output a (n, r) short small =
    let next : word_add a.seq 1 ≡ 1 + length outputs = omega (arith, word_add_lem) in
    let p : Packet = record { seq = 1 + length outputs; msg_type = lit "pty"; payload = output } in
    let ring : RingBuffer = record {
      buf = kept outputs;
      max_bytes = ring_buffer_size;
      current_bytes = total (kept outputs);
    } in
    let valid : IsValid ring = record {
      counted = refl;
      within = total-fitting-le ring_buffer_size (numbered 1 outputs);
    } in
    let size = small_output p (short, refl) in
    let same : fitting ring_buffer_size (kept outputs ++ p ∷ []) ≡ kept (outputs ++ output ∷ []) =
      fitting-append ring_buffer_size (numbered 1 outputs) p
      ∙ ap (fitting ring_buffer_size) (sym (numbered-append 1 outputs output)) in
    (
      next ∙ omega (arith, length-append {0} outputs (output ∷ [])),
      rw (r, next)
          (push-fitting ring p valid (omega arith)
            ∙ ap
                (λ (b : List Packet). record {
                  buf = b;
                  max_bytes = ring_buffer_size;
                  current_bytes = total b;
                })
                same),
    )

-- What an event brings of the terminal's output.
abbrev pub printed : BridgeEvent → List Bytes
printed (pty_output output) = output ∷ []
printed e = []

-- The agent with that output recorded.
abbrev pub recorded : BridgeEvent → Agent → Agent
recorded (pty_output output) a = record_output output a
recorded e a = a
