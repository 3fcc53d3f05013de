-- ===== src/Agent/Session/Wait/Keeping.antt =====
-- A round without a client sends none of the terminal's output, and leaves the buffer recent.
use ktty.Base.{
  ℕ, suc, ◌≤◌, ◌<◌, ◌≡◌, refl, sym, ap, ◌∙◌, Message, text, binary, ping, pong, close, Incoming,
  frame, failed, ended, Bool, true, false, List, [], ◌∷◌, ◌++◌, arith, All, All-append, word_mod,
  Bool-cases, inl, inr,
}
use mathlib.Core.List.{append_assoc, append-nil}
use ktty.Agent.Session.State.{Agent, send, send_or_drop}
use ktty.Agent.Session.Bridge.{
  BridgeEvent, pty_output, pty_closed, socket, tick, writer_ended, record_output,
}
use ktty.Agent.Session.History.{IsRecent}
use ktty.Agent.Session.Rounds.{IsRead, Recent, record_output-Recent}
use ktty.Agent.Session.Wait.{
  Waiting, waits, joined, lost, collapses, wait_text, wait_socket, wait_tick, wait_step,
}

abbrev pub is_control : Message → Bool
is_control (ping d) = true
is_control (pong d) = true
is_control _ = false

-- Only pings and pongs were sent, nothing was encrypted, and the terminal was not called.
abbrev pub IsQuiet : Agent → Agent → Type 0
IsQuiet a b =
    (cs : List Message) × (b.outbox.sent ≡ a.outbox.sent ++ cs)
    × All (λ m. is_control m ≡ true) cs
    × (b.drawn ≡ a.drawn)
    × (b.pty ≡ a.pty)

-- What holds of the agent after the rounds, however they ended.
abbrev pub Ends : (Agent → Type 0) → Waiting → Type 0
Ends P (waits pty_alive a) = P a
Ends P (joined a) = P a
Ends P (lost a) = P a
Ends P collapses = Unit {0}

-- The buffer is recent, the counter at most `n`, and the agent quiet since `a`.
abbrev pub Keeps : ℕ → Agent → Agent → Type 0
Keeps n a b = IsRecent b.seq b.ring × (b.seq ≤ n) × IsQuiet a b

pub IsQuiet-trans : (a b c : Agent) → IsQuiet a b → IsQuiet b c → IsQuiet a c
IsQuiet-trans a b c (cs, s, all, d, p) (cs', s', all', d', p') = (
  cs ++ cs',
  s' ∙ ap (λ z. z ++ cs') s ∙ append_assoc a.outbox.sent cs cs',
  All-append (λ m. is_control m ≡ true) cs cs' all all',
  d' ∙ d,
  p' ∙ p,
)

send_or_drop-Keeps :
    (n : ℕ) (m : Message) (a : Agent)
    → is_control m ≡ true
    → Recent n a
    → Keeps n a (send_or_drop m a)
unfolding send_or_drop send
send_or_drop-Keeps n m a c (v, le) = elim (Bool-cases a.outbox.is_open) [
  | inl e ↦ rw e (v, le, (m ∷ [], refl, (c, tt), refl, refl))
  | inr e ↦ rw e (v, le, ([], sym (append-nil a.outbox.sent), tt, refl, refl))
]

idle : (n : ℕ) (a : Agent) → Recent n a → Keeps n a a
idle n a (v, le) = (v, le, ([], sym (append-nil a.outbox.sent), tt, refl, refl))

wait_text-Keeps :
    (n : ℕ) (t : List ℕ) (alive : Bool) (a : Agent)
    → Recent n a
    → Ends (Keeps n a) (wait_text t alive a)
unfolding wait_text
wait_text-Keeps n t alive a v = ground (arith, idle n a v)

wait_socket-Keeps :
    (n : ℕ) (item : Incoming) (alive : Bool) (a : Agent)
    → Recent n a
    → Ends (Keeps n a) (wait_socket item alive a)
unfolding wait_socket
wait_socket-Keeps n (frame (text t)) alive a v = wait_text-Keeps n t alive a v
wait_socket-Keeps n (frame (ping d)) alive a v = send_or_drop-Keeps n (pong d) a refl v
wait_socket-Keeps n (frame (pong d)) alive a v = idle n a v
wait_socket-Keeps n (frame (binary b)) alive a v = idle n a v
wait_socket-Keeps n (frame close) alive a v = idle n a v
wait_socket-Keeps n failed alive a v = idle n a v
wait_socket-Keeps n ended alive a v = idle n a v

wait_tick-Keeps :
    (n now : ℕ) (alive : Bool) (a : Agent) → Recent n a → Ends (Keeps n a) (wait_tick now alive a)
unfolding wait_tick
wait_tick-Keeps n now alive a v =
    ground (arith, idle n a v, send_or_drop-Keeps n (ping []) a refl v)

record_output-Keeps :
    (n : ℕ) (output : List ℕ) (a : Agent)
    → Recent n a
    → IsRead (pty_output output)
    → suc n < word_mod
    → Keeps (suc n) a (record_output output a)
unfolding record_output
record_output-Keeps n output a v short small =
    let (v', le) = record_output-Recent n output a v short small in
    (v', le, ([], sym (append-nil a.outbox.sent), tt, refl, refl))

Ends-map : (P Q : Agent → Type 0) (w : Waiting) → ((b : Agent) → P b → Q b) → Ends P w → Ends Q w
Ends-map P Q (waits alive b) f h = f b h
Ends-map P Q (joined b) f h = f b h
Ends-map P Q (lost b) f h = f b h
Ends-map P Q collapses f h = tt

Keeps-suc : (n : ℕ) (a b : Agent) → Keeps n a b → Keeps (suc n) a b
Keeps-suc n a b (v, le, q) = (v, omega arith, q)

pub wait_step-Keeps :
    (n : ℕ) (e : BridgeEvent) (alive : Bool) (a : Agent)
    → Recent n a
    → IsRead e
    → suc n < word_mod
    → Ends (Keeps (suc n) a) (wait_step e alive a)
unfolding wait_step
wait_step-Keeps n (pty_output output) true a v short small =
    record_output-Keeps n output a v short small
wait_step-Keeps n (pty_output output) false a v short small = Keeps-suc n a a (idle n a v)
wait_step-Keeps n pty_closed alive a v short small = Keeps-suc n a a (idle n a v)
wait_step-Keeps n (socket now item) alive a v short small =
    let a' = record a { last_ws_rx = now } in
    Ends-map (Keeps n a') (Keeps (suc n) a) (wait_socket item alive a') (Keeps-suc n a)
      (wait_socket-Keeps n item alive a' v)
wait_step-Keeps n (tick now) alive a v short small =
    Ends-map (Keeps n a) (Keeps (suc n) a) (wait_tick now alive a) (Keeps-suc n a)
      (wait_tick-Keeps n now alive a v)
wait_step-Keeps n writer_ended alive a v short small = Keeps-suc n a a (idle n a v)
