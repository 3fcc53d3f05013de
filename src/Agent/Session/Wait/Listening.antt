-- ===== src/Agent/Session/Wait/Listening.antt =====
-- The wait for a client keeps the output that it hears, until an event ends it.
use ktty.Base.{
  ℕ, suc, ◌+◌, ◌<◌, ◌≡◌, refl, sym, ap, Bytes, Bool, true, List, [], ◌∷◌, ◌++◌, arith, length, All,
  word_mod,
}
use mathlib.Core.List.{append_assoc, append-nil}
use ktty.Agent.Session.State.{Agent}
use ktty.Agent.Session.Bridge.{BridgeEvent}
use ktty.Agent.Session.History.{IsRecent}
use ktty.Agent.Session.Printed.{Remembers, Remembers-Keeps}
use ktty.Agent.Session.Rounds.{IsRead}
use ktty.Agent.Session.Wait.{
  Waiting, waits, joined, lost, collapses, wait_step, wait_loop, while_waits, wait,
}
use ktty.Agent.Session.Wait.Keeping.{Ends, Keeps, IsQuiet, IsQuiet-trans, wait_step-Keeps}
use ktty.Agent.Session.Wait.Hearing.{
  still, hears, heard, Joins, Loses, Breaks, hear, Hears, hear-Remembers, length-hears,
  wait_step-Hears,
}

-- The counter and the buffer are what the outputs make them, and the agent was quiet since `a`.
abbrev pub IsFaithful : List Bytes → Agent → Agent → Type 0
IsFaithful outs a b = Remembers outs b × IsRecent b.seq b.ring × IsQuiet a b

-- The wait goes on after all the events; or it ends at one of them, of the kind that ends it so, and
-- has kept what the terminal printed before that.
abbrev pub Listens : Bool → List Bytes → Agent → List BridgeEvent → Waiting → Type 0
Listens alive outs a events (waits alive' b) = IsFaithful (outs ++ heard alive events) a b
Listens alive outs a events (joined b) =
    (taken rest : List BridgeEvent) × (e : BridgeEvent) × (events ≡ taken ++ e ∷ rest)
    × Joins e
    × IsFaithful (outs ++ heard alive taken) a b
Listens alive outs a events (lost b) =
    (taken rest : List BridgeEvent) × (e : BridgeEvent) × (events ≡ taken ++ e ∷ rest)
    × Loses b e
    × IsFaithful (outs ++ heard alive taken) a b
Listens alive outs a events collapses =
    (taken rest : List BridgeEvent) × (e : BridgeEvent) × (events ≡ taken ++ e ∷ rest) × Breaks e

kept_still :
    (outs : List Bytes) (e : BridgeEvent) (events : List BridgeEvent) (alive : Bool) (a b c : Agent)
    → IsQuiet a b
    → IsFaithful ((outs ++ hears alive e) ++ heard (still alive e) events) b c
    → IsFaithful (outs ++ heard alive (e ∷ events)) a c
kept_still outs e events alive a b c q (v, w, q') = (
  rw (← append_assoc outs (hears alive e) (heard (still alive e) events)) v,
  w,
  IsQuiet-trans a b c q q',
)

Listens-later :
    (outs : List Bytes) (e : BridgeEvent) (events : List BridgeEvent) (alive : Bool) (a b : Agent)
    (w : Waiting)
    → IsQuiet a b
    → Listens (still alive e) (outs ++ hears alive e) b events w
    → Listens alive outs a (e ∷ events) w
Listens-later outs e events alive a b (waits alive' c) q h =
    kept_still outs e events alive a b c q h
Listens-later outs e events alive a b (joined c) q (taken, rest, last, split, joins, h) =
    (e ∷ taken, rest, last, ap (◌∷◌ e) split, joins, kept_still outs e taken alive a b c q h)
Listens-later outs e events alive a b (lost c) q (taken, rest, last, split, loses, h) =
    (e ∷ taken, rest, last, ap (◌∷◌ e) split, loses, kept_still outs e taken alive a b c q h)
Listens-later outs e events alive a b collapses q (taken, rest, last, split, breaks) =
    (e ∷ taken, rest, last, ap (◌∷◌ e) split, breaks)

-- A round, and then what is made of the later events where the wait goes on.
while_waits-Listens :
    (outs : List Bytes) (e : BridgeEvent) (events : List BridgeEvent) (alive : Bool) (a : Agent)
    (w : Waiting) (next : Bool → Agent → Waiting)
    → Remembers outs a
    → IsRead e
    → suc (length outs) < word_mod
    → Hears alive e a w
    → Ends (Keeps (suc a.seq) a) w
    → ((b : Agent)
        → Remembers (outs ++ hears alive e) b
        → IsRecent b.seq b.ring
        → Listens (still alive e) (outs ++ hears alive e) b events (next (still alive e) b))
    → Listens alive outs a (e ∷ events) (while_waits w next)
while_waits-Listens outs e events alive a (waits alive' b) next v read small (same, k)
      (recent, le, q) later =
    let now =
      Remembers-Keeps (outs ++ hears alive e) (hear alive e a) b
        (hear-Remembers outs alive e a v read small) k in
    rw same (Listens-later outs e events alive a b (next (still alive e) b) q (later b now recent))
while_waits-Listens outs e events alive a (joined b) next v read small (joins, k) (recent, le, q)
      later =
    ([], events, e, refl, joins, (rw append-nil (Remembers-Keeps outs a b v k), recent, q))
while_waits-Listens outs e events alive a (lost b) next v read small (loses, k) (recent, le, q)
      later =
    ([], events, e, refl, loses, (rw append-nil (Remembers-Keeps outs a b v k), recent, q))
while_waits-Listens outs e events alive a collapses next v read small breaks h later =
    ([], events, e, refl, breaks)

wait_loop-Listens :
    (outs : List Bytes) (events : List BridgeEvent) (alive : Bool) (a : Agent)
    → Remembers outs a
    → IsRecent a.seq a.ring
    → All IsRead events
    → length outs + length events < word_mod
    → Listens alive outs a events (wait_loop events alive a)
unfolding wait_loop
wait_loop-Listens outs [] alive a v recent reads small =
    (rw append-nil v, recent, ([], sym (append-nil a.outbox.sent), tt, refl, refl))
wait_loop-Listens outs (e ∷ events) alive a v recent (read, reads) small =
    while_waits-Listens outs e events alive a (wait_step e alive a)
      (λ alive' b. wait_loop events alive' b) v read (omega arith) (wait_step-Hears e alive a)
      (wait_step-Keeps a.seq e alive a (recent, omega arith) read (omega (arith, v.0)))
      (λ b now recent'.
        wait_loop-Listens (outs ++ hears alive e) events (still alive e) b now recent' reads
          (omega (arith, length-hears outs alive e)))

-- The wait for a client, at any time and with any events, whose outputs are single reads and which,
-- with the outputs before, are fewer than 2^64. If the counter and the buffer were what the earlier
-- outputs make them, then afterwards they are what these and the outputs heard in the wait make
-- them, up to the terminal's end: every output is counted and buffered, so that it can be replayed
-- later. Meanwhile the agent has sent only pings and pongs, encrypted nothing and not called the
-- terminal. The wait goes on over all the events, or ends at the event that ends it: with a client
-- at a message to join; with the relay lost at a failure or the end of its socket or at a tick more
-- than 45 seconds after the last item; or with a panic at a text that cannot be cut after 120 bytes.
pub wait-Listens :
    (now : ℕ) (outs : List Bytes) (events : List BridgeEvent) (a : Agent)
    → Remembers outs a
    → IsRecent a.seq a.ring
    → All IsRead events
    → length outs + length events < word_mod
    → Listens true outs a events (wait now events a)
unfolding wait
wait-Listens now outs events a v recent reads small =
    wait_loop-Listens outs events true (record a { last_ws_rx = now }) v recent reads small
