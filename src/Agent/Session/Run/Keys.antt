-- ===== src/Agent/Session/Run/Keys.antt =====
-- Over every run the bridge works with a key that a handshake made.
use ktty.Base.{ℕ, ◌≡◌, refl, Text, Incoming, Option, length, Bool-cases, inl, inr}
use ktty.Common.Crypto
use ktty.Deps.Ciphers.{KemLaws}
use ktty.Deps.Crates.{Crates}
use ktty.Agent.Session.State.{
  Outbox, peer_disconnected, peer_rejoined, ws_error, pty_exited, Outcome, goes_on, exits, panics,
}
use ktty.Agent.Session.Bridge.{
  BridgeEvent, pty_output, pty_closed, socket, tick, writer_ended, bridge_step,
}
use ktty.Agent.Session.Handshake.{Handshake, waits, agrees, aborts, breaks, on_message}
use ktty.Agent.Session.Handshake.Replies.{on_message-agrees}
use ktty.Agent.Session.Wait.{Waiting, joined, lost, collapses, wait_step}
use ktty.Agent.Session.Joining.{
  Session, Joining, awaits, found, disconnected, crashes, joining_socket,
}
use ktty.Agent.Session.Run.{
  Phase, State, at_time, with_outbox, shake, boot, after_joining, after_wait, after_message,
  after_bridge, step_in, step, start, Step, takes, Reach, here, next,
}

module _ (X : Crates) (S : Session) (seed : ℕ → X.kem.Seed) where
  -- A bridge has a 32-byte key, the id of that key, and the token that the connection holds.
  abbrev pub IsKeyed : Option Text → Phase X → Type 0
  IsKeyed token (Phase.bridging l) =
      (length l.key ≡ 32) × (l.session_id ≡ Crypto.session_id X.encodings l.key) × (l.auth ≡ token)
  IsKeyed token p = Unit {0}

  boot-IsKeyed : (s : State X) → IsKeyed (boot X S seed s).token (boot X S seed s).phase
  unfolding boot
  boot-IsKeyed s = elim (Bool-cases s.agent.outbox.is_open) [
    | inl e ↦ rw (boot, e, shake) tt
    | inr e ↦ rw (boot, e) tt
  ]

  after_joining-IsKeyed :
      (j : Joining) (s : State X)
      → s.phase ≡ Phase.joining
      → IsKeyed (after_joining X S seed j s).token (after_joining X S seed j s).phase
  unfolding after_joining
  after_joining-IsKeyed (awaits token o) s e = rw e tt
  after_joining-IsKeyed (found token o) s e =
      boot-IsKeyed (with_outbox X o (record s { token = token }))
  after_joining-IsKeyed disconnected s e = tt
  after_joining-IsKeyed crashes s e = tt

  after_wait-IsKeyed :
      (w : Waiting) (s : State X)
      → IsKeyed (after_wait X S seed w s).token (after_wait X S seed w s).phase
  unfolding after_wait
  after_wait-IsKeyed (Waiting.waits alive a) s = tt
  after_wait-IsKeyed (joined a) s = boot-IsKeyed (record s { agent = a })
  after_wait-IsKeyed (lost a) s = tt
  after_wait-IsKeyed collapses s = tt

  after_bridge-IsKeyed :
      (o : Outcome) (s : State X)
      → IsKeyed s.token s.phase
      → IsKeyed (after_bridge X S seed o s).token (after_bridge X S seed o s).phase
  unfolding after_bridge
  after_bridge-IsKeyed (goes_on a) s k = k
  after_bridge-IsKeyed (exits peer_disconnected a) s k = tt
  after_bridge-IsKeyed (exits peer_rejoined a) s k = boot-IsKeyed (record s { agent = a })
  after_bridge-IsKeyed (exits ws_error a) s k = tt
  after_bridge-IsKeyed (exits pty_exited a) s k = tt
  after_bridge-IsKeyed panics s k = tt

  -- The key of a handshake is what a decapsulation gave.
  after_message-IsKeyed :
      KemLaws X.kem
      → (dk : X.kem.Dk) (item : Incoming) (h : Handshake) (s : State X) (o : Outbox)
      → on_message X S.derived_key s.token dk item o ≡ h
      → IsKeyed s.token s.phase
      → IsKeyed (after_message X S seed h s).token (after_message X S seed h s).phase
  unfolding after_message
  after_message-IsKeyed laws dk item (waits o') s o e k = k
  after_message-IsKeyed laws dk item (agrees key o') s o e k =
      let (t, from, (raw, b64, ct, p1, p2, p3, p4, p5, opened), out) =
        on_message-agrees X s.token S.derived_key dk item key o o' e in
      (laws.length-decapsulate dk ct key opened, refl, refl)
  after_message-IsKeyed laws dk item (aborts o') s o e k = tt
  after_message-IsKeyed laws dk item breaks s o e k = tt

  step_in-IsKeyed :
      KemLaws X.kem
      → (p : Phase X) (e : BridgeEvent) (s : State X) → s.phase ≡ p
      → IsKeyed s.token s.phase
      → IsKeyed (step_in X S seed p e s).token (step_in X S seed p e s).phase
  unfolding step_in
  step_in-IsKeyed laws Phase.joining (socket now item) s at k =
      after_joining-IsKeyed (joining_socket X.json item s.token s.agent.outbox) (at_time X now s) at
  step_in-IsKeyed laws Phase.joining (tick now) s at k = k
  step_in-IsKeyed laws Phase.joining writer_ended s at k = k
  step_in-IsKeyed laws Phase.joining (pty_output output) s at k = k
  step_in-IsKeyed laws Phase.joining pty_closed s at k = k
  step_in-IsKeyed laws (Phase.waiting alive) e s at k =
      after_wait-IsKeyed (wait_step e alive s.agent) s
  step_in-IsKeyed laws (Phase.shaking dk) (socket now item) s at k =
      after_message-IsKeyed laws dk item (on_message X S.derived_key s.token dk item s.agent.outbox)
        (at_time X now s) s.agent.outbox refl k
  step_in-IsKeyed laws (Phase.shaking dk) writer_ended s at k = k
  step_in-IsKeyed laws (Phase.shaking dk) (tick now) s at k = k
  step_in-IsKeyed laws (Phase.shaking dk) (pty_output output) s at k = k
  step_in-IsKeyed laws (Phase.shaking dk) pty_closed s at k = k
  step_in-IsKeyed laws (Phase.bridging l) e s at k =
      after_bridge-IsKeyed (bridge_step X l e s.agent) s k
  step_in-IsKeyed laws (Phase.over why) e s at k = k

  Step-IsKeyed :
      KemLaws X.kem
      → {s t : State X} → Step X S seed s t
      → IsKeyed s.token s.phase
      → IsKeyed t.token t.phase
  unfolding step
  Step-IsKeyed laws {s} (takes e on r) k = step_in-IsKeyed laws s.phase e s refl k

  pub Reach-IsKeyed :
      KemLaws X.kem → {n : ℕ} {s : State X} → Reach X S seed n s → IsKeyed s.token s.phase
  unfolding start
  Reach-IsKeyed laws here = tt
  Reach-IsKeyed laws (next r st) = Step-IsKeyed laws st (Reach-IsKeyed laws r)
