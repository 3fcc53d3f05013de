-- ===== src/Agent/Session/Run/Reconnecting.antt =====
-- A client that comes back: the new offer, and the output that it missed.
use ktty.Base.{
  ℕ, suc, ◌≤◌, ◌<◌, ◌≡◌, ◌≢◌, ◌⊎◌, ap, ◌∙◌, Text, Bytes, Message, text, frame, lit, Bool, true,
  false, List, [], ◌∷◌, ◌++◌, map, some, ok, arith, word_mod, subst, length, refl, sym, ltb, retain,
  text_eq, text_eq_refl, inl, inr,
}
use mathlib.Core.List.{append_assoc, head?}
use mathlib.Core.Option
use ktty.Common.Crypto.{decrypt}
use ktty.Common.Messages.{EncryptedEnvelope, SyncReqPayload, boot_signal, handshake_offer}
use ktty.Deps.Ciphers.{KemLaws}
use ktty.Deps.Crates.{Crates, TrafficLaws}
use ktty.Agent.RingBuffer.{Packet, RingBuffer, packets_since}
use ktty.Agent.RingBuffer.Replay.{Counts, resumes_at, ReportsGap}
use ktty.Agent.Session.State.{Agent, Link, mentions, can_slice, goes_on}
use ktty.Agent.Session.Bridge.{socket, dispatch, on_envelope, on_text, on_socket, bridge_step}
use ktty.Agent.Session.SyncReq.{handle_sync_req}
use ktty.Agent.Session.Traffic.{reads, reading_of, warning_of}
use ktty.Agent.Session.Recovery.{ShortWarnings, sync_recovers}
use ktty.Agent.Session.Handshake.{offer_text}
use ktty.Agent.Session.Handshake.Agreement.{offer_of, open_outbox}
use ktty.Agent.Session.Joining.{Session}
use ktty.Agent.Session.Run.{
  Phase, State, boot_text, boot, shake, after_bridge, step_in, step, Reach,
}
use ktty.Agent.Session.Run.Keys.{IsKeyed}
use ktty.Agent.Session.Run.Memory.{outputs, Reach-Sound}
use ktty.Agent.Session.Printed.{kept}
use ktty.Agent.Session.Wait.{wait_step, wait_text}

-- A text that the bridge does not take for one of the three control messages.
abbrev pub IsPlain : Text → Type 0
IsPlain t =
    (mentions t "type" "disconnect" ≡ false)
    × (mentions t "type" "peer_disconnect" ≡ false)
    × (mentions t "action" "join" ≡ false)

module _ (X : Crates) (l : Link) where
  -- The text is a request for what follows `last_seq`, sealed for this link.
  pub record Requests (t : Text) (req : SyncReqPayload) : Type 0 where
    pub env : EncryptedEnvelope
    pub packed : Bytes
    pub plain : Bytes
    pub plainly : IsPlain t
    pub parses : X.serde.envelope_from_str t ≡ some env
    pub kind : env.type ≡ lit "sync_req"
    pub session : env.session_id ≡ l.session_id
    pub decodes : X.encodings.base64_decode env.payload ≡ some packed
    pub opens : decrypt X.aead l.key packed ≡ ok plain
    pub asks : X.serde.sync_req_from_slice plain ≡ some req
    pub current : req.session_id ≡ l.session_id

  on_envelope-Requests :
      (t : Text) (req : SyncReqPayload) (a : Agent) (q : Requests t req)
      → on_envelope X l q.env a ≡ handle_sync_req X l q.plain a
  unfolding on_envelope dispatch text_eq
  on_envelope-Requests t req a q =
      rw (q.session, text_eq_refl, q.decodes, q.opens, dispatch, q.kind)

  on_text-Requests :
      (t : Text) (req : SyncReqPayload) (a : Agent) (q : Requests t req)
      → on_text X l t a ≡ goes_on (handle_sync_req X l q.plain a)
  unfolding on_text
  on_text-Requests t req a q =
      rw (q.plainly.0, q.plainly.1, q.plainly.2, q.parses)
        (ap goes_on (on_envelope-Requests t req a q))

head-Counts :
    (first next : ℕ) (ps : List Packet)
    → ps ≢ []
    → Counts first ps next
    → Option.map (λ p. p.seq) (head? ps) ≡ some first
head-Counts first next [] ne c = absurd (ne refl)
head-Counts first next (p ∷ ps) ne (e, c) = ap some e

left : {A B : Type 0} → A ⊎ B → ¬ A → B
left (inl a) n = absurd (n a)
left (inr b) n = b

length-empty : (os : List Bytes) → length os ≡ 0 → os ≡ []
length-empty [] e = refl
length-empty (o ∷ os) e = absurd (omega (arith, e))

module _ (X : Crates) (S : Session) (seed : ℕ → X.kem.Seed) where
  step-Requests :
      (l : Link) (now : ℕ) (t : Text) (req : SyncReqPayload) (s : State X) (q : Requests X l t req)
      → s.phase ≡ Phase.bridging l
      → step X S seed (socket now (frame (text t))) s
        ≡ record s { agent = handle_sync_req X l q.plain (record s.agent { last_ws_rx = now }) }
  unfolding step bridge_step on_socket
  step-Requests l now t req s q e =
      ap (λ p. step_in X S seed p (socket now (frame (text t))) s) e
      ∙ ap (λ o. after_bridge X S seed o s)
          (on_text-Requests X l t req (record s.agent { last_ws_rx = now }) q)

  -- Recovery over a reconnection. Whatever has happened on the connection to the relay, sessions
  -- that ended included, over fewer than 2^64 - 1 events, in which the terminal printed something: in
  -- the bridge of the current session, with the channel open and warnings short enough for the
  -- cipher, a client asks under this session's key for what follows `last_seq`, at most the number
  -- of all outputs on the connection. Number these outputs from 1, and let the kept ones be their
  -- longest suffix that fits into the buffer's limit. Then the agent sends messages which the client
  -- reads, under this session's key and id, as the warning, where there is a gap, and the packets:
  -- these are the kept outputs after `last_seq`, with consecutive numbers up to that of the last
  -- output, from after the gap or, with no gap, from `last_seq + 1`; the gap runs from
  -- `last_seq + 1` to just below the number of the first kept output, and is reported exactly when it
  -- is not empty.
  pub reconnect_recovers :
      TrafficLaws X
      → KemLaws X.kem
      → {n : ℕ} {s : State X} → (r : Reach X S seed n s) → suc n < word_mod
      → (l : Link) (now : ℕ) (t : Text) (req : SyncReqPayload) → s.phase ≡ Phase.bridging l
      → Requests X l t req
      → ShortWarnings X l
      → s.agent.outbox.is_open ≡ true
      → outputs X S seed r ≢ []
      → req.last_seq ≤ length (outputs X S seed r)
      → let (packets, dropped) = packets_since s.agent.ring req.last_seq in
        let history = outputs X S seed r in
        (ms : List Message) × (first : ℕ) × ((step X S seed
            (socket now (frame (text t)))
            s).agent.outbox
          ≡ record { sent = s.agent.outbox.sent ++ ms; is_open = true })
        × (map (reads X l) ms ≡ warning_of X l dropped ++ map (reading_of X l) packets)
        × (packets ≡ retain (λ p. ltb req.last_seq p.seq) (kept history))
        × Counts (resumes_at req.last_seq dropped) packets (suc (length history))
        × (Option.map (λ p. p.seq) (head? (kept history)) ≡ some first)
        × ReportsGap req.last_seq first dropped
  unfolding packets_since
  reconnect_recovers laws kem {n} {s} r small l now t req at q warnings open' output seen =
      let ((count, ring), v, le, keyed) = Reach-Sound X S seed kem r (omega arith) in
      let (size, sid, auth) : IsKeyed X S seed s.token (Phase.bridging l) =
        subst (λ p. IsKeyed X S seed s.token p) at keyed in
      let some_out : s.agent.seq ≢ 0 =
        λ e. output (length-empty (outputs X S seed r) (omega (arith, e, count))) in
      let (ms, sent, read, counts, gap) =
        sync_recovers X laws l size (record s.agent { last_ws_rx = now }) req q.plain v warnings
          open' q.asks q.current some_out (omega (arith, count, seen)) (omega arith) in
      (
        ms,
        v.first,
        ap (λ (z : State X). z.agent.outbox) (step-Requests l now t req s q at) ∙ sent,
        read,
        rw (ring, packets_since) refl,
        rw (← count) counts,
        ap (λ (z : RingBuffer). Option.map (λ p. p.seq) (head? z.buf)) (sym ring)
            ∙ head-Counts v.first (suc s.agent.seq) s.agent.ring.buf (left v.some_left some_out)
                v.counts,
        gap,
      )

  -- Where the channel is open, a boot sends the signal and then the offer of a fresh pair of keys,
  -- and waits for the reply to it.
  pub boot_lem :
      (s : State X)
      → s.agent.outbox.is_open ≡ true
      → boot X S seed s ≡ record s {
        phase = Phase.shaking (X.kem.generate (seed s.seeds)).0;
        seeds = suc s.seeds;
        agent = record s.agent {
          outbox = open_outbox (
              s.agent.outbox.sent
              ++ text (boot_text X S seed s.token boot_signal)
                ∷ text (offer_text X S.derived_key s.token (offer_of X (seed s.seeds)))
                ∷ []);
        };
      }
  unfolding boot handshake_offer
  boot_lem s e = rw (e, shake, append_assoc)

  -- A client that joins while the bridge runs: the text says so, and is none of the other two
  -- control messages.
  abbrev pub IsJoin : Text → Type 0
  IsJoin t =
      (mentions t "type" "disconnect" ≡ false)
      × (mentions t "type" "peer_disconnect" ≡ false)
      × (mentions t "action" "join" ≡ true)
      × (can_slice t 120 ≡ true)

  -- A client that joins again, between two sessions or in the middle of one, over an open channel:
  -- the agent sends the boot signal and the offer of a fresh pair of keys, in this order, and waits
  -- for the reply to it. The buffer, the counter and the terminal stay as they are.
  pub rejoin_offers :
      (now : ℕ) (t : Text) (s : State X)
      → ((l : Link) × (s.phase ≡ Phase.bridging l))
        ⊎ ((alive : Bool) × (s.phase ≡ Phase.waiting alive))
      → IsJoin t
      → s.agent.outbox.is_open ≡ true
      → step X S seed (socket now (frame (text t))) s ≡ record s {
        phase = Phase.shaking (X.kem.generate (seed s.seeds)).0;
        seeds = suc s.seeds;
        agent = record s.agent {
          last_ws_rx = now;
          outbox = open_outbox (
              s.agent.outbox.sent
              ++ text (boot_text X S seed s.token boot_signal)
                ∷ text (offer_text X S.derived_key s.token (offer_of X (seed s.seeds)))
                ∷ []);
        };
      }
  unfolding step bridge_step on_socket on_text wait_step wait_text
  rejoin_offers now t s (inl (l, at)) (no1, no2, joins, short) open' =
      ap (λ p. step_in X S seed p (socket now (frame (text t))) s) at
      ∙ rw (no1, no2, joins)
          (boot_lem (record s { agent = record s.agent { last_ws_rx = now } }) open')
  rejoin_offers now t s (inr (alive, at)) (no1, no2, joins, short) open' =
      ap (λ p. step_in X S seed p (socket now (frame (text t))) s) at
      ∙ rw (short, joins)
          (boot_lem (record s { agent = record s.agent { last_ws_rx = now } }) open')
