-- ===== src/Agent/Session/Recovery.antt =====
-- A client that asks for what it missed reads all of it, or is told which numbers are gone.
use ktty.Base.{
  ℕ, suc, ◌≤◌, ◌<◌, ◌≡◌, ◌≢◌, ◌⊎◌, inl, inr, ap, ◌∙◌, Bytes, Message, true, List, [], ◌++◌, map,
  Option, none, some, text_eq, text_eq_refl, arith, length, All, All-map, All-retain, word_mod,
  word_add, word_sub, ltb,
}
use mathlib.Core.List.{append_assoc, map-append}
use ktty.Common.Messages.{SyncReqPayload}
use ktty.Deps.Crates.{Crates, TrafficLaws}
use ktty.Agent.RingBuffer.{RingBuffer, packets_since, oldest_seq, gap}
use ktty.Agent.RingBuffer.Replay.{Counts, resumes_at, ReportsGap, packets_since_complete}
use ktty.Agent.Session.State.{Agent, Link}
use ktty.Agent.Session.SyncReq.{warn_bytes, warn, handle_sync_req}
use ktty.Agent.Session.Traffic.{max_plain, reads, reading_of, warning_of, warn_lem, replay_lem}
use ktty.Agent.Session.History.{IsRecent, IsOutput}

gap-small :
    (last : ℕ) (oldest : Option ℕ) (start end : ℕ)
    → gap last oldest ≡ some (start, end)
    → (start < word_mod) × (end < word_mod)
unfolding gap word_add word_sub
gap-small last none start end e = cc
gap-small last (some oldest) start end e = ground arith

packets_since-small :
    (r : RingBuffer) (last start end : ℕ)
    → (packets_since r last).1 ≡ some (start, end)
    → (start < word_mod) × (end < word_mod)
unfolding packets_since
packets_since-small r last start end e = gap-small last (oldest_seq r) start end e

packets-short :
    (r : RingBuffer) (last : ℕ)
    → All IsOutput r.buf
    → All (λ p. length p.payload < max_plain) (packets_since r last).0
unfolding packets_since
packets-short r last h =
    All-retain (λ p. length p.payload < max_plain) (λ p. ltb last p.seq) r.buf
      (All-map r.buf (λ p o. omega (arith, o.0)) h)

module _ (X : Crates) (l : Link) where
  -- The warning about two 64-bit numbers is within the cipher's limit.
  abbrev pub ShortWarnings : Type 0
  ShortWarnings =
      (start end : ℕ)
      → start < word_mod
      → end < word_mod
      → length (warn_bytes X l start end) < max_plain

module _ (X : Crates) (laws : TrafficLaws X) (l : Link) (key_size : length l.key ≡ 32) where
  -- A request for the current session is answered by the warning, where there is a gap, and the
  -- packets, in this order.
  answered :
      (a : Agent) (req : SyncReqPayload) (plain : Bytes)
      → ShortWarnings X l
      → All (λ p. length p.payload < max_plain) (packets_since a.ring req.last_seq).0
      → a.outbox.is_open ≡ true
      → X.serde.sync_req_from_slice plain ≡ some req
      → req.session_id ≡ l.session_id
      → (ms : List Message) × ((handle_sync_req X l plain a).outbox
          ≡ record { sent = a.outbox.sent ++ ms; is_open = true })
        × (map (reads X l) ms
            ≡ warning_of X l (packets_since a.ring req.last_seq).1
              ++ map (reading_of X l) (packets_since a.ring req.last_seq).0)
  unfolding handle_sync_req
  answered a req plain warnings short open' parsed current =
      let (packets, dropped) = packets_since a.ring req.last_seq in
      let same : text_eq req.session_id l.session_id ≡ true =
        rw current (text_eq_refl l.session_id) in
      let (ws, warned, read_w) = warn_lem X laws l key_size dropped a warning_short open' in
      let a' = warn X l dropped a in
      let (ms, sent, read_m) =
        replay_lem X laws l key_size packets a' short (ap (λ o. o.is_open) warned) in
      (
        ws ++ ms,
        rw (parsed, handle_sync_req, same)
            (sent
              ∙ ap (λ s. record { sent = s; is_open = true })
                  (ap (λ o. o.sent ++ ms) warned ∙ append_assoc a.outbox.sent ws ms)),
        map-append (reads X l) ws ms ∙ cc (read_w, read_m),
      )
    where
      warning_short :
          (start end : ℕ)
          → (packets_since a.ring req.last_seq).1 ≡ some (start, end)
          → length (warn_bytes X l start end) < max_plain
      warning_short start end e =
          let (s, t) = packets_since-small a.ring req.last_seq start end e in warnings start end s t

  -- Recovery, under a 32-byte key. The buffer is recent, something was output, the counter is
  -- below 2^64 - 1, the channel is open, warnings are short enough for the cipher, and a client
  -- asks in the current session for what follows `last_seq`, a number that was sent. Then the agent
  -- sends messages which the client reads as the warning, where there is a gap, and the packets of
  -- the buffer after `last_seq`, each with its number, type and bytes, under the session's id. The
  -- packets' numbers are consecutive up to the last one sent, and begin after the gap or, with no
  -- gap, at `last_seq + 1`; the gap runs from `last_seq + 1` to just below the oldest buffered
  -- number.
  pub sync_recovers :
      (a : Agent) (req : SyncReqPayload) (plain : Bytes) (v : IsRecent a.seq a.ring)
      → ShortWarnings X l
      → a.outbox.is_open ≡ true
      → X.serde.sync_req_from_slice plain ≡ some req
      → req.session_id ≡ l.session_id
      → a.seq ≢ 0
      → req.last_seq ≤ a.seq
      → suc a.seq < word_mod
      → let (packets, dropped) = packets_since a.ring req.last_seq in
        (ms : List Message) × ((handle_sync_req X l plain a).outbox
          ≡ record { sent = a.outbox.sent ++ ms; is_open = true })
        × (map (reads X l) ms ≡ warning_of X l dropped ++ map (reading_of X l) packets)
        × Counts (resumes_at req.last_seq dropped) packets (suc a.seq)
        × ReportsGap req.last_seq v.first dropped
  sync_recovers a req plain v warnings open' parsed current output seen small =
      let (packets, dropped) = packets_since a.ring req.last_seq in
      let (ms, sent, read) = answered a req plain warnings short open' parsed current in
      let (counts, reports) =
        packets_since_complete a.ring req.last_seq v.first (suc a.seq) v.counts (left v.some_left)
          small (omega arith) in
      (ms, sent, read, counts, reports)
    where
      left : (a.seq ≡ 0) ⊎ (a.ring.buf ≢ []) → a.ring.buf ≢ []
      left (inl e) = absurd (output e)
      left (inr h) = h

      short : All (λ p. length p.payload < max_plain) (packets_since a.ring req.last_seq).0
      short = packets-short a.ring req.last_seq v.outputs
