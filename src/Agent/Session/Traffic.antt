-- ===== src/Agent/Session/Traffic.antt =====
-- What a client that holds the session's key reads from what the agent sends.
use ktty.Base.{
  ℕ, suc, ◌-◌, ◌*◌, ◌^◌, ◌<◌, ◌≡◌, refl, ap, ◌∙◌, Text, Bytes, Message, text, lit, true, List, [],
  ◌∷◌, ◌++◌, map, Option, none, some, ok, to_option, arith, length, All,
}
use mathlib.Core.List.{append_assoc, append-nil}
use mathlib.Core.Option
use ktty.Common.Crypto.{encrypt, decrypt}
use ktty.Common.Crypto.Packing.{encrypt_roundtrip}
use ktty.Common.Messages.{EncryptedEnvelope, envelope, with_auth}
use ktty.Deps.Crates.{Crates, TrafficLaws}
use ktty.Agent.RingBuffer.{Packet}
use ktty.Agent.Session.State.{Agent, Link}
use ktty.Agent.Session.SyncReq.{envelope_text, send_sealed, warn_bytes, warn, replay}

-- The sequence number, session, type and text of a message.
abbrev pub Reading : Type 0
Reading = ℕ × Text × Text × Bytes

-- The longest text that the cipher takes.
abbrev pub max_plain : ℕ
max_plain = 64 * (2 ^ 32 - 1)

module _ (X : Crates) (l : Link) where
  abbrev pub read_envelope : EncryptedEnvelope → Option Reading
  read_envelope env = elim (X.encodings.base64_decode env.payload) [
    | none ↦ none
    | some packed ↦
        Option.map (λ plain. (env.seq, env.session_id, env.type, plain))
          (to_option (decrypt X.aead l.key packed))
  ]

  -- The receiver: it parses the envelope, decodes the payload and decrypts it with the key.
  unfoldable pub reads : Message → Option Reading
  reads (text t) = elim (X.serde.envelope_from_str t) [ none ↦ none | some env ↦ read_envelope env ]
  reads _ = none

  -- What a packet should read as.
  abbrev pub reading_of : Packet → Option Reading
  reading_of p = some (p.seq, l.session_id, p.msg_type, p.payload)

  -- The reading of the warning about a gap, where there is one.
  abbrev pub warning_of : Option (ℕ × ℕ) → List (Option Reading)
  warning_of none = []
  warning_of (some (start, end)) =
      some (0, l.session_id, lit "sync_warn", warn_bytes X l start end) ∷ []

module _ (X : Crates) (laws : TrafficLaws X) (l : Link) (key_size : length l.key ≡ 32) where
  pub envelope_reads :
      (i seq : ℕ) (type : Text) (plain : Bytes)
      → length plain < max_plain
      → (enc : Bytes) × (encrypt X.aead (X.nonce i) l.key plain ≡ ok enc)
        × (reads X l (text (envelope_text X l seq type enc))
            ≡ some (seq, l.session_id, type, plain))
  unfolding reads envelope_text envelope with_auth
  envelope_reads i seq type plain short =
      let (enc, sealed, size, opened) =
        encrypt_roundtrip X.aead laws.aead (X.nonce i) l.key plain (laws.length-nonce i) key_size
          short in
      let (t, printed, parsed) =
        laws.serde.envelope_roundtrip
          (with_auth (envelope seq l.session_id type (X.encodings.base64_encode enc)) l.auth) in
      (
        enc,
        sealed,
        rw (printed, reads, parsed, read_envelope, laws.encodings.decode-encode enc, opened),
      )

  -- Over an open channel the message is sent, and reads as what was sealed.
  pub send_sealed_lem :
      (seq : ℕ) (type : Text) (plain : Bytes) (a : Agent)
      → length plain < max_plain
      → a.outbox.is_open ≡ true
      → (m : Message) × (send_sealed X l seq type plain a ≡ record a {
        outbox = record { sent = a.outbox.sent ++ m ∷ []; is_open = true };
        drawn = suc a.drawn;
      })
        × (reads X l m ≡ some (seq, l.session_id, type, plain))
  unfolding send_sealed
  send_sealed_lem seq type plain a short open' =
      let (enc, sealed, read) = envelope_reads a.drawn seq type plain short in
      (text (envelope_text X l seq type enc), rw (sealed, send_sealed, open'), read)

  -- The packets that are sent one after the other read as they were stored.
  pub replay_lem :
      (packets : List Packet) (a : Agent)
      → All (λ p. length p.payload < max_plain) packets
      → a.outbox.is_open ≡ true
      → (ms : List Message) × ((replay X l packets a).outbox
          ≡ record { sent = a.outbox.sent ++ ms; is_open = true })
        × (map (reads X l) ms ≡ map (reading_of X l) packets)
  unfolding replay
  replay_lem [] a short open' = ([], ground (arith, append-nil a.outbox.sent), refl)
  replay_lem (p ∷ packets) a (now, later) open' =
      let (m, sent, read) = send_sealed_lem p.seq p.msg_type p.payload a now open' in
      let a' = send_sealed X l p.seq p.msg_type p.payload a in
      let (ms, sent', read') =
        replay_lem packets a' later (ap (λ (b : Agent). b.outbox.is_open) sent) in
      (
        m ∷ ms,
        sent'
            ∙ ap (λ s. record { sent = s; is_open = true })
                (ap (λ (b : Agent). b.outbox.sent ++ ms) sent
                  ∙ append_assoc a.outbox.sent (m ∷ []) ms),
        cc (read, read'),
      )

  pub warn_lem :
      (dropped : Option (ℕ × ℕ)) (a : Agent)
      → ((start end : ℕ)
          → dropped ≡ some (start, end)
          → length (warn_bytes X l start end) < max_plain)
      → a.outbox.is_open ≡ true
      → (ms : List Message) × ((warn X l dropped a).outbox
          ≡ record { sent = a.outbox.sent ++ ms; is_open = true })
        × (map (reads X l) ms ≡ warning_of X l dropped)
  unfolding warn
  warn_lem none a short open' = ([], ground (arith, append-nil a.outbox.sent), refl)
  warn_lem (some (start, end)) a short open' =
      let (m, sent, read) =
        send_sealed_lem 0 (lit "sync_warn") (warn_bytes X l start end) a (short start end refl)
          open' in
      (m ∷ [], ap (λ (b : Agent). b.outbox) sent, cc read)
