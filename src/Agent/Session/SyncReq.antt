-- ===== src/Agent/Session/SyncReq.antt =====
-- `handle_sync_req`
use ktty.Base.{
  ℕ, suc, Text, Bytes, text, lit, List, [], ◌∷◌, Option, none, some, ok, err, if◌then◌else◌,
  text_eq,
}
use mathlib.Core.Option
use ktty.Common.Messages.{envelope, with_auth}
use ktty.Deps.Crates.{Crates}
use ktty.Agent.RingBuffer.{Packet, packets_since}
use ktty.Agent.Session.State.{Agent, Link, send_or_drop, seal}

module _ (X : Crates) (l : Link) where
  -- The text of an envelope that carries encrypted bytes.
  unfoldable pub envelope_text : ℕ → Text → Bytes → Text
  envelope_text seq msg_type enc =
      Option.get_or
        (X.serde.envelope_to_string
          (with_auth (envelope seq l.session_id msg_type (X.encodings.base64_encode enc)) l.auth))
        []

  -- Encrypt and send, and go on where either fails.
  unfoldable pub send_sealed : ℕ → Text → Bytes → Agent → Agent
  unfolding envelope_text send_or_drop
  send_sealed seq msg_type plain a =
      let drawn = record a { drawn = suc a.drawn } in
      elim (seal X l a plain) [
        | err e ↦ drawn
        | ok enc ↦ send_or_drop (text (envelope_text seq msg_type enc)) drawn
      ]

  unfoldable pub warn_bytes : ℕ → ℕ → Bytes
  warn_bytes start end = X.json.to_string (
      X.json.object
        ((lit "dropped_start", X.json.number start) ∷ (lit "dropped_end", X.json.number end) ∷ []))

  unfoldable pub warn : Option (ℕ × ℕ) → Agent → Agent
  warn none a = a
  warn (some (start, end)) a = send_sealed 0 (lit "sync_warn") (warn_bytes start end) a

  unfoldable pub replay : List Packet → Agent → Agent
  replay [] a = a
  replay (pkt ∷ packets) a = replay packets (send_sealed pkt.seq pkt.msg_type pkt.payload a)

  unfoldable pub handle_sync_req : Bytes → Agent → Agent
  handle_sync_req plain a = elim (X.serde.sync_req_from_slice plain) [
    | none ↦ a
    | some sync_data ↦
        let (packets, dropped) = packets_since a.ring sync_data.last_seq in
        if text_eq sync_data.session_id l.session_id then replay packets (warn dropped a) else a
  ]
