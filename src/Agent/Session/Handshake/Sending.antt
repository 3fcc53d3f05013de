-- ===== src/Agent/Session/Handshake/Sending.antt =====
-- What the handshake sends for each message.
use ktty.Base.{
  ◌≡◌, ◌⊎◌, inl, inr, refl, sym, Text, Bytes, Message, text, binary, ping, pong, close, Incoming,
  frame, failed, ended, true, List, [], ◌∷◌, ◌++◌, Option, length, ◌==◌, All, Bool-cases,
  Option-cases,
}
use mathlib.Core.List.{append-nil}
use ktty.Common.Messages.{is_handshake}
use ktty.Deps.Crates.{Crates}
use ktty.Agent.Session.State.{Outbox, send, can_slice}
use ktty.Agent.Session.Handshake.{
  Handshake, waits, agrees, aborts, breaks, or_same, hmac_text, confirm, accept_ciphertext,
  on_reply, on_message,
}
use ktty.Agent.Session.Wait.Keeping.{is_control}

-- The messages added to the outbox, each of which fits.
abbrev pub Added : (Message → Type 0) → Outbox → Outbox → Type 0
Added P o o' = (ms : List Message) × (o'.sent ≡ o.sent ++ ms) × All P ms

abbrev pub Leaving : (Message → Type 0) → Outbox → Handshake → Type 0
Leaving P o (waits o') = Added P o o'
Leaving P o (agrees key o') = Added P o o'
Leaving P o (aborts o') = Added P o o'
Leaving P o breaks = Unit {0}

none-Added : (P : Message → Type 0) (o : Outbox) → Added P o o
none-Added P o = ([], sym (append-nil o.sent), tt)

module _ (X : Crates) (k : Bytes) (auth : Option Text) (dk : X.kem.Dk) where
  -- A pong, or the tag of a key.
  abbrev pub IsAnswer : Message → Type 0
  IsAnswer m = (is_control m ≡ true) ⊎ ((key : Bytes) × (m ≡ text (hmac_text X k auth key)))

  confirm-Leaving : (key : Bytes) (o : Outbox) → Leaving IsAnswer o (confirm X k auth key o)
  unfolding confirm send
  confirm-Leaving key o = elim (Bool-cases o.is_open) [
    | inr shut ↦ rw (confirm, shut) (none-Added IsAnswer o)
    | inl open' ↦
        rw (confirm, open') (text (hmac_text X k auth key) ∷ [], refl, (inr (key, refl), tt))
  ]

  accept_ciphertext-Leaving :
      (ct : Bytes) (o : Outbox) → Leaving IsAnswer o (accept_ciphertext X k auth dk ct o)
  unfolding accept_ciphertext
  accept_ciphertext-Leaving ct o = elim (Bool-cases (length ct == 1088)) [
    | inr e ↦ rw (accept_ciphertext, e) tt
    | inl e ↦ elim (Option-cases (X.kem.decapsulate dk ct)) [
      | inl e' ↦ rw (accept_ciphertext, e, e') (none-Added IsAnswer o)
      | inr (ss, e') ↦ rw (accept_ciphertext, e, e') (confirm-Leaving ss o)
    ]
  ]

  on_reply-Leaving : (t : Text) (o : Outbox) → Leaving IsAnswer o (on_reply X k auth dk t o)
  unfolding on_reply
  on_reply-Leaving t o = elim (Option-cases (X.serde.raw_from_str t)) [
    | inl e ↦ rw (on_reply, e) (none-Added IsAnswer o)
    | inr (raw, e) ↦ elim (Option-cases raw.mlkem_ciphertext) [
      | inl e' ↦ rw (on_reply, e, e') (none-Added IsAnswer o)
      | inr (ct_b64, e') ↦ elim (Bool-cases (is_handshake raw)) [
        | inr e3 ↦ rw (on_reply, e, e', e3) (none-Added IsAnswer o)
        | inl e3 ↦ elim (Option-cases (X.encodings.base64_decode ct_b64)) [
          | inl e4 ↦ rw (on_reply, e, e', e3, e4) (none-Added IsAnswer o)
          | inr (ct, e4) ↦ rw (on_reply, e, e', e3, e4) (accept_ciphertext-Leaving ct o)
        ]
      ]
    ]
  ]

  pub on_message-Leaving :
      (m : Incoming) (o : Outbox) → Leaving IsAnswer o (on_message X k auth dk m o)
  unfolding on_message or_same send
  on_message-Leaving (frame (text t)) o = elim (Bool-cases (can_slice t 80)) [
    | inr cut ↦ rw (on_message, cut) tt
    | inl cut ↦ rw (on_message, cut) (on_reply-Leaving t o)
  ]
  on_message-Leaving (frame (ping d)) o = elim (Bool-cases o.is_open) [
    | inr shut ↦ rw shut (none-Added IsAnswer o)
    | inl open' ↦ rw open' (pong d ∷ [], refl, (inl refl, tt))
  ]
  on_message-Leaving (frame (pong d)) o = none-Added IsAnswer o
  on_message-Leaving (frame (binary b)) o = none-Added IsAnswer o
  on_message-Leaving (frame close) o = none-Added IsAnswer o
  on_message-Leaving failed o = none-Added IsAnswer o
  on_message-Leaving ended o = none-Added IsAnswer o
