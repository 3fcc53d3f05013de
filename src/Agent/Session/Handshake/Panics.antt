-- ===== src/Agent/Session/Handshake/Panics.antt =====
-- When a message to the handshake panics.
use ktty.Base.{
  ◌≡◌, ◌≢◌, ◌⊎◌, ◌↔◌, refl, Text, Bytes, text, binary, ping, pong, close, Incoming, frame, failed,
  ended, true, false, some, Option, length, ◌==◌, arith, Option-cases, Bool-cases, inl, inr,
}
use ktty.Common.Messages.{RawMessage, is_handshake}
use ktty.Deps.Crates.{Crates}
use ktty.Agent.Session.State.{Outbox, send, can_slice}
use ktty.Agent.Session.Handshake.{breaks, confirm, accept_ciphertext, on_reply, on_message}

module _ (X : Crates) (k : Bytes) (auth : Option Text) (dk : X.kem.Dk) where
  -- A reply whose ciphertext has another length than the key exchange's.
  abbrev pub HasWrongLength : Text → Type 0
  HasWrongLength t =
      (raw : RawMessage) × (ct_b64 : Text) × (ct : Bytes) × (X.serde.raw_from_str t ≡ some raw)
      × (is_handshake raw ≡ true)
      × (raw.mlkem_ciphertext ≡ some ct_b64)
      × (X.encodings.base64_decode ct_b64 ≡ some ct)
      × ((length ct == 1088) ≡ false)

  confirm_unbroken : (ss : Bytes) (o : Outbox) → confirm X k auth ss o ≢ breaks
  unfolding confirm send
  confirm_unbroken ss o h = elim (Bool-cases o.is_open) [
    | inl e ↦ ground (arith, e, h)
    | inr e ↦ ground (arith, e, h)
  ]

  on_reply-breaks : (t : Text) (o : Outbox) → on_reply X k auth dk t o ≡ breaks → HasWrongLength t
  unfolding on_reply accept_ciphertext
  on_reply-breaks t o h = elim (Option-cases (X.serde.raw_from_str t)) [
    | inl e ↦ absurd (ground (arith, e, h))
    | inr (raw, e) ↦ elim (Option-cases raw.mlkem_ciphertext) [
      | inl e' ↦ absurd (ground (arith, e, e', h))
      | inr (ct_b64, e') ↦ elim (Option-cases (X.encodings.base64_decode ct_b64)) [
        | inl e3 ↦ absurd (ground (arith, e, e', e3, h))
        | inr (ct, e3) ↦ elim (Option-cases (X.kem.decapsulate dk ct)) [
          | inl e4 ↦ (
            raw,
            ct_b64,
            ct,
            e,
            ground (arith, e, e', e3, e4, h),
            e',
            e3,
            ground (arith, e, e', e3, e4, h),
          )
          | inr (ss, e4) ↦ (
            raw,
            ct_b64,
            ct,
            e,
            ground (arith, e, e', e3, e4, h),
            e',
            e3,
            ground (arith, e, e', e3, e4, h, confirm_unbroken ss o),
          )
        ]
      ]
    ]
  ]

  on_message-breaks :
      (m : Incoming) (o : Outbox)
      → on_message X k auth dk m o ≡ breaks
      → (t : Text) × (m ≡ frame (text t)) × ((can_slice t 80 ≡ false) ⊎ HasWrongLength t)
  unfolding on_message
  on_message-breaks (frame (text t)) o h = elim (Bool-cases (can_slice t 80)) [
    | inr e ↦ (t, refl, inl e)
    | inl e ↦
        let replied : on_reply X k auth dk t o ≡ breaks = ground (arith, e, h) in
        (t, refl, inr (on_reply-breaks t o replied))
  ]
  on_message-breaks (frame (ping d)) o h = cc
  on_message-breaks (frame (pong d)) o h = cc
  on_message-breaks (frame (binary b)) o h = cc
  on_message-breaks (frame close) o h = cc
  on_message-breaks failed o h = cc
  on_message-breaks ended o h = cc

  breaks-on_message :
      (t : Text) (o : Outbox)
      → (can_slice t 80 ≡ false) ⊎ HasWrongLength t
      → on_message X k auth dk (frame (text t)) o ≡ breaks
  unfolding on_message accept_ciphertext
  breaks-on_message t o (inl e) = rw e
  breaks-on_message t o (inr (raw, ct_b64, ct, e, kind, e', e3, n)) =
      elim (Bool-cases (can_slice t 80)) [
        | inr cut ↦ rw cut
        | inl cut ↦ rw (cut, on_reply, e, e', kind, e3, accept_ciphertext, n)
      ]

  -- A message to the handshake panics exactly when it is a text that cannot be cut at its 80th byte
  -- for the log, or a reply whose payload decodes to other than 1088 bytes.
  pub handshake_panics_iff :
      (m : Incoming) (o : Outbox)
      → (on_message X k auth dk m o ≡ breaks)
        ↔ ((t : Text) × (m ≡ frame (text t)) × ((can_slice t 80 ≡ false) ⊎ HasWrongLength t))
  handshake_panics_iff m o =
      (on_message-breaks m o, λ (t, e, why). rw e (breaks-on_message t o why))
