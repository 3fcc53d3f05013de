-- ===== src/Agent/Session/Handshake/Replies.antt =====
-- What the handshake asks of the other side.
use ktty.Base.{
  ℕ, suc, ◌≡◌, ◌⊎◌, refl, sym, ap, ◌∙◌, Text, Bytes, text, binary, ping, pong, close, Incoming,
  frame, failed, ended, true, List, [], ◌∷◌, ◌++◌, some, Option, length, get_elem?, arith,
  Option-cases, Bool-cases, inl, inr,
}
use ktty.Common.Messages.{RawMessage, handshake_offer, is_handshake}
use ktty.Deps.Crates.{Crates}
use ktty.Agent.Session.State.{Outbox, send, can_slice}
use ktty.Agent.Session.Handshake.{
  Handshake, waits, agrees, aborts, breaks, offer_text, hmac_text, confirm, accept_ciphertext,
  on_reply, on_message, while_waiting, handshake_loop, perform_handshake,
}

module _ (X : Crates) (auth : Option Text) where
  -- The outbox once the tag is sent.
  abbrev pub confirmed : Bytes → Bytes → Outbox → Outbox
  confirmed k key o = record o { sent = o.sent ++ text (hmac_text X k auth key) ∷ [] }

  -- A text that brings this key: the client's reply, with a ciphertext that is the key's.
  abbrev pub Brings : X.kem.Dk → Text → Bytes → Type 0
  Brings dk t key =
      (raw : RawMessage) × (ct_b64 : Text) × (ct : Bytes) × (X.serde.raw_from_str t ≡ some raw)
      × (is_handshake raw ≡ true)
      × (raw.mlkem_ciphertext ≡ some ct_b64)
      × (X.encodings.base64_decode ct_b64 ≡ some ct)
      × (length ct ≡ 1088)
      × (X.kem.decapsulate dk ct ≡ some key)

  module _ (k : Bytes) (dk : X.kem.Dk) where
    confirm-agrees :
        (ss key : Bytes) (o o' : Outbox)
        → confirm X k auth ss o ≡ agrees key o'
        → (ss ≡ key) × (o' ≡ confirmed k key o)
    unfolding confirm send
    confirm-agrees ss key o o' h = elim (Bool-cases o.is_open) [
      | inl e ↦ ground (arith, e, h)
      | inr e ↦ absurd (ground (arith, e, h))
    ]

    on_reply-agrees :
        (t : Text) (key : Bytes) (o o' : Outbox)
        → on_reply X k auth dk t o ≡ agrees key o'
        → Brings dk t key × (o' ≡ confirmed k key o)
    unfolding on_reply accept_ciphertext
    on_reply-agrees t key o o' h = elim (Option-cases (X.serde.raw_from_str t)) [
      | inl e ↦ absurd (ground (arith, e, h))
      | inr (raw, e) ↦ elim (Option-cases raw.mlkem_ciphertext) [
        | inl e' ↦ absurd (ground (arith, e, e', h))
        | inr (ct_b64, e') ↦ elim (Option-cases (X.encodings.base64_decode ct_b64)) [
          | inl e3 ↦ absurd (ground (arith, e, e', e3, h))
          | inr (ct, e3) ↦ elim (Option-cases (X.kem.decapsulate dk ct)) [
            | inl e4 ↦ absurd (ground (arith, e, e', e3, e4, h))
            | inr (ss, e4) ↦
                let kind : is_handshake raw ≡ true = ground (arith, e, e', e3, e4, h) in
                let n : length ct ≡ 1088 = ground (arith, e, e', e3, e4, h) in
                let made : confirm X k auth ss o ≡ agrees key o' =
                  ground (arith, e, e', e3, e4, h) in
                let (same, out) = confirm-agrees ss key o o' made in
                ((raw, ct_b64, ct, e, kind, e', e3, n, e4 ∙ ap some same), out)
          ]
        ]
      ]
    ]

    pub on_message-agrees :
        (m : Incoming) (key : Bytes) (o o' : Outbox)
        → on_message X k auth dk m o ≡ agrees key o'
        → (t : Text) × (m ≡ frame (text t)) × Brings dk t key × (o' ≡ confirmed k key o)
    unfolding on_message
    on_message-agrees (frame (text t)) key o o' h = elim (Bool-cases (can_slice t 80)) [
      | inl e ↦
          let replied : on_reply X k auth dk t o ≡ agrees key o' = ground (arith, e, h) in
          let (brings, out) = on_reply-agrees t key o o' replied in (t, refl, brings, out)
      | inr e ↦ absurd (ground (arith, e, h))
    ]
    on_message-agrees (frame (ping d)) key o o' h = cc
    on_message-agrees (frame (pong d)) key o o' h = cc
    on_message-agrees (frame (binary b)) key o o' h = cc
    on_message-agrees (frame close) key o o' h = cc
    on_message-agrees failed key o o' h = cc
    on_message-agrees ended key o o' h = cc

    while_waiting-agrees :
        (g : Handshake) (next : Outbox → Handshake) (key : Bytes) (o' : Outbox)
        → while_waiting g next ≡ agrees key o'
        → (g ≡ agrees key o') ⊎ ((o1 : Outbox) × (next o1 ≡ agrees key o'))
    while_waiting-agrees (waits o) next key o' h = inr (o, h)
    while_waiting-agrees (agrees key' o) next key o' h = inl h
    while_waiting-agrees (aborts o) next key o' h = inl h
    while_waiting-agrees breaks next key o' h = inl h

    handshake_loop-agrees :
        (ms : List Incoming) (key : Bytes) (o o' : Outbox)
        → handshake_loop X k auth dk ms o ≡ agrees key o'
        → (i : ℕ) × (t : Text) × (o1 : Outbox) × (get_elem? ms i ≡ some (frame (text t)))
          × Brings dk t key
          × (o' ≡ confirmed k key o1)
    unfolding handshake_loop
    handshake_loop-agrees [] key o o' h = cc
    handshake_loop-agrees (m ∷ ms) key o o' h =
        elim (while_waiting-agrees (on_message X k auth dk m o) (handshake_loop X k auth dk ms) key
          o' h) [
            | inl now ↦
                let (t, e, brings, out) = on_message-agrees m key o o' now in
                (0, t, o, ap some e, brings, out)
            | inr (o1, later) ↦
                let (i, t, o2, found, brings, out) = handshake_loop-agrees ms key o1 o' later in
                (suc i, t, o2, found, brings, out)
          ]

  -- The outbox once the offer is sent.
  abbrev offered : Bytes → X.kem.Seed → Outbox → Outbox
  offered k seed o = record o {
    sent =
        o.sent
        ++ text (
            offer_text X k auth (
              handshake_offer (X.encodings.base64_encode (X.kem.as_bytes (X.kem.generate seed).1))))
          ∷ [];
  }

  handshake_loop-perform :
      (k : Bytes) (seed : X.kem.Seed) (ms : List Incoming) (o : Outbox)
      → o.is_open ≡ true
      → perform_handshake X k auth seed ms o
        ≡ handshake_loop X k auth (X.kem.generate seed).0 ms (offered k seed o)
  unfolding perform_handshake send
  handshake_loop-perform k seed ms o e = rw e

  -- A handshake that ends with a key has received the key's ciphertext: one of the messages is a
  -- text of the handshake whose payload decodes to 1088 bytes, which decapsulate to that key under
  -- the pair made for this handshake. The last message sent is the key's tag.
  pub key_needs_reply :
      (k : Bytes) (seed : X.kem.Seed) (ms : List Incoming) (o o' : Outbox) (key : Bytes)
      → perform_handshake X k auth seed ms o ≡ agrees key o'
      → (i : ℕ) × (t : Text) × (o1 : Outbox) × (get_elem? ms i ≡ some (frame (text t)))
        × Brings (X.kem.generate seed).0 t key
        × (o'.sent ≡ o1.sent ++ text (hmac_text X k auth key) ∷ [])
  unfolding perform_handshake send
  key_needs_reply k seed ms o o' key h = elim (Bool-cases o.is_open) [
    | inr e ↦ absurd (ground (arith, e, h))
    | inl e ↦
        let looped = sym (handshake_loop-perform k seed ms o e) ∙ h in
        let (i, t, o1, found, brings, out) =
          handshake_loop-agrees k (X.kem.generate seed).0 ms key (offered k seed o) o' looped in
        (i, t, o1, found, brings, ap (λ (z : Outbox). z.sent) out)
  ]
