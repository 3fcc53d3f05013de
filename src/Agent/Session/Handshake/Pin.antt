-- ===== src/Agent/Session/Handshake/Pin.antt =====
-- What the handshake does not ask of the other side.
use ktty.Base.{
  ◌≡◌, ◌⊎◌, refl, sym, ap, ◌∙◌, Text, Bytes, text, binary, ping, pong, close, Incoming, frame,
  failed, ended, List, [], ◌∷◌, none, some, Option, length, ◌==◌, Option-cases, Bool-cases, inl,
  inr,
}
use ktty.Common.Messages.{is_handshake}
use ktty.Deps.Crates.{Crates}
use ktty.Agent.Session.State.{Outbox, send, can_slice}
use ktty.Agent.Session.Handshake.{
  Handshake, waits, agrees, aborts, breaks, offer_text, confirm, accept_ciphertext, on_reply,
  on_message, while_waiting, handshake_loop, perform_handshake,
}
use ktty.Agent.Session.Handshake.Replies.{confirmed}

abbrev pub key_of : Handshake → Option Bytes
key_of (agrees key o) = some key
key_of _ = none

-- Equal, or agreed on one key.
abbrev Alike : Handshake → Handshake → Type 0
Alike g h =
    (g ≡ h)
    ⊎ ((key : Bytes) × (o : Outbox) × (o' : Outbox) × (g ≡ agrees key o) × (h ≡ agrees key o'))

Alike-key_of : (g h : Handshake) → Alike g h → key_of g ≡ key_of h
Alike-key_of g h (inl e) = ap key_of e
Alike-key_of g h (inr (key, o, o', e, e')) = ap key_of e ∙ sym (ap key_of e')

module _ (X : Crates) (auth : Option Text) where
  confirm-Alike :
      (k1 k2 key : Bytes) (o : Outbox) → Alike (confirm X k1 auth key o) (confirm X k2 auth key o)
  unfolding confirm send
  confirm-Alike k1 k2 key o = elim (Bool-cases o.is_open) [
    | inl e ↦ inr (key, confirmed X auth k1 key o, confirmed X auth k2 key o, rw e, rw e)
    | inr e ↦ inl (rw e)
  ]

  accept_ciphertext-Alike :
      (k1 k2 : Bytes) (dk : X.kem.Dk) (ct : Bytes) (o : Outbox)
      → Alike (accept_ciphertext X k1 auth dk ct o) (accept_ciphertext X k2 auth dk ct o)
  unfolding accept_ciphertext
  accept_ciphertext-Alike k1 k2 dk ct o = elim (Bool-cases (length ct == 1088)) [
    | inr e ↦ inl (rw e)
    | inl e ↦ elim (Option-cases (X.kem.decapsulate dk ct)) [
      | inl e' ↦ inl (rw (e, e'))
      | inr (ss, e') ↦ rw (e, e') (confirm-Alike k1 k2 ss o)
    ]
  ]

  on_reply-Alike :
      (k1 k2 : Bytes) (dk : X.kem.Dk) (t : Text) (o : Outbox)
      → Alike (on_reply X k1 auth dk t o) (on_reply X k2 auth dk t o)
  unfolding on_reply
  on_reply-Alike k1 k2 dk t o = elim (Option-cases (X.serde.raw_from_str t)) [
    | inl e ↦ inl (rw (on_reply, e))
    | inr (raw, e) ↦ elim (Option-cases raw.mlkem_ciphertext) [
      | inl e' ↦ inl (rw (on_reply, e, e'))
      | inr (ct_b64, e') ↦ elim (Bool-cases (is_handshake raw)) [
        | inr e'' ↦ inl (rw (on_reply, e, e', e''))
        | inl e'' ↦ elim (Option-cases (X.encodings.base64_decode ct_b64)) [
          | inl e3 ↦ inl (rw (on_reply, e, e', e'', e3))
          | inr (ct, e3) ↦ rw (on_reply, e, e', e'', e3) (accept_ciphertext-Alike k1 k2 dk ct o)
        ]
      ]
    ]
  ]

  on_message-Alike :
      (k1 k2 : Bytes) (dk : X.kem.Dk) (m : Incoming) (o : Outbox)
      → Alike (on_message X k1 auth dk m o) (on_message X k2 auth dk m o)
  unfolding on_message
  on_message-Alike k1 k2 dk (frame (text t)) o = elim (Bool-cases (can_slice t 80)) [
    | inl e ↦ rw e (on_reply-Alike k1 k2 dk t o)
    | inr e ↦ inl (rw e)
  ]
  on_message-Alike k1 k2 dk (frame (ping d)) o = inl refl
  on_message-Alike k1 k2 dk (frame (pong d)) o = inl refl
  on_message-Alike k1 k2 dk (frame (binary b)) o = inl refl
  on_message-Alike k1 k2 dk (frame close) o = inl refl
  on_message-Alike k1 k2 dk failed o = inl refl
  on_message-Alike k1 k2 dk ended o = inl refl

  Alike-while_waiting :
      (g h : Handshake) (f f' : Outbox → Handshake)
      → Alike g h
      → ((o : Outbox) → Alike (f o) (f' o))
      → Alike (while_waiting g f) (while_waiting h f')
  Alike-while_waiting g h f f' (inr (key, o, o', e, e')) go = inr (key, o, o', rw e, rw e')
  Alike-while_waiting (waits o) h f f' (inl e) go = rw (← e) (go o)
  Alike-while_waiting (agrees key o) h f f' (inl e) go = rw (← e) (inl refl)
  Alike-while_waiting (aborts o) h f f' (inl e) go = rw (← e) (inl refl)
  Alike-while_waiting breaks h f f' (inl e) go = rw (← e) (inl refl)

  handshake_loop-Alike :
      (k1 k2 : Bytes) (dk : X.kem.Dk) (ms : List Incoming) (o : Outbox)
      → Alike (handshake_loop X k1 auth dk ms o) (handshake_loop X k2 auth dk ms o)
  unfolding handshake_loop
  handshake_loop-Alike k1 k2 dk [] o = inl refl
  handshake_loop-Alike k1 k2 dk (m ∷ ms) o =
      Alike-while_waiting (on_message X k1 auth dk m o) (on_message X k2 auth dk m o) _ _
        (on_message-Alike k1 k2 dk m o) (λ o'. handshake_loop-Alike k1 k2 dk ms o')

  -- The handshake never asks the client for anything that depends on the PIN: on the same messages,
  -- an agent with another derived key comes to the same session key, or to none where this one comes
  -- to none.
  pub handshake_ignores_pin :
      (k1 k2 : Bytes) (seed : X.kem.Seed) (ms : List Incoming) (o : Outbox)
      → key_of (perform_handshake X k1 auth seed ms o)
        ≡ key_of (perform_handshake X k2 auth seed ms o)
  unfolding perform_handshake send offer_text
  handshake_ignores_pin k1 k2 seed ms o = elim (Bool-cases o.is_open) [
    | inr e ↦ rw e
    | inl e ↦ rw e (Alike-key_of _ _ (handshake_loop-Alike k1 k2 (X.kem.generate seed).0 ms _))
  ]
