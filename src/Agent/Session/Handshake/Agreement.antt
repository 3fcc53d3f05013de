-- ===== src/Agent/Session/Handshake/Agreement.antt =====
-- Both ends of the handshake come to one key.
use ktty.Base.{
  ◌≡◌, refl, ◌∙◌, ap, sym, Text, Bytes, Message, text, binary, ping, pong, close, Incoming, frame,
  failed, ended, Bool, true, false, not, ◌&&◌, List, [], ◌∷◌, ◌++◌, none, some, ok, Option, is_some,
  length, All, arith, Option-cases, inl, inr, subst,
}
use mathlib.Core.Option.{some-injective}
use mathlib.Core.List.{append_assoc, append-nil}
use ktty.Common.Crypto.{compute_hmac, verify_hmac, mlkem_encapsulate}
use ktty.Common.Crypto.Encapsulation.{encapsulate_ok}
use ktty.Common.Messages.{RawMessage, HandshakeOffer, handshake_offer, is_handshake}
use ktty.Deps.Ciphers.{EncodingsLaws, HmacLaws, KemLaws}
use ktty.Deps.Crates.{Crates}
use ktty.Agent.Session.State.{Outbox, send, can_slice}
use ktty.Agent.Session.Handshake.{
  waits, agrees, or_same, offer_text, hmac_text, confirm, accept_ciphertext, on_reply, on_message,
  while_waiting, handshake_loop, perform_handshake,
}

abbrev pub open_outbox : List Message → Outbox
open_outbox sent = record { sent = sent; is_open = true }

-- The answers to the pings among these messages.
abbrev pub pongs : List Incoming → List Message
pongs [] = []
pongs (frame (ping d) ∷ ms) = pong d ∷ pongs ms
pongs (m ∷ ms) = pongs ms

pongs-cons : (m : Incoming) (ms : List Incoming) → pongs (m ∷ ms) ≡ pongs (m ∷ []) ++ pongs ms
pongs-cons (frame (text t)) ms = refl
pongs-cons (frame (ping d)) ms = refl
pongs-cons (frame (pong d)) ms = refl
pongs-cons (frame (binary b)) ms = refl
pongs-cons (frame close) ms = refl
pongs-cons failed ms = refl
pongs-cons ended ms = refl

module _ (X : Crates) where
  -- The offer of the pair of keys made from a seed.
  abbrev pub offer_of : X.kem.Seed → HandshakeOffer
  offer_of seed =
      handshake_offer (X.encodings.base64_encode (X.kem.as_bytes (X.kem.generate seed).1))

  abbrev pub has_reply : Option RawMessage → Bool
  has_reply none = false
  has_reply (some raw) = is_handshake raw && is_some raw.mlkem_ciphertext

  -- The messages that the loop passes over.
  abbrev pub is_ignored : Incoming → Bool
  is_ignored (frame (text t)) = can_slice t 80 && not (has_reply (X.serde.raw_from_str t))
  is_ignored (frame m) = true
  is_ignored failed = false
  is_ignored ended = false

  -- A text that carries this ciphertext as the client's reply.
  pub record Replies (t : Text) (ct : Bytes) : Type 0 where
    pub raw : RawMessage
    pub parses : X.serde.raw_from_str t ≡ some raw
    pub kind : is_handshake raw ≡ true
    pub carries : raw.mlkem_ciphertext ≡ some (X.encodings.base64_encode ct)
    pub loggable : can_slice t 80 ≡ true

  -- What the client encapsulates to is the agent's key.
  pub encapsulated :
      EncodingsLaws X.encodings
      → KemLaws X.kem
      → (seed s : X.kem.Seed) (ek_bytes ct ss : Bytes)
      → X.encodings.base64_decode (offer_of seed).mlkem_pub_key ≡ some ek_bytes
      → mlkem_encapsulate X.kem s ek_bytes ≡ ok (ct, ss)
      → X.kem.encapsulate (X.kem.generate seed).1 s ≡ some (ct, ss)
  unfolding handshake_offer
  encapsulated laws kem seed s ek_bytes ct ss read sealed =
      let ek = (X.kem.generate seed).1 in
      let same : ek_bytes ≡ X.kem.as_bytes ek =
        some-injective ek_bytes (X.kem.as_bytes ek)
          (sym read ∙ laws.decode-encode (X.kem.as_bytes ek)) in
      encapsulate_ok X.kem kem ek s ct ss
        (subst (λ b. mlkem_encapsulate X.kem s b ≡ ok (ct, ss)) same sealed)

  module _ (derived_key : Bytes) (auth : Option Text) where
    pub ignored_text :
        (dk : X.kem.Dk) (t : Text) (o : Outbox)
        → has_reply (X.serde.raw_from_str t) ≡ false
        → on_reply X derived_key auth dk t o ≡ waits o
    unfolding on_reply
    ignored_text dk t o h = elim (Option-cases (X.serde.raw_from_str t)) [
      | inl e ↦ rw (on_reply, e)
      | inr (raw, e) ↦ elim (Option-cases raw.mlkem_ciphertext) [
        | inl e' ↦ rw (on_reply, e, e')
        | inr (ct, e') ↦ ground (arith, e, e', h)
      ]
    ]

    on_message-is_ignored :
        (dk : X.kem.Dk) (m : Incoming) (s : List Message)
        → is_ignored m ≡ true
        → on_message X derived_key auth dk m (open_outbox s)
          ≡ waits (open_outbox (s ++ pongs (m ∷ [])))
    unfolding on_message send or_same
    on_message-is_ignored dk (frame (text t)) s h = ground (arith, ignored_text dk t, append-nil s)
    on_message-is_ignored dk (frame (ping d)) s h = refl
    on_message-is_ignored dk (frame (pong d)) s h = rw (append-nil s)
    on_message-is_ignored dk (frame (binary b)) s h = rw (append-nil s)
    on_message-is_ignored dk (frame close) s h = rw (append-nil s)
    on_message-is_ignored dk failed s h = cc
    on_message-is_ignored dk ended s h = cc

    handshake_loop-is_ignored :
        (dk : X.kem.Dk) (ms rest : List Incoming) (s : List Message)
        → All (λ m. is_ignored m ≡ true) ms
        → handshake_loop X derived_key auth dk (ms ++ rest) (open_outbox s)
          ≡ handshake_loop X derived_key auth dk rest (open_outbox (s ++ pongs ms))
    unfolding handshake_loop
    handshake_loop-is_ignored dk [] rest s h = rw (append-nil s)
    handshake_loop-is_ignored dk (m ∷ ms) rest s (h, later) = rw (on_message-is_ignored dk m s h) (
        handshake_loop-is_ignored dk ms rest (s ++ pongs (m ∷ [])) later
        ∙ ap (λ z. handshake_loop X derived_key auth dk rest (open_outbox z))
            (append_assoc s (pongs (m ∷ [])) (pongs ms) ∙ ap (λ z. s ++ z) (sym (pongs-cons m ms))))

    pub on_message-Replies :
        (dk : X.kem.Dk) (t : Text) (ct ss : Bytes) (s : List Message)
        → EncodingsLaws X.encodings
        → Replies t ct
        → length ct ≡ 1088
        → X.kem.decapsulate dk ct ≡ some ss
        → on_message X derived_key auth dk (frame (text t)) (open_outbox s)
          ≡ agrees ss (open_outbox (s ++ text (hmac_text X derived_key auth ss) ∷ []))
    unfolding on_message on_reply accept_ciphertext confirm send
    on_message-Replies dk t ct ss s laws r n opened = rw (
      r.loggable,
      on_reply,
      r.parses,
      r.carries,
      laws.decode-encode ct,
      r.kind,
      accept_ciphertext,
      n,
      opened,
      confirm,
    )

    pub handshake_agrees :
        EncodingsLaws X.encodings
        → KemLaws X.kem
        → HmacLaws X.hmac
        → (seed s : X.kem.Seed) (sent : List Message) (before later : List Incoming)
          (ek_bytes ct ss : Bytes) (t : Text)
        → X.encodings.base64_decode (offer_of seed).mlkem_pub_key ≡ some ek_bytes
        → mlkem_encapsulate X.kem s ek_bytes ≡ ok (ct, ss)
        → All (λ m. is_ignored m ≡ true) before
        → Replies t ct
        → (perform_handshake X derived_key auth seed
              (before ++ frame (text t) ∷ later)
              (open_outbox sent)
            ≡ agrees ss (
                open_outbox (
                  ((sent ++ text (offer_text X derived_key auth (offer_of seed)) ∷ [])
                    ++ pongs before)
                  ++ text (hmac_text X derived_key auth ss) ∷ [])))
          × (length ss ≡ 32)
          × (verify_hmac X.hmac derived_key ss (compute_hmac X.hmac derived_key ss) ≡ true)
    unfolding perform_handshake send handshake_loop verify_hmac compute_hmac
    handshake_agrees laws kem hmac seed s sent before later ek_bytes ct ss t read sealed idle r =
        let sealed_by = encapsulated laws kem seed s ek_bytes ct ss read sealed in
        let (n, n') = kem.length-encapsulate _ s ct ss sealed_by in
        let opened = kem.decapsulate-encapsulate seed s ct ss sealed_by in
        let dk = (X.kem.generate seed).0 in
        let offered = sent ++ text (offer_text X derived_key auth (offer_of seed)) ∷ [] in
        (
          handshake_loop-is_ignored dk before (frame (text t) ∷ later) offered idle
              ∙ ap (λ h. while_waiting h (λ o. handshake_loop X derived_key auth dk later o))
                  (on_message-Replies dk t ct ss (offered ++ pongs before) laws r n opened),
          n',
          (hmac.verify_iff derived_key ss _).1 refl,
        )
