-- ===== src/Agent/Session/Guards.antt =====
-- What gets through to the terminal, and what stops the agent.
use ktty.Base.{
  ℕ, ◌≡◌, ◌⊎◌, ◌↔◌, inl, inr, refl, ap, Text, Bytes, text, binary, ping, pong, close, Incoming,
  frame, failed, ended, lit, false, [], ◌∷◌, ◌++◌, none, some, ok, arith, Option-cases, Bool-cases,
  Result-cases, text_eq, text_eq→eq,
}
use ktty.Common.Crypto.{decrypt}
use ktty.Common.Messages.{EncryptedEnvelope, ResizePayload}
use ktty.Deps.Crates.{Crates}
use ktty.Agent.Session.State.{
  Agent, Link, PtyOp, write_input, resize, kill_process_group, goes_on, exits, panics, BridgeExit,
  mentions, can_slice,
}
use ktty.Agent.Session.Bridge.{
  BridgeEvent, socket, tick, pty_output, pty_closed, writer_ended, dispatch, on_envelope, on_text,
  on_socket, bridge_step,
}
use ktty.Agent.Session.Rounds.{handle_sync_req-Sends}

module _ (X : Crates) (l : Link) where
  -- The call that a decrypted message asks for.
  abbrev pub Asks : Text → Bytes → PtyOp → Type 0
  Asks type plain op =
      ((type ≡ lit "pty") × (op ≡ write_input plain))
      ⊎ ((type ≡ lit "resize")
          × ((r : ResizePayload) × (X.serde.resize_from_slice plain ≡ some r)
              × (op ≡ resize r.cols r.rows)))
      ⊎ ((type ≡ lit "sys_kill") × (op ≡ kill_process_group))

  dispatch-Asks :
      (type : Text) (plain : Bytes) (a : Agent)
      → ((dispatch X l type plain a).pty ≡ a.pty)
        ⊎ ((op : PtyOp) × ((dispatch X l type plain a).pty ≡ a.pty ++ op ∷ []) × Asks type plain op)
  unfolding dispatch
  dispatch-Asks type plain a = elim (Bool-cases (text_eq type (lit "pty"))) [
    | inl e ↦ rw e (inr (write_input plain, refl, inl (text_eq→eq type _ e, refl)))
    | inr e ↦ rw e (elim (Bool-cases (text_eq type (lit "resize"))) [
      | inl e' ↦ rw e' (elim (Option-cases (X.serde.resize_from_slice plain)) [
        | inl n ↦ rw n (inl refl)
        | inr (r, s) ↦
            rw s
              (inr (resize r.cols r.rows, refl, inr (inl (text_eq→eq type _ e', (r, refl, refl)))))
      ])
      | inr e' ↦ rw e' (elim (Bool-cases (text_eq type (lit "sys_kill"))) [
        | inl k ↦ rw k (inr (kill_process_group, refl, inr (inr (text_eq→eq type _ k, refl))))
        | inr k ↦ rw k (elim (Bool-cases (text_eq type (lit "sync_req"))) [
          | inl s ↦ rw s (inl (handle_sync_req-Sends X l plain a).2)
          | inr s ↦ rw s (inl refl)
        ])
      ])
    ])
  ]

  -- The envelope is of this session, and its payload decrypts under the session's key to a message
  -- that asks for the call.
  abbrev pub Authorises : EncryptedEnvelope → PtyOp → Type 0
  Authorises env op =
      (packed : Bytes) × (plain : Bytes) × (env.session_id ≡ l.session_id)
      × (X.encodings.base64_decode env.payload ≡ some packed)
      × (decrypt X.aead l.key packed ≡ ok plain)
      × Asks env.type plain op

  pub on_envelope-Authorises :
      (env : EncryptedEnvelope) (a : Agent)
      → ((on_envelope X l env a).pty ≡ a.pty)
        ⊎ ((op : PtyOp) × ((on_envelope X l env a).pty ≡ a.pty ++ op ∷ []) × Authorises env op)
  unfolding on_envelope
  on_envelope-Authorises env a = elim (Bool-cases (text_eq env.session_id l.session_id)) [
    | inr other ↦ inl (rw other)
    | inl same ↦ elim (Option-cases (X.encodings.base64_decode env.payload)) [
      | inl e ↦ inl (rw (same, e))
      | inr (packed, e) ↦ elim (Result-cases (decrypt X.aead l.key packed)) [
        | inl (why, e') ↦ inl (rw (same, e, e'))
        | inr (plain, e') ↦ elim (dispatch-Asks env.type plain a) [
          | inl kept ↦ inl (rw (same, e, e', on_envelope) kept)
          | inr (op, added, asks) ↦ inr (
            op,
            rw (same, e, e', on_envelope) added,
            (packed, plain, text_eq→eq _ _ same, e, e', asks),
          )
        ]
      ]
    ]
  ]

  pub on_text-exits :
      (why : BridgeExit) (t : Text) (a b : Agent) → on_text X l t a ≡ exits why b → b ≡ a
  unfolding on_text
  on_text-exits why t a b h = elim (Option-cases (X.serde.envelope_from_str t)) [
    | inl e ↦ ground (arith, e)
    | inr (env, e) ↦ ground (arith, e)
  ]

  pub on_text-goes_on :
      (t : Text) (a b : Agent)
      → on_text X l t a ≡ goes_on b
      → (b ≡ a)
        ⊎ ((env : EncryptedEnvelope) × (X.serde.envelope_from_str t ≡ some env)
            × (b ≡ on_envelope X l env a))
  unfolding on_text
  on_text-goes_on t a b h = elim (Option-cases (X.serde.envelope_from_str t)) [
    | inl e ↦ inl (ground (arith, e))
    | inr (env, e) ↦ inr (env, e, ground (arith, e))
  ]

  -- A message that the bridge can neither act on nor cut at its 80th byte for the log.
  abbrev pub Uncuttable : Text → Type 0
  Uncuttable t =
      (mentions t "type" "disconnect" ≡ false)
      × (mentions t "type" "peer_disconnect" ≡ false)
      × (mentions t "action" "join" ≡ false)
      × (X.serde.envelope_from_str t ≡ none)
      × (can_slice t 80 ≡ false)

  on_text-panics : (t : Text) (a : Agent) → on_text X l t a ≡ panics → Uncuttable t
  unfolding on_text
  on_text-panics t a h = ground arith

  Uncuttable-panics : (t : Text) (a : Agent) → Uncuttable t → on_text X l t a ≡ panics
  unfolding on_text
  Uncuttable-panics t a (h, h', h'', e, s) = rw (h, h', h'', e, s)

  on_socket-panics :
      (item : Incoming) (a : Agent)
      → on_socket X l item a ≡ panics
      → (t : Text) × (item ≡ frame (text t)) × Uncuttable t
  unfolding on_socket
  on_socket-panics (frame (text t)) a h = (t, refl, on_text-panics t a h)
  on_socket-panics (frame (ping d)) a h = cc
  on_socket-panics (frame (pong d)) a h = cc
  on_socket-panics (frame (binary b)) a h = cc
  on_socket-panics (frame close) a h = cc
  on_socket-panics failed a h = cc
  on_socket-panics ended a h = cc

  bridge_step-panics :
      (e : BridgeEvent) (a : Agent)
      → bridge_step X l e a ≡ panics
      → (now : ℕ) × (t : Text) × (e ≡ socket now (frame (text t))) × Uncuttable t
  unfolding bridge_step
  bridge_step-panics (pty_output output) a h = absurd (ground arith)
  bridge_step-panics pty_closed a h = cc
  bridge_step-panics (socket now item) a h =
      let (t, e, u) = on_socket-panics item (record a { last_ws_rx = now }) h in
      (now, t, ap (socket now) e, u)
  bridge_step-panics (tick now) a h = absurd (ground arith)
  bridge_step-panics writer_ended a h = cc

  Uncuttable-bridge_panics :
      (e : BridgeEvent) (a : Agent)
      → (now : ℕ) × (t : Text) × (e ≡ socket now (frame (text t))) × Uncuttable t
      → bridge_step X l e a ≡ panics
  unfolding bridge_step
  Uncuttable-bridge_panics e a (now, t, same, u) =
      rw same (Uncuttable-panics t (record a { last_ws_rx = now }) u)

  -- A round of the bridge panics exactly when a text frame comes that is neither one of the three
  -- control messages nor an envelope, and whose 80th byte lies inside a character.
  pub bridge_panics_iff :
      (e : BridgeEvent) (a : Agent)
      → (bridge_step X l e a ≡ panics)
        ↔ ((now : ℕ) × (t : Text) × (e ≡ socket now (frame (text t))) × Uncuttable t)
  bridge_panics_iff e a = (bridge_step-panics e a, Uncuttable-bridge_panics e a)
