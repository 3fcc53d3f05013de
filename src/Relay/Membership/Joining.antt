-- ===== src/Relay/Membership/Joining.antt =====
-- A new peer's slot, and the peer that makes room for it.
use ktty.Base.{
  ℕ, suc, ◌+◌, ◌≤◌, ◌≡◌, ◌⊎◌, refl, ◌∙◌, Bytes, Bool, true, List, [], ◌∷◌, length, get_elem?, ltb,
  leb, arith, Bool-cases, Option-cases, inl, inr, some, All, ltb→lt, ltb_false→le,
}
use mathlib.Core.Option.{some-injective}
use ktty.Deps.Json.{Json}
use ktty.Relay.Channel.{Chans, try_send}
use ktty.Relay.Room.{Peer, min_from, least_active, remove_at}
use ktty.Relay.State.{disconnect_text}
use ktty.Relay.Handler.{evict_at, make_room}
use ktty.Relay.Invariant.Rooms.{least_active-none}

-- The result of the search from `at` on, with `best` and its key in hand.
abbrev MinFrom : ℕ → ℕ → ℕ → List Peer → ℕ → Type 0
MinFrom best key at ps k =
    ((k ≡ best) × All (λ q. key ≤ q.last_activity) ps)
    ⊎ ((j : ℕ) × (p : Peer) × (k ≡ at + j)
        × (get_elem? ps j ≡ some p)
        × All (λ q. p.last_activity ≤ q.last_activity) ps
        × (p.last_activity ≤ key))

min_from_lem : (best key at : ℕ) (ps : List Peer) → MinFrom best key at ps (min_from best key at ps)
unfolding min_from
min_from_lem best key at [] = inl (refl, tt)
min_from_lem best key at (p ∷ ps) = elim (Bool-cases (ltb p.last_activity key)) [
  | inl less ↦ rw less (elim (min_from_lem at p.last_activity (at + 1) ps) [
    | inl (e, all) ↦
        let h = ltb→lt p.last_activity key less in
        inr (0, p, e ∙ omega arith, refl, (omega arith, all), omega arith)
    | inr (j, q, e, found, all, le) ↦
        let h = ltb→lt p.last_activity key less in
        inr (suc j, q, e ∙ omega arith, found, (le, all), omega arith)
  ])
  | inr not_less ↦ rw not_less (elim (min_from_lem best key (at + 1) ps) [
    | inl (e, all) ↦ inl (e, (ltb_false→le p.last_activity key not_less, all))
    | inr (j, q, e, found, all, le) ↦
        let h = ltb_false→le p.last_activity key not_less in
        inr (suc j, q, e ∙ omega arith, found, (omega arith, all), le)
  ])
]

least_active_lem :
    (ps : List Peer) (i : ℕ)
    → least_active ps ≡ some i
    → (p : Peer) × (get_elem? ps i ≡ some p) × All (λ q. p.last_activity ≤ q.last_activity) ps
unfolding least_active
least_active_lem [] i e = cc
least_active_lem (p ∷ ps) i e =
    let e' : min_from 0 p.last_activity 1 ps ≡ i = some-injective _ _ e in
    elim (min_from_lem 0 p.last_activity 1 ps) [
      | inl (z, all) ↦ (p, rw (← e', z) refl, (omega arith, all))
      | inr (j, q, z, found, all, le) ↦ (q, rw (← e', z ∙ add-one' j) found, (le, all))
    ]
  where
    add-one' : (j : ℕ) → 1 + j ≡ suc j
    add-one' j = omega arith

module _ (J : Json) (ct_eq : Bytes → Bytes → Bool) where
  -- In a room of two peers or more, a join puts out one peer that nobody in the room has been less
  -- recently active than; that peer alone is told, by a `peer_disconnect`, and the others keep
  -- their slots in order.
  pub make_room_evicts :
      (chans : Chans) (ps : List Peer)
      → 2 ≤ length ps
      → (i : ℕ) × (p : Peer) × (get_elem? ps i ≡ some p)
        × All (λ q. p.last_activity ≤ q.last_activity) ps
        × (make_room J ct_eq chans ps
            ≡ ((try_send chans p.tx (disconnect_text J p.id)).0, remove_at ps i))
  unfolding make_room
  make_room_evicts chans ps h = elim (Option-cases (least_active ps)) [
    | inl e ↦ absurd (omega (arith, least_active-none ps e))
    | inr (i, e) ↦
        let (p, found, least) = least_active_lem ps i e in
        let full : leb 2 (length ps) ≡ true = ground arith in
        (i, p, found, least, rw (full, e, found, make_room, evict_at))
  ]
