-- ===== src/Relay/Delivery/Sending.antt =====
-- The loops over the peers of a room, channel by channel.
use ktty.Base.{
  ℕ, ◌≤◌, ◌≡◌, refl, ◌∙◌, Message, ping, Bool, true, false, ◌&&◌, ◌||◌, not, List, [], ◌∷◌, ◌==◌,
  if◌then◌else◌, arith, retain,
}
use ktty.Relay.Channel.{Tx, Chans, refuses, offered, try_send}
use ktty.Relay.Room.{Peer, retain_pinged, send_others, send_all, touch}
use ktty.Relay.Invariant.Peers.{uses}

-- Does a peer with another id use the channel?
abbrev pub receives : ℕ → Tx → List Peer → Bool
receives id t [] = false
receives id t (p ∷ ps) = (not (p.id == id) && p.tx == t) || receives id t ps

abbrev pub receives_any : Tx → List Peer → Bool
receives_any t [] = false
receives_any t (p ∷ ps) = p.tx == t || receives_any t ps

receives_unused : (id t : ℕ) (ps : List Peer) → uses t ps ≡ 0 → receives id t ps ≡ false
receives_unused id t [] h = refl
receives_unused id t (p ∷ ps) h = ground (arith, receives_unused id t ps)

receives_any_unused : (t : Tx) (ps : List Peer) → uses t ps ≡ 0 → receives_any t ps ≡ false
receives_any_unused t [] h = refl
receives_any_unused t (p ∷ ps) h = ground (arith, receives_any_unused t ps)

-- The loop offers the message once to the channel of each other peer, and to no other channel.
pub send_others_lem :
    (id : ℕ) (m : Message) (t : Tx) (chans : Chans) (ps : List Peer)
    → uses t ps ≤ 1
    → send_others id m chans ps t ≡ (if receives id t ps then offered (chans t) m else chans t)
unfolding send_others try_send
send_others_lem id m t chans [] h = refl
send_others_lem id m t chans (p ∷ ps) h = ground (
  arith,
  receives_unused id t ps,
  send_others_lem id m t (if p.id == id then chans else (try_send chans p.tx m).0) ps,
)

pub send_all_lem :
    (m : Message) (t : Tx) (chans : Chans) (ps : List Peer)
    → uses t ps ≤ 1
    → send_all m chans ps t ≡ (if receives_any t ps then offered (chans t) m else chans t)
unfolding send_all try_send
send_all_lem m t chans [] h = refl
send_all_lem m t chans (p ∷ ps) h =
    ground (arith, receives_any_unused t ps, send_all_lem m t (try_send chans p.tx m).0 ps)

pub receives-touch :
    (id now id' : ℕ) (t : Tx) (ps : List Peer) → receives id t (touch id' now ps) ≡ receives id t ps
unfolding touch
receives-touch id now id' t [] = refl
receives-touch id now id' t (p ∷ ps) = ground (arith, receives-touch id now id' t ps)

-- Pinging leaves the channels of all other peers alone.
pub retain_pinged_unused :
    (keep : Peer → Bool) (t : Tx) (chans : Chans) (ps : List Peer)
    → uses t ps ≡ 0
    → (retain_pinged keep chans ps).0 t ≡ chans t
unfolding retain_pinged try_send
retain_pinged_unused keep t chans [] h = refl
retain_pinged_unused keep t chans (p ∷ ps) h =
    retain_pinged_unused keep t (if keep p then (try_send chans p.tx (ping [])).0 else chans) ps
      (ground arith)
    ∙ same (keep p)
  where
    same : (b : Bool) → (if b then (try_send chans p.tx (ping [])).0 else chans) t ≡ chans t
    same true = ground arith
    same false = refl

-- As long as no two peers share a channel, the peers that stay are those that are kept by the test
-- and whose channel takes the ping.
pub retain_pinged_lem :
    (keep : Peer → Bool) (base chans : Chans) (ps : List Peer)
    → ((t : Tx) → 1 ≤ uses t ps → chans t ≡ base t)
    → ((t : Tx) → uses t ps ≤ 1)
    → (retain_pinged keep chans ps).1 ≡ retain (λ p. keep p && not (refuses (base p.tx))) ps
unfolding retain_pinged try_send
retain_pinged_lem keep base chans [] agree unique = refl
retain_pinged_lem keep base chans (p ∷ ps) agree unique =
    let rest =
      retain_pinged_lem keep base (if keep p then (try_send chans p.tx (ping [])).0 else chans) ps
        later (λ t. omega (arith, unique t)) in
    ground (arith, rest, agree p.tx)
  where
    later :
        (t : Tx)
        → 1 ≤ uses t ps
        → (if keep p then (try_send chans p.tx (ping [])).0 else chans) t ≡ base t
    later t h = ground (arith, agree t, unique t)
