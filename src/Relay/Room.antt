-- ===== src/Relay/Room.antt =====
-- `Peer`, `Room`, and what the locked sections do to a room's peers.
use ktty.Base.{
  ℕ, zero, suc, ◌+◌, Text, Message, ping, Bool, ◌&&◌, List, [], ◌∷◌, ◌++◌, Option, none, some,
  retain, ltb, ◌==◌, if◌then◌else◌, word_add, not,
}
use ktty.Relay.Channel.{Tx, Chans, try_send}

-- Instants count nanoseconds.
pub record Peer : Type 0 where
  pub id : ℕ
  pub tx : Tx
  pub last_activity : ℕ
  pub auth_token : Text

pub record Room : Type 0 where
  pub peers : List Peer
  pub next_id : ℕ

unfoldable pub new : Room
new = record { peers = []; next_id = 0 }

-- The token is the hex text of 32 bytes from the operating system's generator.
unfoldable pub add_peer : Room → Tx → ℕ → Text → Room × ℕ
add_peer room tx now auth_token =
    let peer : Peer = record {
      id = room.next_id;
      tx = tx;
      last_activity = now;
      auth_token = auth_token;
    } in
    (record { peers = room.peers ++ peer ∷ []; next_id = word_add room.next_id 1 }, room.next_id)

-- `peers.retain(|p| keep(p) && p.tx.try_send(Ping).is_ok())`
unfoldable pub retain_pinged : (Peer → Bool) → Chans → List Peer → Chans × List Peer
retain_pinged keep chans [] = (chans, [])
retain_pinged keep chans (p ∷ ps) =
    let (pinged, sent) = try_send chans p.tx (ping []) in
    let alive = keep p && sent in
    let (chans', rest) = retain_pinged keep (if keep p then pinged else chans) ps in
    (chans', if alive then p ∷ rest else rest)

-- The index of the first peer with the smallest `last_activity`, by `min_by_key`.
unfoldable pub min_from : ℕ → ℕ → ℕ → List Peer → ℕ
min_from best key at [] = best
min_from best key at (p ∷ ps) =
    let less = ltb p.last_activity key in
    min_from (if less then at else best) (if less then p.last_activity else key) (at + 1) ps

unfoldable pub least_active : List Peer → Option ℕ
unfolding min_from
least_active [] = none
least_active (p ∷ ps) = some (min_from 0 p.last_activity 1 ps)

-- `Vec::remove`
abbrev pub remove_at {ℓ} : {A : Type ℓ} → List A → ℕ → List A
remove_at [] i = []
remove_at (x ∷ xs) zero = xs
remove_at (x ∷ xs) (suc i) = x ∷ remove_at xs i

-- A message to every peer but the one with this id.
unfoldable pub send_others : ℕ → Message → Chans → List Peer → Chans
send_others peer_id m chans [] = chans
send_others peer_id m chans (p ∷ ps) =
    send_others peer_id m (if p.id == peer_id then chans else (try_send chans p.tx m).0) ps

unfoldable pub send_all : Message → Chans → List Peer → Chans
send_all m chans [] = chans
send_all m chans (p ∷ ps) = send_all m (try_send chans p.tx m).0 ps

-- `find(|p| p.id == peer_id)`
unfoldable pub find_peer : ℕ → List Peer → Option Peer
find_peer peer_id [] = none
find_peer peer_id (p ∷ ps) = if p.id == peer_id then some p else find_peer peer_id ps

-- `last_activity = now` on the first peer with this id.
unfoldable pub touch : ℕ → ℕ → List Peer → List Peer
touch peer_id now [] = []
touch peer_id now (p ∷ ps) =
    if p.id == peer_id then record p { last_activity = now } ∷ ps else p ∷ touch peer_id now ps

abbrev pub remove_peer : ℕ → List Peer → List Peer
remove_peer peer_id = retain (λ p. not (p.id == peer_id))
