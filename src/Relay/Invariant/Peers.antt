-- ===== src/Relay/Invariant/Peers.antt =====
-- The peers of one room: ids that ascend, and the references to channels that they use.
use ktty.Base.{
  ℕ, zero, suc, ◌+◌, ◌≤◌, ◌<◌, ◌≡◌, refl, ap, ping, Bool, true, false, List, [], ◌∷◌, ◌++◌, length,
  ◌==◌, if◌then◌else◌, arith, none,
}
use ktty.Relay.Channel.{Tx, Chans, try_send}
use ktty.Relay.Room.{Peer, retain_pinged, remove_at, remove_peer, touch, find_peer}

-- The ids ascend from `lo` and stay below `hi`.
abbrev pub Ascends : ℕ → List Peer → ℕ → Type 0
Ascends lo [] hi = lo ≤ hi
Ascends lo (p ∷ ps) hi = (lo ≤ p.id) × Ascends (suc p.id) ps hi

-- How many of the peers use a channel.
abbrev pub uses : Tx → List Peer → ℕ
uses t [] = 0
uses t (p ∷ ps) = (if p.tx == t then 1 else 0) + uses t ps

-- The first list is the second without some of its peers, in order.
pub data Sub : List Peer → List Peer → Type 0 where
  nil : Sub [] []
  skip : {p : Peer} {ps qs : List Peer} → Sub ps qs → Sub ps (p ∷ qs)
  keep : {p : Peer} {ps qs : List Peer} → Sub ps qs → Sub (p ∷ ps) (p ∷ qs)

pub Sub-refl : (ps : List Peer) → Sub ps ps
Sub-refl [] = nil
Sub-refl (p ∷ ps) = keep (Sub-refl ps)

pub Sub-trans : {ps qs rs : List Peer} → Sub ps qs → Sub qs rs → Sub ps rs
Sub-trans s nil = s
Sub-trans s (skip t) = skip (Sub-trans s t)
Sub-trans (skip s) (keep t) = skip (Sub-trans s t)
Sub-trans (keep s) (keep t) = keep (Sub-trans s t)

Ascends-lower :
    {lo lo' : ℕ} (hi : ℕ) (ps : List Peer) → lo' ≤ lo → Ascends lo ps hi → Ascends lo' ps hi
Ascends-lower hi [] h a = omega arith
Ascends-lower hi (p ∷ ps) h (l, a) = (omega arith, a)

pub Sub-Ascends : {ps qs : List Peer} (lo hi : ℕ) → Sub ps qs → Ascends lo qs hi → Ascends lo ps hi
Sub-Ascends lo hi nil a = a
Sub-Ascends lo hi (skip {p} {ps} s) (l, a) =
    Ascends-lower {lo = suc p.id} hi ps (omega arith) (Sub-Ascends (suc p.id) hi s a)
Sub-Ascends lo hi (keep {p} s) (l, a) = (l, Sub-Ascends (suc p.id) hi s a)

pub Sub-length : {ps qs : List Peer} → Sub ps qs → length ps ≤ length qs
Sub-length nil = omega arith
Sub-length (skip s) = omega (arith, Sub-length s)
Sub-length (keep s) = omega (arith, Sub-length s)

pub Sub-uses : {ps qs : List Peer} (t : Tx) → Sub ps qs → uses t ps ≤ uses t qs
Sub-uses t nil = omega arith
Sub-uses t (skip s) = omega (arith, Sub-uses t s)
Sub-uses t (keep s) = omega (arith, Sub-uses t s)

Sub-if :
    {p : Peer} {ps qs : List Peer} (b : Bool) → Sub ps qs → Sub (if b then p ∷ ps else ps) (p ∷ qs)
Sub-if true s = keep s
Sub-if false s = skip s

pub retain_pinged-Sub :
    (keeps : Peer → Bool) (chans : Chans) (ps : List Peer) → Sub (retain_pinged keeps chans ps).1 ps
unfolding retain_pinged
retain_pinged-Sub keeps chans [] = nil
retain_pinged-Sub keeps chans (p ∷ ps) =
    Sub-if _
      (retain_pinged-Sub keeps (if keeps p then (try_send chans p.tx (ping [])).0 else chans) ps)

pub remove_at-Sub : (ps : List Peer) (i : ℕ) → Sub (remove_at ps i) ps
remove_at-Sub [] i = nil
remove_at-Sub (p ∷ ps) zero = skip (Sub-refl ps)
remove_at-Sub (p ∷ ps) (suc i) = keep (remove_at-Sub ps i)

pub length-remove_at :
    (ps : List Peer) (i : ℕ) → i < length ps → suc (length (remove_at ps i)) ≡ length ps
length-remove_at [] i h = absurd (omega arith)
length-remove_at (p ∷ ps) zero h = refl
length-remove_at (p ∷ ps) (suc i) h = ap suc (length-remove_at ps i (omega arith))

pub remove_peer-Sub : (id : ℕ) (ps : List Peer) → Sub (remove_peer id ps) ps
remove_peer-Sub id [] = nil
remove_peer-Sub id (p ∷ ps) = Sub-if _ (remove_peer-Sub id ps)

-- `touch` changes times only.
pub touch-Ascends :
    (id now lo hi : ℕ) (ps : List Peer) → Ascends lo ps hi → Ascends lo (touch id now ps) hi
unfolding touch
touch-Ascends id now lo hi [] a = a
touch-Ascends id now lo hi (p ∷ ps) (l, a) = ground (arith, touch-Ascends id now (suc p.id) hi ps a)

pub length-touch : (id now : ℕ) (ps : List Peer) → length (touch id now ps) ≡ length ps
unfolding touch
length-touch id now [] = refl
length-touch id now (p ∷ ps) = ground (arith, length-touch id now ps)

pub uses-touch : (id now : ℕ) (t : Tx) (ps : List Peer) → uses t (touch id now ps) ≡ uses t ps
unfolding touch
uses-touch id now t [] = refl
uses-touch id now t (p ∷ ps) = ground (arith, uses-touch id now t ps)

pub uses-append : (t : Tx) (ps qs : List Peer) → uses t (ps ++ qs) ≡ uses t ps + uses t qs
uses-append t [] qs = omega arith
uses-append t (p ∷ ps) qs = omega (arith, uses-append t ps qs)

pub Ascends-append :
    (lo hi : ℕ) (ps : List Peer) (p : Peer)
    → Ascends lo ps hi
    → p.id ≡ hi
    → Ascends lo (ps ++ p ∷ []) (suc hi)
Ascends-append lo hi [] p a e = (omega arith, omega arith)
Ascends-append lo hi (q ∷ ps) p (l, a) e = (l, Ascends-append (suc q.id) hi ps p a e)

-- A peer that is found is the only one with its id.
pub find_peer_above :
    (id lo hi : ℕ) (ps : List Peer) → Ascends lo ps hi → id < lo → find_peer id ps ≡ none
unfolding find_peer
find_peer_above id lo hi [] a h = refl
find_peer_above id lo hi (p ∷ ps) (l, a) h = ground (arith, find_peer_above id (suc p.id) hi ps a)
