-- ===== src/Relay/Channel.antt =====
-- The bounded `mpsc` channels of the peers. A `Tx` is a reference into the store of channels, since
-- a peer's entry, the handler's clone and the receiver in the write task share one channel.
use ktty.Base.{
  ℕ, Message, Bool, true, false, ◌||◌, List, [], ◌∷◌, ◌++◌, length, leb, ◌==◌, if◌then◌else◌,
}

abbrev pub peer_channel_capacity : ℕ
peer_channel_capacity = 64

-- `closed` holds once the receiver is dropped.
pub record Channel : Type 0 where
  pub queue : List Message
  pub closed : Bool

abbrev pub Tx : Type 0
Tx = ℕ

abbrev pub Chans : Type 0
Chans = Tx → Channel

abbrev pub open_channel : Channel
open_channel = record { queue = []; closed = false }

abbrev pub update : Chans → Tx → Channel → Chans
update chans tx c t = if t == tx then c else chans t

abbrev pub refuses : Channel → Bool
refuses c = c.closed || leb peer_channel_capacity (length c.queue)

-- The channel after a `try_send`, which drops the message where the channel is full or closed.
unfoldable pub offered : Channel → Message → Channel
offered c m = if refuses c then c else record c { queue = c.queue ++ m ∷ [] }

unfoldable pub try_send : Chans → Tx → Message → Chans × Bool
unfolding offered
try_send chans tx m =
    (update chans tx (offered (chans tx) m), if refuses (chans tx) then false else true)
