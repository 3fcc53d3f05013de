-- ===== src/Agent/Session/State.antt =====
-- What a session of the agent keeps while it serves a client, and its sends.
use ktty.Base.{
  ℕ, Text, Bytes, Message, Bool, List, [], ◌∷◌, ◌++◌, Option, none, some, if◌then◌else◌, lit,
  contains, ◌&&◌, is_char_boundary, length, min, Result,
}
use Prim.Native.String.{String}
use ktty.Common.Crypto.{CryptoError, encrypt}
use ktty.Deps.Crates.{Crates}
use ktty.Agent.RingBuffer.{RingBuffer}

-- The calls of the pseudo-terminal; their failures are ignored by the session.
pub data PtyOp : Type 0 where
  write_input : Bytes → PtyOp
  resize : ℕ → ℕ → PtyOp
  kill_process_group : PtyOp

-- The channel to the task that writes to the socket; it is closed when that task has ended.
pub record Outbox : Type 0 where
  pub sent : List Message
  pub is_open : Bool

pub record Agent : Type 0 where
  pub seq : ℕ
  pub ring : RingBuffer
  pub outbox : Outbox
  pub pty : List PtyOp
  pub last_ws_rx : ℕ  -- nanoseconds
  pub drawn : ℕ  -- how many nonces were drawn

-- Why the bridge was left.
pub data BridgeExit : Type 0 where
  peer_disconnected peer_rejoined ws_error pty_exited : BridgeExit

pub data Outcome : Type 0 where
  goes_on : Agent → Outcome
  exits : BridgeExit → Agent → Outcome
  panics : Outcome

-- What one bridge works with: the session's key and id, and the relay's token.
pub record Link : Type 0 where
  pub key : Bytes
  pub session_id : Text
  pub auth : Option Text

-- `ws_send.send(m)`
unfoldable pub send : Message → Outbox → Option Outbox
send m o = if o.is_open then some (record o { sent = o.sent ++ m ∷ [] }) else none

-- `let _ = ws_send.send(m);`
unfoldable pub send_or_drop : Message → Agent → Agent
unfolding send
send_or_drop m a = elim (send m a.outbox) [ none ↦ a | some o ↦ record a { outbox = o } ]

-- `crypto::encrypt`, which draws a nonce.
abbrev pub seal : (X : Crates) → Link → Agent → Bytes → Result CryptoError Bytes
seal X l a plain = encrypt X.aead (X.nonce a.drawn) l.key plain

-- The text of a word in double quotes.
abbrev pub quoted : String → Text
quoted s = 34 ∷ (lit s ++ 34 ∷ [])

abbrev pub mentions : Text → String → String → Bool
mentions t a b = contains t (quoted a) && contains t (quoted b)

-- `&t[..t.len().min(n)]`, which panics inside a character.
abbrev pub can_slice : Text → ℕ → Bool
can_slice t n = is_char_boundary t (min (length t) n)
