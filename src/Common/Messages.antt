-- ===== src/Common/Messages.antt =====
-- backend/common/src/messages.rs. A `String` is its bytes; `u64` and `u16` are numbers.
use ktty.Base.{ℕ, Text, lit, Bool, false, Option, none, some, text_eq}

pub record JoinMessage : Type 0 where
  pub action : Text
  pub room_id : Text

pub record HandshakeOffer : Type 0 where
  pub type : Text
  pub mlkem_pub_key : Text

pub record HandshakeReply : Type 0 where
  pub type : Text
  pub mlkem_ciphertext : Text

pub record EncryptedEnvelope : Type 0 where
  pub seq : ℕ
  pub session_id : Text
  pub type : Text
  pub payload : Text
  pub auth : Option Text

pub record BootSignal : Type 0 where
  pub type : Text

pub record ResizePayload : Type 0 where
  pub cols : ℕ
  pub rows : ℕ

pub record SyncReqPayload : Type 0 where
  pub last_seq : ℕ
  pub session_id : Text

pub record SyncWarnPayload : Type 0 where
  pub dropped_start : ℕ
  pub dropped_end : ℕ

pub record SysKillPayload : Type 0 where
  pub signal : Text

pub record RawMessage : Type 0 where
  pub action : Option Text
  pub type : Option Text
  pub room_id : Option Text
  pub mlkem_pub_key : Option Text
  pub mlkem_ciphertext : Option Text
  pub seq : Option ℕ
  pub session_id : Option Text
  pub payload : Option Text
  pub hmac : Option Text

unfoldable pub join_message : Text → JoinMessage
join_message room_id = record { action = lit "join"; room_id = room_id }

unfoldable pub handshake_offer : Text → HandshakeOffer
handshake_offer pub_key_b64 = record { type = lit "handshake"; mlkem_pub_key = pub_key_b64 }

-- `EncryptedEnvelope::new`
unfoldable pub envelope : ℕ → Text → Text → Text → EncryptedEnvelope
envelope seq session_id msg_type payload_b64 = record {
  seq = seq;
  session_id = session_id;
  type = msg_type;
  payload = payload_b64;
  auth = none;
}

unfoldable pub with_auth : EncryptedEnvelope → Option Text → EncryptedEnvelope
with_auth env token = record env { auth = token }

unfoldable pub boot_signal : BootSignal
boot_signal = record { type = lit "boot" }

-- `a.as_deref() == Some(text)`
abbrev pub is_text : Option Text → Text → Bool
is_text none text = false
is_text (some a) text = text_eq a text

unfoldable pub is_join : RawMessage → Bool
is_join m = is_text m.action (lit "join")

unfoldable pub is_handshake : RawMessage → Bool
is_handshake m = is_text m.type (lit "handshake")

unfoldable pub is_boot : RawMessage → Bool
is_boot m = is_text m.type (lit "boot")
