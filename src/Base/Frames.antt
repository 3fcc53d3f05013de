-- ===== src/Base/Frames.antt =====
-- The messages of a WebSocket, which `axum` and `tungstenite` name alike.
use ktty.Base.Texts.{Text, Bytes}

pub data Message : Type 0 where
  text : Text → Message
  binary ping pong : Bytes → Message
  close : Message

-- What the read half of a socket gives next: `Some(Ok(m))`, `Some(Err(_))`, `None`.
pub data Incoming : Type 0 where
  frame : Message → Incoming
  failed ended : Incoming
