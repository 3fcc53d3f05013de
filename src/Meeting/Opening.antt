-- ===== src/Meeting/Opening.antt =====
-- The client's reply on its way through the relay, and the session that it opens.
use ktty.Base.{Text, Bytes, lit, some}
use ktty.Common.Crypto
use ktty.Deps.Serde.{reply_fields}
use ktty.Deps.Crates.{Crates}
use ktty.Agent.Session.Handshake.{stamp}
use ktty.Agent.Session.Joining.{Session}
use ktty.Agent.Session.Run.{State}
use ktty.Relay.Room.{Room}
use ktty.Relay.State.{Relay}

module _ (X : Crates) where
  -- The client's reply with its token, for a ciphertext.
  abbrev pub reply_text : Text → Bytes → Text
  reply_text token ct = X.json.to_string (
      stamp X.json (some token)
        (X.json.object (reply_fields X.json (lit "handshake") (X.encodings.base64_encode ct))))
