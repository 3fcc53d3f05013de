-- ===== src/Tests/Session.antt =====
-- The bridge with the toy crates: a session that has sent three outputs.
use ktty.Base.{
  ℕ, ◌+◌, ◌≡◌, ◌↔◌, inr, refl, lit, Text, Bytes, Message, text, frame, true, List, [], ◌∷◌, ◌++◌,
  map, some, ok, arith, length, word_add, contains, is_char_boundary,
}
use ktty.Common.Crypto.{encrypt, decrypt}
use ktty.Common.Crypto.Packing.{encrypt_roundtrip}
use ktty.Agent.RingBuffer
use ktty.Agent.RingBuffer.{Packet, push, packets_since, byte_size, evict}
use ktty.Agent.RingBuffer.Replay.{Counts, resumes_at, ReportsGap}
use ktty.Agent.Session.State.{Agent, Link, panics}
use ktty.Agent.Session.SyncReq.{handle_sync_req, warn_bytes}
use ktty.Agent.Session.Bridge.{socket, bridge_step}
use ktty.Agent.Session.Traffic.{reads, reading_of, warning_of}
use ktty.Agent.Session.History.{IsRecent}
use ktty.Agent.Session.Recovery.{ShortWarnings, sync_recovers}
use ktty.Agent.Session.Guards.{Uncuttable, bridge_panics_iff}
use ktty.Tests.ToyJson.{toy_json}
use ktty.Tests.ToyCrates.{toy_serde}
use ktty.Tests.ToyCiphers.{toy_crates, toy_crates_laws, toy_aead, toy_aead_laws, replicate}

abbrev link : Link
link = record { key = replicate 32 1; session_id = lit "ab"; auth = some (lit "t0") }

abbrev start : Agent
start = record {
  seq = 0;
  ring = RingBuffer.new;
  outbox = record { sent = []; is_open = true };
  pty = [];
  last_ws_rx = 0;
  drawn = 0;
}

encrypt_roundtrip_example :
    (packed : Bytes) × (encrypt toy_aead (replicate 24 3) (replicate 32 1) (lit "hello")
      ≡ ok packed)
    × (length packed ≡ 24 + 5 + 16)
    × (decrypt toy_aead (replicate 32 1) packed ≡ ok (lit "hello"))
encrypt_roundtrip_example =
    encrypt_roundtrip toy_aead toy_aead_laws (replicate 24 3) (replicate 32 1) (lit "hello") refl
      refl (omega arith)

abbrev output : ℕ → Text → Packet
output n bytes = record { seq = n; msg_type = lit "pty"; payload = bytes }

abbrev served : Agent
served = record start {
  seq = 2;
  ring = record {
    buf = output 1 (lit "a") ∷ output 2 (lit "bc") ∷ [];
    max_bytes = 2_097_152;
    current_bytes = 41;
  };
}

served-IsRecent : IsRecent served.seq served.ring
unfolding byte_size word_add
served-IsRecent = record {
  valid = record { counted = refl; within = omega arith };
  limit = refl;
  first = 1;
  counts = (refl, (refl, refl));
  some_left = inr (λ e. cc);
  outputs = ((omega arith, refl), ((omega arith, refl), tt));
}

short_warnings : ShortWarnings toy_crates link
unfolding warn_bytes toy_crates toy_json
short_warnings start' end h k = omega arith

sync_recovers_example :
    (ms : List Message) × ((handle_sync_req toy_crates link (1 ∷ lit "ab") served).outbox
      ≡ record { sent = ms; is_open = true })
    × (map (reads toy_crates link) ms
        ≡ warning_of toy_crates link (packets_since served.ring 1).1
          ++ map (reading_of toy_crates link) (packets_since served.ring 1).0)
    × Counts (resumes_at 1 (packets_since served.ring 1).1) (packets_since served.ring 1).0 3
    × ReportsGap 1 served-IsRecent.first (packets_since served.ring 1).1
unfolding toy_crates toy_serde
sync_recovers_example =
    sync_recovers toy_crates toy_crates_laws link refl served
      (record { last_seq = 1; session_id = lit "ab" }) (1 ∷ lit "ab") served-IsRecent short_warnings
      refl refl refl (λ e. absurd (omega arith)) (omega arith) (omega arith)

-- A character of two bytes across the cut.
abbrev uncut : Text
uncut = replicate 79 97 ++ (0xc3 ∷ 0xa9 ∷ [])

uncut_panics : bridge_step toy_crates link (socket 9 (frame (text uncut))) start ≡ panics
unfolding bridge_step contains toy_crates toy_serde is_char_boundary
uncut_panics = refl

bridge_panics_iff_example :
    (bridge_step toy_crates link (socket 9 (frame (text uncut))) start ≡ panics) ↔ (
      (now : ℕ) × (t : Text) × (socket 9 (frame (text uncut)) ≡ socket now (frame (text t)))
      × Uncuttable toy_crates link t)
bridge_panics_iff_example = bridge_panics_iff toy_crates link (socket 9 (frame (text uncut))) start
