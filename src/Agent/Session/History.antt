-- ===== src/Agent/Session/History.antt =====
-- The ring buffer holds the latest output, and its sequence numbers run up to the session's counter.
use ktty.Base.{
  ℕ, suc, ◌+◌, ◌≤◌, ◌≡◌, ◌≢◌, ◌⊎◌, inl, inr, refl, ap, sym, ◌∙◌, lit, List, [], ◌∷◌, ◌++◌, arith,
  length, All, All-append, word_add_lem,
}
use ktty.Common.Constants.{ring_buffer_size}
use ktty.Agent.RingBuffer
use ktty.Agent.RingBuffer.{Packet, RingBuffer, byte_size, push}
use ktty.Agent.RingBuffer.Bounds.{
  IsValid, Fits, new-IsValid, push-IsValid, push_suffix, push_newest,
}
use ktty.Agent.RingBuffer.Replay.{Counts, Counts-append, Counts-drop}

-- The reader task reads 4096 bytes at a time.
abbrev pub read_size : ℕ
read_size = 4096

abbrev pub IsOutput : Packet → Type 0
IsOutput p = (length p.payload ≤ read_size) × (p.msg_type ≡ lit "pty")

pub record IsRecent (seq : ℕ) (ring : RingBuffer) : Type 0 where
  pub valid : IsValid ring
  pub limit : ring.max_bytes ≡ ring_buffer_size
  pub first : ℕ
  pub counts : Counts first ring.buf (suc seq)
  pub some_left : (seq ≡ 0) ⊎ (ring.buf ≢ [])
  pub outputs : All IsOutput ring.buf

pub new-IsRecent : IsRecent 0 RingBuffer.new
unfolding RingBuffer.new
new-IsRecent = record {
  valid = new-IsValid;
  limit = refl;
  first = 1;
  counts = refl;
  some_left = inl refl;
  outputs = tt;
}

All-suffix : (ds ps : List Packet) → All IsOutput (ds ++ ps) → All IsOutput ps
All-suffix [] ps h = h
All-suffix (d ∷ ds) ps (h, hs) = All-suffix ds ps hs

append_ne : (es : List Packet) (p : Packet) → es ++ p ∷ [] ≢ []
append_ne [] p e = cc
append_ne (x ∷ es) p e = cc

pub small_output : (p : Packet) → IsOutput p → byte_size p ≤ 4096 + 19
unfolding byte_size
small_output p (short, type) = omega (arith, word_add_lem, ap length type)

-- Pushing the next output.
pub push-IsRecent :
    (seq : ℕ) (ring : RingBuffer) (p : Packet)
    → IsRecent seq ring
    → IsOutput p
    → p.seq ≡ suc seq
    → IsRecent (suc seq) (push ring p)
push-IsRecent seq ring p v o e =
    let small = small_output p o in
    let fits : Fits ring p = omega (arith, v.limit) in
    let (valid, same) = push-IsValid ring p v.valid fits in
    let (ds, split) = push_suffix ring p v.valid fits in
    let (es, last) = push_newest ring p v.valid fits (omega (arith, v.limit)) in
    let counted = Counts-append v.first (suc seq) ring.buf p v.counts e in
    let (first, counts) =
      Counts-drop v.first (suc (suc seq)) ds (push ring p).buf (rw split at counted) in
    record {
      valid = valid;
      limit = same ∙ v.limit;
      first = first;
      counts = counts;
      some_left = inr (λ nil. append_ne es p (sym last ∙ nil));
      outputs =
          All-suffix ds (push ring p).buf
            (rw split at (All-append IsOutput ring.buf (p ∷ []) v.outputs (o, tt)));
    }
