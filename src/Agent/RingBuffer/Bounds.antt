-- ===== src/Agent/RingBuffer/Bounds.antt =====
-- The byte count of the ring buffer, and what a push evicts.
use ktty.Base.{
  true, ltb→lt, lt→ltb, ℕ, ◌+◌, ◌≤◌, ◌<◌, ◌≡◌, refl, ap, List, [], ◌∷◌, ◌++◌, arith, ltb,
  if◌then◌else◌, word_mod, word_add, word_add_lem, word_sub_lem, Bool-cases, inl, inr, le→ltb_false,
}
use ktty.Agent.RingBuffer.{Packet, RingBuffer, byte_size, new, evict, push, clear}

-- The bytes that a list of packets takes, as a number that does not wrap.
abbrev pub total : List Packet → ℕ
total [] = 0
total (p ∷ ps) = byte_size p + total ps

pub record IsValid (r : RingBuffer) : Type 0 where
  pub counted : r.current_bytes ≡ total r.buf
  pub within : r.current_bytes ≤ r.max_bytes

total-append : (ps qs : List Packet) → total (ps ++ qs) ≡ total ps + total qs
total-append [] qs = omega arith
total-append (p ∷ ps) qs = omega (arith, total-append ps qs)

-- The longest suffix that fits into `max` bytes.
abbrev pub fitting : ℕ → List Packet → List Packet
fitting max [] = []
fitting max (p ∷ ps) =
    let rest = fitting max ps in if ltb max (total (p ∷ ps)) then rest else p ∷ ps

evict-fitting :
    (max : ℕ) (ps : List Packet) (current : ℕ)
    → current ≡ total ps
    → current < word_mod
    → evict max ps current ≡ (fitting max ps, total (fitting max ps))
unfolding evict
evict-fitting max [] current e h = ap (λ (c : ℕ). ([], c)) e
evict-fitting max (p ∷ ps) current e h = rw (e) (elim (Bool-cases (ltb max (total (p ∷ ps)))) [
  | inl over ↦
      rw over (evict-fitting max ps _ (omega (arith, word_sub_lem)) (omega (arith, word_sub_lem)))
  | inr fits ↦ rw fits
])

pub total-fitting-le : (max : ℕ) (ps : List Packet) → total (fitting max ps) ≤ max
total-fitting-le max [] = omega arith
total-fitting-le max (p ∷ ps) = ground (arith, total-fitting-le max ps)

-- The evicted packets are the oldest ones.
fitting-suffix : (max : ℕ) (ps : List Packet) → (ds : List Packet) × (ps ≡ ds ++ fitting max ps)
fitting-suffix max [] = ([], refl)
fitting-suffix max (p ∷ ps) = elim (Bool-cases (ltb max (total (p ∷ ps)))) [
  | inl over ↦ let (ds, e) = fitting-suffix max ps in (p ∷ ds, rw over (ap (◌∷◌ p) e))
  | inr fits ↦ ([], rw fits)
]

-- Any suffix that fits is kept.
fitting-longest :
    (max : ℕ) (ds ks : List Packet)
    → total ks ≤ max
    → (es : List Packet) × (fitting max (ds ++ ks) ≡ es ++ ks)
fitting-longest max [] [] h = ([], refl)
fitting-longest max [] (k ∷ ks) h = ([], rw (le→ltb_false max (total (k ∷ ks)) h))
fitting-longest max (d ∷ ds) ks h = elim (Bool-cases (ltb max (total (d ∷ ds ++ ks)))) [
  | inl over ↦ rw over (fitting-longest max ds ks h)
  | inr fits ↦ (d ∷ ds, rw fits)
]

-- The packet can be counted beside the full buffer in a 64-bit `usize`.
abbrev pub Fits : RingBuffer → Packet → Type 0
Fits r p = r.max_bytes + byte_size p < word_mod

-- What fits of a list and one more is what fits of what fits of the list, and one more.
pub fitting-append :
    (max : ℕ) (ps : List Packet) (q : Packet)
    → fitting max (fitting max ps ++ q ∷ []) ≡ fitting max (ps ++ q ∷ [])
fitting-append max [] q = refl
fitting-append max (p ∷ ps) q = elim (Bool-cases (ltb max (total (p ∷ ps)))) [
  | inr fits ↦ rw fits refl
  | inl over ↦
      let more : ltb max (total (p ∷ ps ++ q ∷ [])) ≡ true =
        lt→ltb _ _ (let h = ltb→lt _ _ over in omega (arith, total-append ps (q ∷ []))) in
      rw (over, more) (fitting-append max ps q)
]

pub push-fitting :
    (r : RingBuffer) (p : Packet)
    → IsValid r
    → Fits r p
    → push r p ≡ record r {
      buf = fitting r.max_bytes (r.buf ++ p ∷ []);
      current_bytes = total (fitting r.max_bytes (r.buf ++ p ∷ []));
    }
unfolding push
push-fitting r p v f =
    ap (λ (e : List Packet × ℕ). record r { buf = e.0; current_bytes = e.1 })
      (evict-fitting r.max_bytes (r.buf ++ p ∷ []) _ counted small)
  where
    small : word_add r.current_bytes (byte_size p) < word_mod
    small = omega (arith, word_add_lem, v.within)

    counted : word_add r.current_bytes (byte_size p) ≡ total (r.buf ++ p ∷ [])
    counted = omega (arith, word_add_lem, v.within, v.counted, total-append r.buf (p ∷ []))

pub new-IsValid : IsValid new
unfolding new
new-IsValid = record { counted = refl; within = omega arith }

-- In a valid buffer, with no overflow of the byte count, a push keeps the byte count exact and
-- within the limit, and does not change the limit.
pub push-IsValid :
    (r : RingBuffer) (p : Packet)
    → IsValid r
    → Fits r p
    → IsValid (push r p) × ((push r p).max_bytes ≡ r.max_bytes)
push-IsValid r p v f =
    rw (push-fitting r p v f)
      (record { counted = refl; within = total-fitting-le r.max_bytes (r.buf ++ p ∷ []) }, refl)

-- In a valid buffer, with no overflow of the byte count, a push only drops packets from the front.
pub push_suffix :
    (r : RingBuffer) (p : Packet)
    → IsValid r
    → Fits r p
    → (ds : List Packet) × (r.buf ++ p ∷ [] ≡ ds ++ (push r p).buf)
push_suffix r p v f = rw (push-fitting r p v f) (fitting-suffix r.max_bytes (r.buf ++ p ∷ []))

-- In a valid buffer, with no overflow of the byte count, a push leaves the longest suffix of the
-- packets, the new one included, that fits: it drops packets from the front only, the bytes of
-- those left are within the limit and are what the byte count says, and every suffix whose bytes
-- are within the limit is still at the end of the buffer.
pub push_longest :
    (r : RingBuffer) (p : Packet) (ds ks : List Packet)
    → IsValid r
    → Fits r p
    → r.buf ++ p ∷ [] ≡ ds ++ ks
    → total ks ≤ r.max_bytes
    → (gone : List Packet) × (es : List Packet) × (r.buf ++ p ∷ [] ≡ gone ++ (push r p).buf)
      × (total (push r p).buf ≤ r.max_bytes)
      × ((push r p).current_bytes ≡ total (push r p).buf)
      × ((push r p).buf ≡ es ++ ks)
push_longest r p ds ks v f e h =
    let (gone, split) = push_suffix r p v f in
    let (es, kept) = fitting-longest r.max_bytes ds ks h in
    (
      gone,
      es,
      split,
      rw (push-fitting r p v f) (total-fitting-le r.max_bytes (r.buf ++ p ∷ [])),
      rw (push-fitting r p v f) refl,
      rw (push-fitting r p v f, e) kept,
    )

-- So a packet that fits by itself is in the buffer after its push.
pub push_newest :
    (r : RingBuffer) (p : Packet)
    → IsValid r
    → Fits r p
    → byte_size p ≤ r.max_bytes
    → (es : List Packet) × ((push r p).buf ≡ es ++ p ∷ [])
push_newest r p v f h =
    let (gone, es, split, within, counted, kept) =
      push_longest r p r.buf (p ∷ []) v f refl (omega arith) in
    (es, kept)

pub clear-IsValid : (r : RingBuffer) → IsValid (clear r)
unfolding clear
clear-IsValid r = record { counted = refl; within = omega arith }
