-- ===== src/Agent/RingBuffer/Replay.antt =====
-- What `packets_since` gives back.
use ktty.Base.{
  ℕ, suc, ◌+◌, ◌≤◌, ◌<◌, ◌≡◌, ◌≢◌, refl, sym, ap, ◌∙◌, List, [], ◌∷◌, ◌++◌, Option, none, some,
  arith, ltb, retain, word_mod, word_add, word_sub, word_add_lem, word_sub_lem, Bool-cases, inl,
  inr, ltb→lt, ltb_false→le, lt→ltb,
}
use ktty.Agent.RingBuffer.{Packet, RingBuffer, packets_since, gap}

-- The sequence numbers of the packets count up from `first`, and `next` is the one that follows.
abbrev pub Counts : ℕ → List Packet → ℕ → Type 0
Counts first [] next = first ≡ next
Counts first (p ∷ ps) next = (p.seq ≡ first) × Counts (suc first) ps next

pub Counts-le : (first next : ℕ) (ps : List Packet) → Counts first ps next → first ≤ next
Counts-le first next [] c = omega arith
Counts-le first next (p ∷ ps) (e, c) = omega (arith, Counts-le (suc first) next ps c)

pub Counts-append :
    (first next : ℕ) (ps : List Packet) (p : Packet)
    → Counts first ps next
    → p.seq ≡ next
    → Counts first (ps ++ p ∷ []) (suc next)
Counts-append first next [] p e h = (h ∙ sym e, ap suc e)
Counts-append first next (q ∷ ps) p (e, c) h = (e, Counts-append (suc first) next ps p c h)

pub Counts-drop :
    (first next : ℕ) (ds ps : List Packet)
    → Counts first (ds ++ ps) next
    → (start : ℕ) × Counts start ps next
Counts-drop first next [] ps c = (first, c)
Counts-drop first next (d ∷ ds) ps (e, c) = Counts-drop (suc first) next ds ps c

-- The first number that a client which has seen `last_seq` is sent, given the reported gap.
abbrev pub resumes_at : ℕ → Option (ℕ × ℕ) → ℕ
resumes_at last_seq none = last_seq + 1
resumes_at last_seq (some (lo, hi)) = hi + 1

after_all :
    (last first next : ℕ) (ps : List Packet)
    → last < first
    → Counts first ps next
    → retain (λ p. ltb last p.seq) ps ≡ ps
after_all last first next [] h c = refl
after_all last first next (p ∷ ps) h (e, c) =
    rw (lt→ltb last p.seq (omega arith))
      (ap (◌∷◌ p) (after_all last (suc first) next ps (omega arith) c))

retain-Counts :
    (last first next : ℕ) (ps : List Packet)
    → first ≤ last + 1
    → last < next
    → Counts first ps next
    → Counts (last + 1) (retain (λ p. ltb last p.seq) ps) next
retain-Counts last first next [] h k c = omega arith
retain-Counts last first next (p ∷ ps) h k (e, c) = elim (Bool-cases (ltb last p.seq)) [
  | inl after ↦
      let r = ltb→lt last p.seq after in
      rw (after, after_all last (suc first) next ps (omega arith) c)
        (omega arith, let q : suc first ≡ suc (last + 1) = omega arith in rw (← q) c)
  | inr before ↦ rw before (
      retain-Counts last (suc first) next ps (let r = ltb_false→le last p.seq before in omega arith)
        k c)
]

-- The reported range runs from the number after the last one seen to the one before `first`.
abbrev pub ReportsGap : ℕ → ℕ → Option (ℕ × ℕ) → Type 0
ReportsGap last first none = first ≤ last + 1
ReportsGap last first (some (lo, hi)) = (lo ≡ last + 1) × (lo ≤ hi) × (hi + 1 ≡ first)

gap_lem :
    (last first next : ℕ) (p : Packet) (ps : List Packet)
    → Counts first (p ∷ ps) next
    → next < word_mod
    → last < next
    → Counts (resumes_at last (gap last (some p.seq))) (retain (λ q. ltb last q.seq) (p ∷ ps)) next
      × ReportsGap last first (gap last (some p.seq))
unfolding gap
gap_lem last first next p ps c small h =
    let le = Counts-le (suc first) next ps c.1 in
    let add : word_add last 1 ≡ last + 1 = omega (arith, word_add_lem) in
    elim (Bool-cases (ltb (word_add last 1) p.seq)) [
      | inl missing ↦
          let m = ltb→lt (word_add last 1) p.seq missing in
          let first_eq : word_sub p.seq 1 + 1 ≡ first = omega (arith, word_sub_lem, c.0) in
          rw missing (
            rw (first_eq, after_all last first next (p ∷ ps) (omega (arith, c.0)) c) c,
            (add, omega (arith, c.0), first_eq),
          )
      | inr none_missing ↦
          let m = ltb_false→le (word_add last 1) p.seq none_missing in
          rw none_missing
            (retain-Counts last first next (p ∷ ps) (omega (arith, c.0)) h c, omega (arith, c.0))
    ]

-- Take a buffer that is not empty, whose sequence numbers count up from `first` to just below
-- `next`, itself below 2^64, and a client that has seen the numbers up to `last`, below `next`.
-- The packets given back count up to just below `next`, from the number after the reported gap or,
-- with no gap, from `last + 1`; the gap runs from `last + 1` to `first - 1`, and is reported
-- exactly when it is not empty.
pub packets_since_complete :
    (r : RingBuffer) (last first next : ℕ)
    → Counts first r.buf next
    → r.buf ≢ []
    → next < word_mod
    → last < next
    → Counts (resumes_at last (packets_since r last).1) (packets_since r last).0 next
      × ReportsGap last first (packets_since r last).1
unfolding packets_since
packets_since_complete r last first next c some_left small h = split r.buf refl
  where
    split :
        (ps : List Packet)
        → r.buf ≡ ps
        → Counts (resumes_at last (packets_since r last).1) (packets_since r last).0 next
          × ReportsGap last first (packets_since r last).1
    split [] e = absurd (some_left e)
    split (p ∷ ps) e = rw (e, packets_since) (gap_lem last first next p ps (rw e at c) small h)
