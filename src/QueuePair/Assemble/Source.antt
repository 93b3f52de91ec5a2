-- ===== src/QueuePair/Assemble/Source.antt =====
-- The source mbufs that AssembleFrom of src/memory.cc constructs: how far it gets in the input, and
-- which operations become pending.
use mathlib.Core.Path.{subst}
use bitar.Base.{
  ℕ, zero, suc, ◌+◌, ◌-◌, ◌*◌, ◌%◌, ◌^◌, ◌≤◌, min, get_or, if◌then◌else◌, Bool, true, false, List,
  [], ◌∷◌, ◌++◌, append_assoc, append-nil, Action, ok, ◌>>=◌, >>=-inv, ◌≡◌, sym, ap, ◌∙◌, arith,
}
use bitar.Rte.{Rte}
use bitar.Config.{Configuration}
use bitar.QueuePair.{QueuePair, SharedInfo, decompressed_mbuf, compressed_mbuf}
use bitar.QueuePair.Assemble.{
  Buffer, starts_next, push_pending, push_if, append_source, source_bytes, source_buffers,
}
use bitar.QueuePair.Assemble.Count.{one_if, started}

-- The pointers of `n` slots from an index on.
abbrev pub slots : (ℕ → ℕ) → ℕ → ℕ → List ℕ
slots f i zero = []
slots f i (suc n) = f i ∷ slots f (i + 1) n

suc_count : (n : ℕ) → one_if true + n ≡ suc n
suc_count n = omega arith

same_count : (n : ℕ) → one_if false + n ≡ n
same_count n = omega arith

slots_suc : (f : ℕ → ℕ) (i n : ℕ) → slots f i (one_if true + n) ≡ f i ∷ slots f (i + 1) n
slots_suc f i n = ap (slots f i) (suc_count n)

-- A step of either loop, once its append has succeeded.
push_if-ok :
    (next : Bool) (idx k : ℕ) (q q' : QueuePair)
    → push_if next (idx + 1) q ≡ (ok tt, q')
    → (q'.operations ≡ q.operations)
      × (q'.pending_operations ++ slots q.operations ((if next then idx + 1 else idx) + 1) k
          ≡ q.pending_operations ++ slots q.operations (idx + 1) (one_if next + k))
unfolding push_pending
push_if-ok true idx k q q' h = (
  sym (ap (λ r. r.1.operations) h),
  ap (λ r. r.1.pending_operations ++ slots q.operations (idx + 1 + 1) k) (sym h)
      ∙ append_assoc q.pending_operations (q.operations (idx + 1) ∷ [])
          (slots q.operations (idx + 1 + 1) k)
      ∙ ap (λ xs. q.pending_operations ++ xs) (sym (slots_suc q.operations (idx + 1) k)),
)
push_if-ok false idx k q q' h = (
  sym (ap (λ r. r.1.operations) h),
  ap (λ r. r.1.pending_operations ++ slots q.operations (idx + 1) k) (sym h)
      ∙ ap (λ i. q.pending_operations ++ slots q.operations (idx + 1) i) (sym (same_count k)),
)

pub ok_inj : {A : Type 0} {a b : A} → ok a ≡ ok b → a ≡ b
ok_inj h = grind arith

no_rounds : (offset seg left : ℕ) → offset ≡ offset + min (0 * seg) left
no_rounds offset seg left = grind arith

module _ (rte : Rte) (c : Configuration) where
  append_source-ok :
      (idx tail addr len : ℕ) (shinfo : SharedInfo) (q q' : QueuePair)
      → append_source rte c idx tail addr len shinfo q ≡ (ok tt, q')
      → (q'.operations ≡ q.operations) × (q'.pending_operations ≡ q.pending_operations)
  unfolding append_source
  append_source-ok idx tail addr len shinfo q q' h =
      (sym (ap (λ r. r.1.operations) h), sym (ap (λ r. r.1.pending_operations) h))

  -- What a round of either loop does once it has succeeded: the rest of the loop follows.
  round_ok :
      (next : Bool) (idx tail addr len k : ℕ) (shinfo : SharedInfo) (q : QueuePair) {A : Type 0}
      (rest : Action QueuePair A) {a : A} {q' : QueuePair}
      → (append_source rte c idx tail addr len shinfo >>= λ _. push_if next (idx + 1) >>= λ _. rest)
          q
        ≡ (ok a, q')
      → (q₂ : QueuePair) × (rest q₂ ≡ (ok a, q'))
        × (q₂.operations ≡ q.operations)
        × (q₂.pending_operations ++ slots q.operations ((if next then idx + 1 else idx) + 1) k
            ≡ q.pending_operations ++ slots q.operations (idx + 1) (one_if next + k))
  round_ok next idx tail addr len k shinfo q rest h =
      let (u, q₁, e, h₁) =
        >>=-inv (append_source rte c idx tail addr len shinfo)
          (λ _. push_if next (idx + 1) >>= λ _. rest) q h in
      let (ops, pending) = append_source-ok idx tail addr len shinfo q q₁ e in
      let (v, q₂, e₂, h₂) = >>=-inv (push_if next (idx + 1)) (λ _. rest) q₁ h₁ in
      let (ops₂, pending₂) = push_if-ok next idx k q₁ q₂ e₂ in
      (
        q₂,
        h₂,
        ops₂ ∙ ops,
        subst
            (λ f.
              q₂.pending_operations ++ slots f ((if next then idx + 1 else idx) + 1) k
              ≡ q.pending_operations ++ slots f (idx + 1) (one_if next + k))
            ops
            (subst
              (λ xs.
                q₂.pending_operations ++ slots q₁.operations ((if next then idx + 1 else idx) + 1) k
                ≡ xs ++ slots q₁.operations (idx + 1) (one_if next + k))
              pending pending₂),
      )

  bytes_step :
      (offset size seg rounds : ℕ)
      → offset ≤ size
      → offset
          + min seg (size - offset)
          + min (rounds * seg) (size - (offset + min seg (size - offset)))
        ≡ offset + min (suc rounds * seg) (size - offset)
  bytes_step offset size seg rounds h = grind arith

  -- The source mbufs of a compression: the offset moves by what the mbufs hold or by all that is
  -- left, and each operation that is started becomes pending, in order.
  pub source_bytes-ok :
      (b : Buffer) (n rounds mbuf_id idx offset : ℕ) (q : QueuePair) {o : ℕ} {q' : QueuePair}
      → offset ≤ b.size
      → source_bytes rte c b n rounds mbuf_id idx offset q ≡ (ok o, q')
      → (o ≡ offset + min (rounds * c.decompressed_seg_size) (b.size - offset))
        × (q'.pending_operations
            ≡ q.pending_operations
              ++ slots q.operations (idx + 1) (started c.max_sgl_segs n rounds mbuf_id))
  unfolding source_bytes
  source_bytes-ok b n zero mbuf_id idx offset q le h = (
    sym (ok_inj (ap (λ r. r.0) h)) ∙ no_rounds offset c.decompressed_seg_size (b.size - offset),
    sym (ap (λ r. r.1.pending_operations) h) ∙ sym (append-nil q.pending_operations),
  )
  source_bytes-ok b n (suc rounds) mbuf_id idx offset q {o = o} {q' = q'} le h =
      let len : ℕ = min c.decompressed_seg_size (b.size - offset) in
      let next : Bool = starts_next c.max_sgl_segs (mbuf_id + 1) n in
      let idx' : ℕ = if next then idx + 1 else idx in
      let k : ℕ = started c.max_sgl_segs n rounds (mbuf_id + 1) in
      let (q₂, h₂, ops, pending) =
        round_ok next idx (get_or q.mbufs mbuf_id 0) (b.data_addr + offset) (len % 2 ^ 16) k
          decompressed_mbuf q (source_bytes rte c b n rounds (mbuf_id + 1) idx' (offset + len)) h in
      let (moved, rest) =
        source_bytes-ok b n rounds (mbuf_id + 1) idx' (offset + len) q₂ (omega arith) h₂ in
      (
        moved ∙ bytes_step offset b.size c.decompressed_seg_size rounds le,
        subst (λ f. q'.pending_operations ≡ q₂.pending_operations ++ slots f (idx' + 1) k) ops rest
            ∙ pending,
      )

  -- The source mbufs of a decompression: the index moves by one buffer for each.
  pub source_buffers-ok :
      (bs : List Buffer) (n rounds mbuf_id idx index : ℕ) (q : QueuePair) {o : ℕ} {q' : QueuePair}
      → source_buffers rte c bs n rounds mbuf_id idx index q ≡ (ok o, q')
      → (o ≡ index + rounds)
        × (q'.pending_operations
            ≡ q.pending_operations
              ++ slots q.operations (idx + 1) (started c.max_sgl_segs n rounds mbuf_id))
  unfolding source_buffers
  source_buffers-ok bs n zero mbuf_id idx index q h = (
    sym (ok_inj (ap (λ r. r.0) h)) ∙ omega arith,
    sym (ap (λ r. r.1.pending_operations) h) ∙ sym (append-nil q.pending_operations),
  )
  source_buffers-ok bs n (suc rounds) mbuf_id idx index q {o = o} {q' = q'} h =
      let b : Buffer = get_or bs index (record { data_addr = 0; size = 0 }) in
      let next : Bool = starts_next c.max_sgl_segs (mbuf_id + 1) n in
      let idx' : ℕ = if next then idx + 1 else idx in
      let k : ℕ = started c.max_sgl_segs n rounds (mbuf_id + 1) in
      let (q₂, h₂, ops, pending) =
        round_ok next idx (get_or q.mbufs mbuf_id 0) b.data_addr (b.size % 2 ^ 16) k compressed_mbuf
          q (source_buffers rte c bs n rounds (mbuf_id + 1) idx' (index + 1)) h in
      let (moved, rest) = source_buffers-ok bs n rounds (mbuf_id + 1) idx' (index + 1) q₂ h₂ in
      (
        moved ∙ omega arith,
        subst (λ f. q'.pending_operations ≡ q₂.pending_operations ++ slots f (idx' + 1) k) ops rest
            ∙ pending,
      )
