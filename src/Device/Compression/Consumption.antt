-- ===== src/Device/Compression/Consumption.antt =====
-- AssembleFrom() in the loops of Compress() and Decompress(), src/device.cc: no burst needs more
-- operations than it takes bytes or buffers.
use bitar.Base.{
  ℕ, zero, suc, ◌+◌, ◌-◌, ◌*◌, ◌≤◌, ◌<◌, leb, ◌||◌, if◌then◌else◌, List, [], ◌∷◌, ◌++◌, length,
  Result, ok, Bool-cases, inl, inr, ◌≡◌, refl, sym, ap, ◌∙◌, arith,
}
use mathlib.Core.Path.{subst}
use bitar.Config.{Configuration}
use bitar.Rte.{Rte}
use bitar.QueuePair.{QueuePair, now}
use bitar.QueuePair.Assemble.{
  Buffer, next_burst_bytes, bytes_to_mbufs, next_burst_buffers, assemble_from_decompressed,
  assemble_from_compressed, assemble_bytes, assemble_buffers,
}
use bitar.QueuePair.Assemble.Clock.{
  assemble_from_decompressed-Later, assemble_from_compressed-Later,
}
use bitar.QueuePair.Assemble.Burst.{IsSized, next_burst_bytes-FitsBurst}
use bitar.QueuePair.Assemble.Total.{Assembled}
use bitar.QueuePair.Assemble.Source.{slots, ok_inj}
use bitar.QueuePair.Assemble.Calls.{
  assemble_from_decompressed-Assembled, assemble_from_compressed-Assembled,
}
use bitar.Device.Bursts.Rounds.{Consumes}

length-slots : (f : ℕ → ℕ) (i n : ℕ) → length (slots f i n) ≡ n
length-slots f i zero = refl
length-slots f i (suc n) = ap suc (length-slots f (i + 1) n)

length-++ : (xs ys : List ℕ) → length (xs ++ ys) ≡ length xs + length ys
length-++ [] ys = omega arith
length-++ (x ∷ xs) ys = omega (arith, length-++ xs ys)

-- No burst needs more operations than mbufs, nor more mbufs than bytes.
le_of_products : (a b d : ℕ) → 0 < d → 0 < b → a * d < b + d → a ≤ b
le_of_products a b zero p q h = absurd (omega arith)
le_of_products a b (suc zero) p q h = omega arith
le_of_products a b (suc (suc d)) p q h = grind (arith, le_of_products a b (suc d) (omega arith) q)

-- A call that has no input or no room reports what was assembled before.
unchanged :
    {P : Type 0} (burst : ℕ) (left : P → ℕ) (p : P) (q : QueuePair) (n : ℕ) (p' : P)
    (q' : QueuePair)
    → q.num_ops_assembled ≤ burst
    → ◌≡◌ {A = Result (ℕ × P) × QueuePair} (ok (q.num_ops_assembled, p), q) (ok (n, p'), q')
    → (q'.num_ops_assembled ≡ n)
      × (n ≤ burst)
      × (n + 2 * left p' + length q'.pending_operations
          ≤ q.num_ops_assembled + 2 * left p + length q.pending_operations)
      × (now q ≤ now q')
unchanged {P = P} burst left p q n p' q' le h =
    let values : ◌≡◌ {A = ℕ × P} (q.num_ops_assembled, p) (n, p') =
      ok_inj {A = ℕ × P} (ap (λ r. r.0) h) in
    let count : q.num_ops_assembled ≡ n = ap (λ v. v.0) values in
    let same : q ≡ q' = ap (λ r. r.1) h in
    let still : left p ≡ left p' = ap (λ v. left v.1) values in
    let pending : length q.pending_operations ≡ length q'.pending_operations =
      ap (λ x. length x.pending_operations) same in
    (
      sym (ap (λ x. x.num_ops_assembled) same) ∙ count,
      omega arith,
      omega arith,
      omega (arith, ap now same),
    )

module _ (c : Configuration) (sized : IsSized c) where
  burst_length :
      (q q' : QueuePair) (n last : ℕ) (a : Assembled c q n last q')
      → (a.ops ≤ n)
        × (last ≤ c.burst_size)
        × (last ≡ q.num_ops_assembled + a.ops)
        × (length q'.pending_operations ≡ length q.pending_operations + a.ops)
  burst_length q q' n last a =
      let room = a.fits.room in
      let until = a.until in
      (
        le_of_products a.ops n c.max_sgl_segs sized.segs a.fits.some_mbufs a.fits.least,
        omega arith,
        until,
        ap length a.pending
            ∙ length-++ q.pending_operations (slots q'.operations q.num_ops_assembled a.ops)
            ∙ ap (λ k. length q.pending_operations + k)
                (length-slots q'.operations q.num_ops_assembled a.ops),
      )

  pub assemble_from_decompressed-Consumes :
      (rte : Rte) (b : Buffer)
      → Consumes c.burst_size (λ offset. b.size - offset) (assemble_from_decompressed rte c b)
  unfolding assemble_from_decompressed
  assemble_from_decompressed-Consumes rte b offset q n offset' q' le h =
      elim (Bool-cases (leb b.size offset || leb c.burst_size q.num_ops_assembled)) [
        | inl full ↦
            unchanged c.burst_size (λ x. b.size - x) offset q n offset' q' le
              (subst
                (λ t.
                  (if t
                    then (ok (q.num_ops_assembled, offset), q)
                    else assemble_bytes rte c b
                        (bytes_to_mbufs c
                          (next_burst_bytes c q.num_ops_assembled (b.size - offset)))
                        offset q)
                  ≡ (ok (n, offset'), q'))
                full h)
        | inr more ↦
            let room : q.num_ops_assembled < c.burst_size = ground arith in
            let some_left : offset < b.size = ground arith in
            let (burst, moved, some_bytes) =
              assemble_from_decompressed-Assembled rte c b offset q q' sized room some_left h in
            let bytes : ℕ = next_burst_bytes c q.num_ops_assembled (b.size - offset) in
            let (_, _, within, _, tight) =
              next_burst_bytes-FitsBurst c q.num_ops_assembled (b.size - offset) sized room
                (omega arith) in
            let (few, fits, until, pending) = burst_length q q' (bytes_to_mbufs c bytes) n burst in
            let mbufs : bytes_to_mbufs c bytes ≤ bytes =
              le_of_products (bytes_to_mbufs c bytes) bytes c.decompressed_seg_size sized.seg_size
                some_bytes tight in
            (
              burst.counted,
              fits,
              omega (arith, moved, pending, until, within, few, mbufs),
              subst (λ x. now q ≤ now x.1) h (assemble_from_decompressed-Later rte c b offset q),
            )
      ]

  pub assemble_from_compressed-Consumes :
      (rte : Rte) (bs : List Buffer) (b : Buffer)
      → Consumes {P = ℕ × ℕ} c.burst_size
          (λ position. length bs - position.0)
          (λ position. assemble_from_compressed rte c bs b position.0 position.1)
  unfolding assemble_from_compressed
  assemble_from_compressed-Consumes rte bs b (index, offset) q n (index', offset') q' le h =
      elim (Bool-cases (leb (length bs) index || leb c.burst_size q.num_ops_assembled)) [
        | inl full ↦
            unchanged c.burst_size (λ x. length bs - x.0) (index, offset) q n (index', offset') q'
              le
              (subst
                (λ t.
                  (if t
                    then (ok (q.num_ops_assembled, (index, offset)), q)
                    else assemble_buffers rte c bs b
                        (next_burst_buffers c q.num_ops_assembled (length bs - index)) index offset
                        q)
                  ≡ (ok (n, (index', offset')), q'))
                full h)
        | inr more ↦
            let (burst, taken, _, exact) =
              assemble_from_compressed-Assembled rte c bs b index offset q q' sized (ground arith)
                (ground arith) h in
            let (few, fits, until, pending) =
              burst_length q q' (next_burst_buffers c q.num_ops_assembled (length bs - index)) n
                burst in
            (
              burst.counted,
              fits,
              omega (arith, taken, pending, until, exact, few),
              subst (λ x. now q ≤ now x.1) h
                  (assemble_from_compressed-Later rte c bs b index offset q),
            )
      ]
