-- ===== src/QueuePair/Assemble/Burst.antt =====
-- The size of a burst, as AssembleFrom of src/memory.cc computes it: how many mbufs and operations.
use bitar.Base.{ℕ, ◌+◌, ◌-◌, ◌*◌, ◌%◌, ◌^◌, ◌≤◌, ◌<◌, min, ◌≡◌, arith}
use bitar.Config.{Configuration}
use bitar.QueuePair.Assemble.{
  round_up_div, next_burst_bytes, bytes_to_mbufs, next_burst_buffers, mbufs_to_ops,
}

-- A quotient that is rounded up covers the dividend, and one less does not.
pub round_up_div_bounds :
    (a d : ℕ) → 0 < d → (a ≤ round_up_div a d * d) × (round_up_div a d * d < a + d)
round_up_div_bounds a d p = grind arith

round_up_div-le : (a d m : ℕ) → 0 < d → a ≤ m * d → round_up_div a d ≤ m
round_up_div-le a d m p h = grind (arith, round_up_div_bounds a d p)

positive_product : (a b : ℕ) → 0 < a → 0 < b → 0 < a * b
positive_product a b p q = grind arith

round_up_div-pos : (a d : ℕ) → 0 < d → 0 < a → 0 < round_up_div a d
round_up_div-pos a d p h = grind (arith, round_up_div_bounds a d p)

-- The ranges that ValidateConfiguration() and the 16-bit fields leave.
pub record IsSized (c : Configuration) : Type 0 where
  pub burst : c.burst_size < 2 ^ 16
  pub segs : 0 < c.max_sgl_segs
  pub segs_fit : c.max_sgl_segs < 2 ^ 16
  pub seg_size : 0 < c.decompressed_seg_size
  pub seg_size_fits : c.decompressed_seg_size < 2 ^ 16

-- `n` mbufs are as many as `ops` operations need, and fit a burst that has `k` operations already.
pub record FitsBurst (c : Configuration) (k n ops : ℕ) : Type 0 where
  pub some_mbufs : 0 < n
  pub within : n ≤ (c.burst_size - k) * c.max_sgl_segs
  pub enough : n ≤ ops * c.max_sgl_segs
  pub least : ops * c.max_sgl_segs < n + c.max_sgl_segs
  pub room : k + ops ≤ c.burst_size

product_fits : (a b : ℕ) → a < 2 ^ 16 → b < 2 ^ 16 → a * b < 2 ^ 32
product_fits a b h k = grind arith

room_fits : (c : Configuration) (k : ℕ) → IsSized c → (c.burst_size - k) * c.max_sgl_segs < 2 ^ 32
room_fits c k s = product_fits (c.burst_size - k) c.max_sgl_segs (omega arith) (omega arith)

mbufs-FitsBurst :
    (c : Configuration) (k n : ℕ)
    → IsSized c
    → k < c.burst_size
    → 0 < n
    → n ≤ (c.burst_size - k) * c.max_sgl_segs
    → FitsBurst c k n (mbufs_to_ops c n)
unfolding mbufs_to_ops
mbufs-FitsBurst c k n s h p w =
    let le : round_up_div n c.max_sgl_segs ≤ c.burst_size - k =
      round_up_div-le n c.max_sgl_segs (c.burst_size - k) s.segs w in
    let same : round_up_div n c.max_sgl_segs % 2 ^ 16 ≡ round_up_div n c.max_sgl_segs =
      omega arith in
    let bounds = round_up_div_bounds n c.max_sgl_segs s.segs in
    record {
      some_mbufs = p;
      within = w;
      enough = rw same bounds.0;
      least = rw same bounds.1;
      room = rw same (omega arith);
    }

-- Neither does the cast to 16 bits cut anything off.
pub mbufs_to_ops_lem :
    (c : Configuration) (k n : ℕ)
    → IsSized c
    → n ≤ (c.burst_size - k) * c.max_sgl_segs
    → mbufs_to_ops c n ≡ round_up_div n c.max_sgl_segs
unfolding mbufs_to_ops
mbufs_to_ops_lem c k n s w =
    let le : round_up_div n c.max_sgl_segs ≤ c.burst_size - k =
      round_up_div-le n c.max_sgl_segs (c.burst_size - k) s.segs w in
    omega arith

-- What the compressing overload takes from the bytes that remain, where there is room for an
-- operation: no cast cuts anything off, the mbufs cover the bytes with none to spare, and neither
-- they nor the operations exceed the burst.
pub next_burst_bytes-FitsBurst :
    (c : Configuration) (k remaining : ℕ)
    → IsSized c
    → k < c.burst_size
    → 0 < remaining
    → let bytes = next_burst_bytes c k remaining in
      let n = bytes_to_mbufs c bytes in
      FitsBurst c k n (mbufs_to_ops c n)
      × (0 < bytes)
      × (bytes ≤ remaining)
      × (bytes ≤ n * c.decompressed_seg_size)
      × (n * c.decompressed_seg_size < bytes + c.decompressed_seg_size)
unfolding next_burst_bytes bytes_to_mbufs
next_burst_bytes-FitsBurst c k remaining s h p =
    let room : ℕ = (c.burst_size - k) * c.max_sgl_segs in
    let seg : ℕ = c.decompressed_seg_size in
    let some_room : 0 < room =
      positive_product (c.burst_size - k) c.max_sgl_segs (omega arith) s.segs in
    let some_bytes : 0 < room * seg = positive_product room seg some_room s.seg_size in
    let bytes : ℕ = min remaining (room * seg) in
    let n : ℕ = round_up_div bytes seg in
    let le : n ≤ room = round_up_div-le bytes seg room s.seg_size (omega arith) in
    let bounds = round_up_div_bounds bytes seg s.seg_size in
    let some_n : 0 < n = round_up_div-pos bytes seg s.seg_size (omega arith) in
    let fits : room < 2 ^ 32 = room_fits c k s in
    let same : n % 2 ^ 32 ≡ n = omega arith in
    (
      rw same (mbufs-FitsBurst c k n s h some_n le),
      omega arith,
      omega arith,
      rw same bounds.0,
      rw same bounds.1,
    )

-- The decompressing overload, likewise, takes as many buffers as remain or as fit.
pub next_burst_buffers-FitsBurst :
    (c : Configuration) (k remaining : ℕ)
    → IsSized c
    → k < c.burst_size
    → 0 < remaining
    → let n = next_burst_buffers c k remaining in
      FitsBurst c k n (mbufs_to_ops c n)
      × (n ≤ remaining)
      × (n ≡ min ((c.burst_size - k) * c.max_sgl_segs) remaining)
unfolding next_burst_buffers
next_burst_buffers-FitsBurst c k remaining s h p =
    let room : ℕ = (c.burst_size - k) * c.max_sgl_segs in
    let fits : room < 2 ^ 32 = room_fits c k s in
    let some_room : 0 < room = grind arith in
    let same : min room remaining % 2 ^ 32 ≡ min room remaining = omega arith in
    (
      rw same (mbufs-FitsBurst c k (min room remaining) s h (omega arith) (omega arith)),
      omega arith,
      same,
    )
