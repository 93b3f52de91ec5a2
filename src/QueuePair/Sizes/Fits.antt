-- ===== src/QueuePair/Sizes/Fits.antt =====
-- The sizes that QueuePairMemory::Preallocate of src/memory.cc chooses are enough for a burst.
use mathlib.Core.Path.{subst}
use bitar.Base.{ℕ, ◌+◌, ◌-◌, ◌*◌, ◌/◌, ◌%◌, ◌^◌, ◌≤◌, ◌<◌, ◌≡◌, sym, ap, arith}
use bitar.Rte.{BuildConfig}
use bitar.Config.{Configuration}
use bitar.QueuePair.Assemble.{round_up_div}
use bitar.QueuePair.Assemble.Burst.{IsSized, FitsBurst, round_up_div_bounds}
use bitar.QueuePair.Sizes.{
  num_mbufs_in_burst, mbuf_pool_cache_size, num_inflight_mbufs, num_mbufs_in_pool, num_ops_in_pool,
}

-- The pools and arrays of a queue pair hold the bursts of the configuration.
pub record IsEnough (b : BuildConfig) (c : Configuration) : Type 0 where
  -- Each burst that AssembleFrom() builds fits into the array of mbufs, source and destination.
  pub mbufs_fit : (k n ops : ℕ) → FitsBurst c k n ops → n * 2 ≤ num_mbufs_in_burst c
  -- The pool of mbufs has a whole burst beyond those in flight.
  pub mbufs_left : num_inflight_mbufs c + num_mbufs_in_burst c ≤ num_mbufs_in_pool b c
  -- The pool of operations has as many operations as half of the mbufs need, at least a burst.
  pub ops_cover : num_mbufs_in_pool b c / 2 ≤ num_ops_in_pool b c * c.max_sgl_segs
  pub ops_burst : c.burst_size ≤ num_ops_in_pool b c
  -- The array of operations has room for a burst to enqueue and one to dequeue, which do not overlap.
  pub slots_fit : c.burst_size + c.burst_size ≤ (c.burst_size + num_ops_in_pool b c) % 2 ^ 32

twice_fits : (n burst k sgl : ℕ) → n ≤ (burst - k) * sgl → n * 2 ≤ burst * sgl * 2
twice_fits n burst k sgl h = grind arith

in_range :
    (half sgl : ℕ) → half < 2 ^ 24 → sgl < 2 ^ 16 → (half + sgl - 1) % 2 ^ 32 ≡ half + sgl - 1
in_range half sgl h k = omega arith

quotient_covers :
    (burst ops sgl half : ℕ) → 0 < sgl → burst * sgl ≤ half → half ≤ ops * sgl → burst ≤ ops
quotient_covers burst ops sgl half p h k = grind arith

quotient_bounded : (ops sgl bound : ℕ) → 0 < sgl → ops * sgl < bound → ops < bound
quotient_bounded ops sgl bound p h = grind arith

both_fit :
    (burst ops bound : ℕ)
    → burst ≤ ops
    → ops < bound
    → burst < 2 ^ 16
    → bound < 2 ^ 25
    → burst + burst ≤ (burst + ops) % 2 ^ 32
both_fit burst ops bound h k l m = omega arith

-- With at most 2 ^ 20 mbufs in a burst and a mempool cache that fits into 16 bits, no size overflows and
-- all of them are enough.
pub sizes-IsEnough :
    (b : BuildConfig) (c : Configuration)
    → IsSized c
    → c.burst_size * c.max_sgl_segs ≤ 2 ^ 20
    → b.mempool_cache_max_size < 2 ^ 16
    → IsEnough b c
unfolding num_mbufs_in_burst mbuf_pool_cache_size num_inflight_mbufs num_mbufs_in_pool
    num_ops_in_pool
sizes-IsEnough b c s few cache =
    let all : ℕ = c.burst_size * c.max_sgl_segs in
    let burst : num_mbufs_in_burst c ≡ all * 2 = omega arith in
    let pool : num_mbufs_in_pool b c
        ≡ num_inflight_mbufs c + mbuf_pool_cache_size b c + num_mbufs_in_burst c =
      omega arith in
    let half : ℕ = num_mbufs_in_pool b c / 2 in
    let small : half < 2 ^ 24 = omega arith in
    let whole : (half + c.max_sgl_segs - 1) % 2 ^ 32 ≡ half + c.max_sgl_segs - 1 =
      in_range half c.max_sgl_segs small s.segs_fit in
    let ops : num_ops_in_pool b c ≡ round_up_div half c.max_sgl_segs =
      ap (λ x. x / c.max_sgl_segs) whole in
    let bounds = round_up_div_bounds half c.max_sgl_segs s.segs in
    let cover : half ≤ num_ops_in_pool b c * c.max_sgl_segs =
      subst (λ x. half ≤ x * c.max_sgl_segs) (sym ops) bounds.0 in
    let least : num_ops_in_pool b c * c.max_sgl_segs < half + c.max_sgl_segs =
      subst (λ x. x * c.max_sgl_segs < half + c.max_sgl_segs) (sym ops) bounds.1 in
    let at_least : c.burst_size ≤ num_ops_in_pool b c =
      quotient_covers c.burst_size (num_ops_in_pool b c) c.max_sgl_segs half s.segs (omega arith)
        cover in
    let at_most : num_ops_in_pool b c < half + c.max_sgl_segs =
      quotient_bounded (num_ops_in_pool b c) c.max_sgl_segs (half + c.max_sgl_segs) s.segs least in
    record {
      mbufs_fit = λ k n ops f.
          subst (λ x. n * 2 ≤ x) (sym burst) (twice_fits n c.burst_size k c.max_sgl_segs f.within);
      mbufs_left = omega arith;
      ops_cover = cover;
      ops_burst = at_least;
      slots_fit =
          both_fit c.burst_size (num_ops_in_pool b c) (half + c.max_sgl_segs) at_least at_most
            s.burst (omega arith);
    }
