-- ===== src/Config/Tests.antt =====
-- Runs of the configuration, and the theorems at concrete inputs.
use bitar.Base.{ℕ, ◌≤◌, ◌<◌, ◌≡◌, refl, none, some, arith}
use bitar.Rte.{BuildConfig}
use bitar.Config.{
  Configuration, Huffman, Checksum, defaults, set_decompressed_seg_size, seg_size_fuel,
  max_mbuf_data_size, max_seg_size,
}
use bitar.Config.SegSize.{set_decompressed_seg_size_fits}
use bitar.Config.SegSize.{set_decompressed_seg_size_diverges}

abbrev build : BuildConfig
build = record {
  pktmbuf_headroom = 128;
  max_memzone = 2560;
  max_lcore = 128;
  mempool_cache_max_size = 512;
}

abbrev base : Configuration
base = record {
  burst_size = 32;
  max_sgl_segs = 1;
  decompressed_seg_size = 2048;
  compressed_seg_size = 4096;
  window_size = 0;
  huffman_enc = Huffman.dynamic;
  max_preallocate_memzones = 2560;
  checksum_type = Checksum.no_checksum;
}

-- The default segment size of 2048 bytes gives a compressed size of 4096.
defaults_run : defaults build ≡ some base
unfolding defaults
defaults_run = refl

max_seg_size_run : max_seg_size build ≡ 59460
unfolding max_seg_size
max_seg_size_run = refl

set_largest_run :
    set_decompressed_seg_size seg_size_fuel 59460 base
    ≡ some (record base { decompressed_seg_size = 59460; compressed_seg_size = 65406 })
unfolding set_decompressed_seg_size
set_largest_run = refl

set_decompressed_seg_size_fits_example :
    (s : ℕ) × (set_decompressed_seg_size seg_size_fuel 40000 base
      ≡ some (record base { decompressed_seg_size = 40000; compressed_seg_size = s }))
    × (40000 < s)
    × (s ≤ max_mbuf_data_size build)
unfolding max_seg_size
set_decompressed_seg_size_fits_example =
    set_decompressed_seg_size_fits build 40000 base (omega arith) (omega arith) (omega arith)

set_decompressed_seg_size_diverges_example : set_decompressed_seg_size 400 0 base ≡ none
set_decompressed_seg_size_diverges_example = set_decompressed_seg_size_diverges 400 base
