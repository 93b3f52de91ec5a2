-- ===== src/Config.antt =====
-- src/include/config.h and src/config.cc: the configuration of a compress device.
pub mod SegSize
pub mod Transforms
mod Tests
use Prim.Native.Nat.{bit_and}
use bitar.Base.{
  ℕ, zero, suc, ◌+◌, ◌-◌, ◌*◌, ◌/◌, ◌%◌, ◌^◌, ltb, ◌==◌, if◌then◌else◌, Option, none, some,
}
use bitar.Rte.{BuildConfig}
use mathlib.Core.Option

-- rte_comp_huffman and rte_comp_checksum_type.
pub data Huffman : Type 0 where
  default fixed dynamic : Huffman

pub data Checksum : Type 0 where
  no_checksum crc32 adler32 crc32_adler32 xxhash32 : Checksum

-- The fields of Configuration<Class_MLX5_PCI>, and the one that BlueFieldConfiguration adds.
pub record Configuration : Type 0 where
  pub burst_size : ℕ
  pub max_sgl_segs : ℕ
  pub decompressed_seg_size : ℕ
  pub compressed_seg_size : ℕ
  pub window_size : ℕ
  pub huffman_enc : Huffman
  pub max_preallocate_memzones : ℕ
  pub checksum_type : Checksum

-- kMinSegSize, kDefaultSegSize; kMaxMbufDataSize, and kMaxSegSize with kExpanseRatio, the double next to
-- 11 / 10. It lies above, so a quotient that would be whole is rounded to the double below it and cut off
-- to one less; this is so for a headroom of less than 15,980 bytes.
abbrev pub min_seg_size : ℕ
min_seg_size = 8

abbrev pub default_seg_size : ℕ
default_seg_size = 2048

unfoldable pub max_mbuf_data_size : BuildConfig → ℕ
max_mbuf_data_size b = 2 ^ 16 - 1 - b.pktmbuf_headroom

unfoldable pub max_seg_size : BuildConfig → ℕ
unfolding max_mbuf_data_size
max_seg_size b = (max_mbuf_data_size b * 10 - 1) / 11

-- `while ((num & lower_bound) == 0) num >>= 1`; `none` when the fuel runs out.
unfoldable pub highest_bit : ℕ → ℕ → ℕ → Option ℕ
highest_bit zero num lower_bound = none
highest_bit (suc fuel) num lower_bound =
    let rest = highest_bit fuel (num / 2) lower_bound in
    if bit_and num lower_bound == 0 then rest else some num

-- The rest of UpdateCompressedSegSize(). The product with kExpanseRatio is a double; its integer
-- part is that of `11 * d / 10` for every 16-bit `d`. The casts to std::uint16_t are `% 2 ^ 16`.
unfoldable pub seg_size_of : ℕ → ℕ → ℕ
seg_size_of d num = (if ltb (2 ^ 16 / 2) num then d * 11 / 10 else num) % 2 ^ 16

-- The shift is done in an int, where a 16-bit value fits.
unfoldable pub update_compressed_seg_size : ℕ → Configuration → Option Configuration
unfolding highest_bit seg_size_of
update_compressed_seg_size fuel c =
    Option.map (λ num. record c { compressed_seg_size = seg_size_of c.decompressed_seg_size num })
      (highest_bit fuel (2 ^ 16) (c.decompressed_seg_size * 2))

unfoldable pub set_decompressed_seg_size : ℕ → ℕ → Configuration → Option Configuration
unfolding update_compressed_seg_size
set_decompressed_seg_size fuel size c =
    update_compressed_seg_size fuel (record c { decompressed_seg_size = size })

-- The rounds of the loop that a nonzero size needs at most, from bit 16 down to bit 0.
abbrev pub seg_size_fuel : ℕ
seg_size_fuel = 17

-- The member initializers, then the constructor. The default of max_preallocate_memzones_ is
-- RTE_MAX_MEMZONE.
unfoldable pub defaults : BuildConfig → Option Configuration
unfolding update_compressed_seg_size
defaults b = update_compressed_seg_size seg_size_fuel (record {
  burst_size = 32;
  max_sgl_segs = 1;
  decompressed_seg_size = default_seg_size;
  compressed_seg_size = 0;
  window_size = 0;
  huffman_enc = dynamic;
  max_preallocate_memzones = b.max_memzone;
  checksum_type = no_checksum;
})

-- The remaining setters.
unfoldable pub set_burst_size : ℕ → Configuration → Configuration
set_burst_size n c = record c { burst_size = n }

unfoldable pub set_max_sgl_segs : ℕ → Configuration → Configuration
set_max_sgl_segs n c = record c { max_sgl_segs = n }

unfoldable pub set_window_size : ℕ → Configuration → Configuration
set_window_size n c = record c { window_size = n }

unfoldable pub set_max_preallocate_memzones : ℕ → Configuration → Configuration
set_max_preallocate_memzones n c = record c { max_preallocate_memzones = n }

unfoldable pub set_huffman_enc : Huffman → Configuration → Configuration
set_huffman_enc huffman c = record c { huffman_enc = huffman }

unfoldable pub set_checksum_type : Checksum → Configuration → Configuration
set_checksum_type checksum c = record c { checksum_type = checksum }
