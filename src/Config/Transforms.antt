-- ===== src/Config/Transforms.antt =====
-- The transforms that a BlueFieldConfiguration gives to DPDK, src/config.cc. rte_comp_xform is a union of
-- the two, with a tag.
use bitar.Base.{ℕ}
use bitar.Config.{Configuration, Huffman, Checksum}

-- rte_comp_algorithm and rte_comp_hash_algorithm, as far as they are used.
pub data Algorithm : Type 0 where
  deflate : Algorithm

pub data HashAlgorithm : Type 0 where
  no_hash : HashAlgorithm

-- rte_comp_compress_xform and rte_comp_decompress_xform.
pub record CompressXform : Type 0 where
  pub algo : Algorithm
  pub huffman : Huffman
  pub level : ℕ
  pub window_size : ℕ
  pub chksum : Checksum
  pub hash_algo : HashAlgorithm

pub record DecompressXform : Type 0 where
  pub algo : Algorithm
  pub chksum : Checksum
  pub window_size : ℕ
  pub hash_algo : HashAlgorithm

unfoldable pub compress_xform : Configuration → CompressXform
compress_xform c = record {
  algo = deflate;
  huffman = c.huffman_enc;
  level = 1;
  window_size = c.window_size;
  chksum = c.checksum_type;
  hash_algo = no_hash;
}

-- The code then writes the hash algorithm of a compress transform as well, which stands behind the last
-- field of this one.
unfoldable pub decompress_xform : Configuration → DecompressXform
decompress_xform c = record {
  algo = deflate;
  chksum = c.checksum_type;
  window_size = c.window_size;
  hash_algo = no_hash;
}
