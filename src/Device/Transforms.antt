-- ===== src/Device/Transforms.antt =====
-- What src/device.cc checks of the transforms of src/config.cc.
use bitar.Base.{ℕ, true, some, ok, ◌≡◌, refl}
use bitar.Config.{Configuration}
use bitar.Config.Transforms.{CompressXform, DecompressXform, compress_xform, decompress_xform}
use bitar.Rte.{BuildConfig, Compressdev, Capability}
use bitar.Device.{validate_configuration, is_fixed, is_dynamic}
use bitar.Device.Validated.{Validated, validate_configuration-Validated}

-- A transform that a device supports, and one that reads what it writes.
pub record IsReadable (cap : Capability) (x : CompressXform) (y : DecompressXform) : Type 0 where
  pub same_algo : x.algo ≡ y.algo
  pub same_chksum : x.chksum ≡ y.chksum
  pub same_window : x.window_size ≡ y.window_size
  pub same_hash : x.hash_algo ≡ y.hash_algo
  pub fixed_supported : is_fixed x.huffman ≡ true → cap.huffman_fixed ≡ true
  pub dynamic_supported : is_dynamic x.huffman ≡ true → cap.huffman_dynamic ≡ true

-- Where ValidateConfiguration() is OK, the two transforms of the configuration in use fit each other:
-- data that one writes the other reads, and the device supports the coding that is asked for.
pub transforms-IsReadable :
    (b : BuildConfig) (dev : Compressdev) (n : ℕ) (c c' : Configuration)
    → validate_configuration b dev n c ≡ some (ok tt, c')
    → (cap : Capability) × (dev.capability ≡ some cap)
      × IsReadable cap (compress_xform c') (decompress_xform c')
unfolding compress_xform decompress_xform
transforms-IsReadable b dev n c c' h =
    let v : Validated b dev n c c' = validate_configuration-Validated b dev n c c' h in
    (
      v.cap,
      v.supports_deflate,
      record {
        same_algo = refl;
        same_chksum = refl;
        same_window = refl;
        same_hash = refl;
        fixed_supported = v.fixed_supported;
        dynamic_supported = v.dynamic_supported;
      },
    )
