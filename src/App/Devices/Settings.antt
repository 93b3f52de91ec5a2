-- ===== src/App/Devices/Settings.antt =====
-- The configuration that GetBlueFieldCompressDevices() of apps/app_common.cc gives to a device, and the
-- number of memzones that a device accepts.
use bitar.Base.{
  ℕ, ◌≤◌, Bool, true, false, if◌then◌else◌, invalid, Option, some, Status, ok, err, ◌≡◌, refl, ap,
  arith,
}
use bitar.Config.{
  Configuration, defaults, set_decompressed_seg_size, set_burst_size, set_max_preallocate_memzones,
}
use bitar.Rte.{BuildConfig, Compressdev}
use bitar.Device.{validate_bluefield, validate_configuration}
use bitar.Device.Validated.{Validated, validate_configuration-Validated}
use bitar.App.{max_preallocate_memzones_total, max_preallocate_memzones}
use bitar.App.Devices.{bluefield_config}

-- The configuration of the demo, with so many memzones.
abbrev pub IsDemoConfig : ℕ → Configuration → Type 0
IsDemoConfig memzones c =
    (c.burst_size ≡ 32)
    × (c.max_sgl_segs ≡ 1)
    × (c.decompressed_seg_size ≡ 59460)
    × (c.compressed_seg_size ≡ 65406)
    × (c.max_preallocate_memzones ≡ memzones)

-- Each device is given the configuration of the demo, with its share of the memzones for the whole input.
pub bluefield_config_lem :
    (b : BuildConfig) (max_buffer_size n num_devices : ℕ)
    → (c : Configuration) × (bluefield_config b max_buffer_size n num_devices ≡ some c)
      × IsDemoConfig
          (max_preallocate_memzones
            (max_preallocate_memzones_total max_buffer_size 59460 n)
            num_devices)
          c
unfolding bluefield_config defaults set_decompressed_seg_size set_burst_size
    set_max_preallocate_memzones
bluefield_config_lem b size n k = (_, refl, (refl, refl, refl, refl, refl))

own_type :
    (t : Bool) (o : Option (Status × Configuration)) (c c' : Configuration)
    → (if t then some (err invalid, c) else o) ≡ some (ok tt, c')
    → o ≡ some (ok tt, c')
own_type true o c c' h = absurd (grind arith)
own_type false o c c' h = h

-- A validation that is OK asks for 20 memzones at least.
pub validated_memzones :
    (b : BuildConfig) (dev : Compressdev) (n : ℕ) (c c' : Configuration)
    → validate_bluefield b dev n c ≡ some (ok tt, c')
    → 20 ≤ c.max_preallocate_memzones
unfolding validate_bluefield
validated_memzones b dev n c c' h =
    let checked : validate_configuration b dev n c ≡ some (ok tt, c') = own_type _ _ c c' h in
    let v : Validated b dev n c c' = validate_configuration-Validated b dev n c c' checked in
    omega (arith, v.memzones, ap (λ x. x.max_preallocate_memzones) v.used)
