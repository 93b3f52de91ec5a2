-- ===== src/App/Devices/Startup.antt =====
-- The devices that GetBlueFieldCompressDevices() of apps/app_common.cc returns, and what it asks for.
use bitar.Base.{
  ℕ, suc, ◌+◌, ◌-◌, ◌*◌, ◌/◌, ◌≤◌, ◌<◌, true, StatusCode, List, [], ◌∷◌, Option, none, some, length,
  Status, Result, ok, err, Bool-cases, Option-cases, inl, inr, ◌≡◌, refl, sym, ap, ◌∙◌, arith,
}
use mathlib.Core.Option
use mathlib.Core.Path.{subst}
use bitar.Config.{Configuration}
use bitar.Rte.{BuildConfig, Rte, Compressdev}
use bitar.MemoryPool.{Pool}
use bitar.Driver.{Platform, DeviceInfo, list_available_device_ids, get_devices}
use bitar.Device.{started, num_qps}
use bitar.Device.Setup.{Device, initialize, with_validation}
use bitar.Device.Setup.States.{OutcomeIfAny, initialize-Outcome}
use bitar.App.{max_preallocate_memzones_total, max_preallocate_memzones}
use bitar.App.Devices.{
  Hardware, constructed, cons_started, set_up_device, set_up_each, set_up_found, of_available,
  num_parallel_tests, get_bluefield_compress_devices,
}
use bitar.App.Devices.Settings.{bluefield_config_lem, validated_memzones}

abbrev pub AllStarted : List Device → Type 0
AllStarted [] = Unit {0}
AllStarted (d ∷ ds) = (d.state ≡ started) × AllStarted ds

started_of :
    (b : BuildConfig) (rte : Rte) (dev : Compressdev) (of_pair : ℕ → Compressdev)
    (o : Option (Status × Device)) (d : Device)
    → OutcomeIfAny b rte dev of_pair o
    → o ≡ some (ok tt, d)
    → d.state ≡ started
started_of b rte dev of_pair none d h e = absurd (Option.none-ne-some _ e)
started_of b rte dev of_pair (some (ok u, d')) d h e =
    ap (λ x. x.1.state) (Option.some-injective _ _ (sym e)) ∙ h
started_of b rte dev of_pair (some (err c, d')) d h e = absurd (grind arith)

same_devices : {ds es : List Device} → some (ok ds) ≡ some (ok es) → ds ≡ es
same_devices h = ground arith

failed : (e : StatusCode) (ds : List Device) → some (err e) ≡ some (ok ds) → ⊥
failed e ds h = grind arith

module _ (b : BuildConfig) (rte : Rte) (hardware : ℕ → Hardware) (size n num_devices : ℕ) where
  cons_started-inv :
      (d : Device) (o : Option (Result (List Device))) (ds : List Device)
      → cons_started d o ≡ some (ok ds)
      → (rest : List Device) × (o ≡ some (ok rest)) × (ds ≡ d ∷ rest)
  cons_started-inv d none ds h = absurd (Option.none-ne-some _ h)
  cons_started-inv d (some (ok rest)) ds h = (rest, refl, ground arith)
  cons_started-inv d (some (err e)) ds h = absurd (grind arith)

  validated :
      (dev : Compressdev) (of_pair : ℕ → Compressdev) (d d' : Device)
      (o : Option (Status × Configuration))
      → with_validation b rte dev of_pair o d ≡ some (ok tt, d')
      → (c' : Configuration) × (o ≡ some (ok tt, c'))
  validated dev of_pair d d' none h = absurd (Option.none-ne-some _ h)
  validated dev of_pair d d' (some (ok u, c)) h = (c, refl)
  validated dev of_pair d d' (some (err e, c)) h = absurd (grind arith)

  initialized :
      (dev : Compressdev) (of_pair : ℕ → Compressdev) (c : Configuration) (info : DeviceInfo)
      (p : Pool) (d : Device)
      → initialize b rte dev of_pair true c (constructed info p) ≡ some (ok tt, d)
      → (d.state ≡ started) × (20 ≤ c.max_preallocate_memzones)
  unfolding initialize
  initialized dev of_pair c info p d h =
      let (c', e) = validated dev of_pair (constructed info p) d _ h in
      (
        started_of b rte dev of_pair _ d
            (initialize-Outcome b rte dev of_pair true c (constructed info p) (omega arith)) h,
        validated_memzones b dev (num_qps info.worker_lcores) c c' e,
      )

  set_up_device-started :
      (info : DeviceInfo) (p : Pool) (d : Device)
      → set_up_device b rte hardware size n num_devices info p ≡ some (ok tt, d)
      → (d.state ≡ started)
        × (20 ≤ max_preallocate_memzones (max_preallocate_memzones_total size 59460 n) num_devices)
  unfolding set_up_device
  set_up_device-started info p d h = elim (Bool-cases (hardware info.device_id).is_bluefield) [
    | inl e ↦
        let (c, made, demo) = bluefield_config_lem b size n num_devices in
        let (on, memzones) =
          initialized (hardware info.device_id).dev (hardware info.device_id).of_pair c info p d
            (rw (e, made, set_up_device) at h) in
        (on, omega (arith, memzones, demo.4))
    | inr e ↦ absurd (grind arith)
  ]

  set_up_each-AllStarted :
      (infos : List DeviceInfo) (p : Pool) (ds : List Device)
      → set_up_each b rte hardware size n num_devices infos p ≡ some (ok ds)
      → AllStarted ds
        × (length ds ≡ length infos)
        × (0 < length infos
            → 20
              ≤ max_preallocate_memzones (max_preallocate_memzones_total size 59460 n) num_devices)
  unfolding set_up_each
  set_up_each-AllStarted [] p ds h =
      let none_left : [] ≡ ds = same_devices h in
      (subst AllStarted none_left tt, ap length (sym none_left), λ k. absurd (omega arith))
  set_up_each-AllStarted (info ∷ infos) p ds h =
      elim (Option-cases (set_up_device b rte hardware size n num_devices info p)) [
        | inl e ↦ absurd (Option.none-ne-some _ (rw (e, set_up_each) at h))
        | inr ((err c, d), e) ↦ absurd (failed c ds (rw (e, set_up_each) at h))
        | inr ((ok u, d), e) ↦
            let (rest, more, all) = cons_started-inv d _ ds (rw (e, set_up_each) at h) in
            let (on, memzones) = set_up_device-started info p d e in
            let (others, len, _) = set_up_each-AllStarted infos d.process rest more in
            (subst AllStarted (sym all) (on, others), ap length all ∙ ap suc len, λ k. memzones)
      ]

large_enough : (total k : ℕ) → 0 < k → 20 ≤ max_preallocate_memzones total k → 19 * k < total
unfolding max_preallocate_memzones
large_enough total k p h = grind arith

module _ (b : BuildConfig) (rte : Rte) (hardware : ℕ → Hardware) (size n : ℕ) where
  found-AllStarted :
      (p : Pool) (o : Option (Result (List DeviceInfo))) (ds : List Device)
      → set_up_found b rte hardware size n p o ≡ some (ok ds)
      → AllStarted ds
        × (0 < length ds → 19 * length ds < max_preallocate_memzones_total size 59460 n)
  found-AllStarted p none ds h = absurd (Option.none-ne-some _ h)
  found-AllStarted p (some (err e)) ds h = absurd (failed e ds h)
  found-AllStarted p (some (ok infos)) ds h =
      let (on, len, memzones) =
        set_up_each-AllStarted b rte hardware size n (length infos) infos p ds h in
      (
        on,
        λ k.
            subst (λ j. 19 * j < max_preallocate_memzones_total size 59460 n) (sym len)
              (large_enough _ (length infos) (omega arith) (memzones (omega arith))),
      )

-- Every device that GetBlueFieldCompressDevices() returns has started. It succeeds only for a buffer
-- that is large enough: the segments of the buffer and the tests together outnumber 19 memzones for
-- each device, since a device whose share is below 20 is refused.
pub get_bluefield_compress_devices-AllStarted :
    (b : BuildConfig) (rte : Rte) (hardware : ℕ → Hardware) (platform : Platform) (size : ℕ)
    (p : Pool) (ds : List Device)
    → get_bluefield_compress_devices b rte hardware platform size p ≡ some (ok ds)
    → AllStarted ds
      × (0 < length ds → 19 * length ds < (size + 59460 - 1) / 59460 + num_parallel_tests platform)
unfolding get_bluefield_compress_devices max_preallocate_memzones_total
get_bluefield_compress_devices-AllStarted b rte hardware platform size p ds h =
    available (list_available_device_ids platform) h
  where
    available :
        (r : Result (List ℕ))
        → of_available b rte hardware platform size p r ≡ some (ok ds)
        → AllStarted ds
          × (0 < length ds
              → 19 * length ds < (size + 59460 - 1) / 59460 + num_parallel_tests platform)
    available (err e) k = absurd (failed e ds k)
    available (ok ids) k =
        found-AllStarted b rte hardware size (num_parallel_tests platform) p
          (get_devices b platform ids) ds k
