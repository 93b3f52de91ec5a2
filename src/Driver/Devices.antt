-- ===== src/Driver/Devices.antt =====
-- GetDevices and HasDeviceIds of src/driver.cc, from the request to the devices.
use bitar.Base.{
  ℕ, ◌+◌, ◌-◌, ◌/◌, ◌^◌, ◌≤◌, ◌<◌, ltb, ◌==◌, if◌then◌else◌, Bool, true, false, ◌||◌, List, [], ◌∷◌,
  some, length, ok, ◌≡◌, ◌↔◌, refl, ◌∙◌, arith,
}
use bitar.Rte.{BuildConfig}
use bitar.Driver.{
  Platform, DeviceInfo, none_missing, at_least_one, get_from, has_id, not_available, has_device_ids,
  list_available_device_ids, get_available, get_devices,
}
use bitar.Driver.Lcores.{eligible, worker_lcores_of_lem}
use bitar.Driver.Split.{AllCreated, IsSplit, create_devices_total}

-- Every id of the request is available.
pub data AllAvailable (avail_dev_ids : List ℕ) : List ℕ → Type 0 where
  no_request : AllAvailable avail_dev_ids []
  more_requests :
      {id : ℕ} {ids : List ℕ}
      → has_id avail_dev_ids id ≡ true
      → AllAvailable avail_dev_ids ids
      → AllAvailable avail_dev_ids (id ∷ ids)

not_available_none : (avail ids : List ℕ) → AllAvailable avail ids → not_available avail ids ≡ []
unfolding not_available
not_available_none avail [] no_request = refl
not_available_none avail (id ∷ ids) (more_requests h a) = rw (h) (not_available_none avail ids a)

keeps_none :
    (b : Bool) (id : ℕ) (rest : List ℕ)
    → (if b then rest else id ∷ rest) ≡ []
    → (b ≡ true) × (rest ≡ [])
keeps_none true id rest h = (refl, h)
keeps_none false id rest h = absurd (grind arith)

not_available-empty : (avail ids : List ℕ) → not_available avail ids ≡ [] → AllAvailable avail ids
unfolding not_available
not_available-empty avail [] h = no_request
not_available-empty avail (id ∷ ids) h =
    let (found, rest) = keeps_none (has_id avail id) id (not_available avail ids) h in
    more_requests found (not_available-empty avail ids rest)

ok_if_empty : (xs : List ℕ) → none_missing xs ≡ ok tt → xs ≡ []
ok_if_empty [] h = refl
ok_if_empty (x ∷ xs) h = absurd (grind arith)

-- HasDeviceIds() is OK exactly where every id of the request is among the available ones.
pub has_device_ids_iff :
    (avail ids : List ℕ) → (has_device_ids avail ids ≡ ok tt) ↔ AllAvailable avail ids
unfolding has_device_ids
has_device_ids_iff avail ids = (
  λ h. not_available-empty avail ids (ok_if_empty (not_available avail ids) h),
  λ a. rw (not_available_none avail ids a) refl,
)

enough_workers : (n k : ℕ) → 0 < k → k ≤ n → (n == 0 || ltb n k) ≡ false
enough_workers n k p h = ground arith

same : (n : ℕ) → (n == n) ≡ true
same n = ground arith

request_lem :
    (b : BuildConfig) (p : Platform) (avail : List ℕ) (id : ℕ) (ids : List ℕ)
    → AllAvailable avail (id ∷ ids)
    → get_from b p (id ∷ ids) (at_least_one avail) ≡ get_available b p (id ∷ ids)
request_lem b p [] id ids (more_requests h a) = absurd (grind arith)
request_lem b p (x ∷ xs) id ids a = rw ((has_device_ids_iff (x ∷ xs) (id ∷ ids)).1 a) refl

-- GetDevices() of a request that names a device and no unavailable one, where DPDK counts the enabled
-- lcores right, there are as many workers as devices, fewer than 2 ^ 16 for each, and every device can
-- be created: it succeeds, does not abort, and splits exactly the enabled lcores but the main one among
-- the devices of the request, in order and as evenly as possible.
pub get_devices_lem :
    (b : BuildConfig) (p : Platform) (id : ℕ) (ids : List ℕ)
    → AllAvailable p.devices (id ∷ ids)
    → p.lcore_count ≡ length (eligible p true 0 b.max_lcore) + 1
    → length (id ∷ ids) ≤ length (eligible p true 0 b.max_lcore)
    → length (eligible p true 0 b.max_lcore) / length (id ∷ ids) < 2 ^ 16
    → AllCreated p (id ∷ ids)
    → (ds : List DeviceInfo) × (get_devices b p (id ∷ ids) ≡ some (ok ds))
      × IsSplit
          (length (eligible p true 0 b.max_lcore) / length (id ∷ ids))
          (id ∷ ids)
          (eligible p true 0 b.max_lcore)
          ds
unfolding get_devices get_available list_available_device_ids
get_devices_lem b p id ids avail count enough fits all =
    let workers : List ℕ = eligible p true 0 b.max_lcore in
    let (ds, e, split) = create_devices_total p id ids workers fits all in
    let counted : p.lcore_count - 1 ≡ length workers = omega arith in
    let got : get_available b p (id ∷ ids) ≡ some (ok ds) =
      rw (worker_lcores_of_lem b p, counted)
        (rw
          (
            enough_workers (length workers) (length (id ∷ ids)) (omega arith) enough,
            same (length workers),
          )
          e) in
    (ds, request_lem b p p.devices id ids avail ∙ got, split)
