-- ===== src/DeviceMemory/Preallocate.antt =====
-- Preallocate() of DeviceMemory of src/memory.cc: how many memzones it ends with, and that they are
-- distinct and tracked.
use bitar.Base.{◌≤◌, ◌<◌, ◌≡◌, [], ok, err, out_of_memory, ◌⊎◌, length, Status}
use bitar.Config.{Configuration}
use bitar.Rte.{Rte}
use bitar.DeviceMemory.{DeviceMemory, min_preallocate_memzones}
use bitar.DeviceMemory.Valid.{IsValid}

-- How the loop ends: with all memzones; with fewer but at least the minimum, when DPDK has no more;
-- or with an error below the minimum. The occupied memzones stay.
pub data Fills (rte : Rte) (c : Configuration) (m : DeviceMemory)
    : Status × DeviceMemory → Type 0 where
  complete :
      (m' : DeviceMemory)
      → IsValid m'
      → m'.occupied_memzones ≡ m.occupied_memzones
      → length m'.memzone_pool ≡ c.max_preallocate_memzones
      → Fills rte c m (ok tt, m')
  partial :
      (m' : DeviceMemory)
      → IsValid m'
      → m'.occupied_memzones ≡ m.occupied_memzones
      → min_preallocate_memzones ≤ length m'.memzone_pool
      → length m'.memzone_pool < c.max_preallocate_memzones
      → Fills rte c m (ok tt, m')
  starved :
      (m' : DeviceMemory)
      → IsValid m'
      → m'.occupied_memzones ≡ m.occupied_memzones
      → length m'.memzone_pool < min_preallocate_memzones
      → length m'.memzone_pool < c.max_preallocate_memzones
      → Fills rte c m (err out_of_memory, m')

abbrev pub Preallocated : Configuration → Status × DeviceMemory → Type 0
Preallocated c (r, m) =
    IsValid m
    × (m.occupied_memzones ≡ [])
    × (((r ≡ ok tt)
          × (m.num_preallocated_memzones ≡ length m.memzone_pool)
          × ((length m.memzone_pool ≡ c.max_preallocate_memzones)
              ⊎ ((min_preallocate_memzones ≤ length m.memzone_pool)
                  × (length m.memzone_pool < c.max_preallocate_memzones))))
        ⊎ ((r ≡ err out_of_memory) × (length m.memzone_pool < min_preallocate_memzones)))
