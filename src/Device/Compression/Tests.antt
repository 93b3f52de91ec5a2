-- ===== src/Device/Compression/Tests.antt =====
-- Recycle() of a buffer in a memzone that is occupied, with another one in the pool.
use bitar.Base.{true, List, ok, ◌≡◌, ℕ, ◌+◌, ◌*◌, [], ◌∷◌, some, refl, arith}
use bitar.Rte.{Memzone, success}
use bitar.MemoryPool.{of}
use bitar.DeviceMemory.{DeviceMemory}
use bitar.DeviceMemory.Valid.{IsValid}
use bitar.QueuePair.{Mbuf, compressed_mbuf, Operation, reset_operation}
use bitar.QueuePair.Assemble.{Buffer}
use bitar.Device.Bursts.{Run, dequeue_one}
use bitar.Device.Compression.{recycle, collect, compress_callback}
use bitar.Device.Compression.Collected.{Collected, collect-Collected, dequeue_one-leaks}
use bitar.Device.Compression.Recycling.{Backed, no_buffers, one_more, Recycled, recycle-Recycled}

abbrev zone : ℕ → Memzone
zone n = record { ptr = n + 1; addr = 4096 * (n + 1); iova = 0; len = 4096 }

abbrev memory : DeviceMemory
memory = record {
  process = record {
    world = record {
      now = 2;
      allocated_memzones = (8192, zone 1) ∷ (4096, zone 0) ∷ [];
      trace = [];
    };
    updates = [];
  };
  memzone_pool = some (zone 0) ∷ [];
  occupied_memzones = some (zone 1) ∷ [];
  num_preallocated_memzones = 2;
}

memory-IsValid : IsValid memory
unfolding of
memory-IsValid = record {
  keyed = omega arith;
  pool_held = (refl, tt);
  occupied_held = (refl, tt);
  once = λ p. ground arith;
}

abbrev buffer : Buffer
buffer = record { data_addr = 8192; size = 100 }

buffer-Backed : Backed memory.process.world.allocated_memzones (buffer ∷ []) (some (zone 1) ∷ [])
unfolding of
buffer-Backed = one_more (zone 1) refl no_buffers

recycle-Recycled_example : Recycled 1 (some (zone 1) ∷ []) memory (recycle (buffer ∷ []) memory)
recycle-Recycled_example =
    recycle-Recycled (buffer ∷ []) (some (zone 1) ∷ []) memory memory-IsValid buffer-Backed
      (λ p. omega arith)

abbrev mbuf : ℕ → Mbuf
mbuf n = record {
  ptr = 200 + n;
  buf_addr = 4096 * (n + 1);
  buf_iova = 0;
  data_len = 4096;
  shinfo = compressed_mbuf;
}

collect-Collected_example :
    Collected (mbuf 0 ∷ mbuf 1 ∷ mbuf 2 ∷ []) 5000 (collect (mbuf 0 ∷ mbuf 1 ∷ mbuf 2 ∷ []) 5000)
collect-Collected_example = collect-Collected (mbuf 0 ∷ mbuf 1 ∷ mbuf 2 ∷ []) 5000

-- An operation on two segments that have been compressed into 3000 bytes.
abbrev operation : Operation
operation = record reset_operation {
  m_dst = record { segments = mbuf 0 ∷ mbuf 1 ∷ []; pkt_len = 8192 };
}

abbrev chained : Run (List Buffer)
chained = record {
  queue_pair = record {
    device_memory = record memory {
      memzone_pool = [];
      occupied_memzones = some (zone 1) ∷ some (zone 0) ∷ [];
    };
    num_ops_assembled = 0;
    pending_operations = 100 ∷ [];
    operations = λ i. 100;
    mbufs = [];
    operation_at = λ p. operation;
    freed_mbufs = [];
    freed_operations = [];
  };
  num_maybe_not_ok = 0;
  output = [];
}

dequeue_one-leaks_example :
    let (r, s) =
      dequeue_one true compress_callback
        (record { op = 100; status = success; produced = 3000 })
        chained in
    (r ≡ ok tt)
    × (s.output ≡ record { data_addr = 4096; size = 3000 } ∷ [])
    × (s.queue_pair.device_memory ≡ chained.queue_pair.device_memory)
    × (s.queue_pair.freed_operations ≡ 100 ∷ [])
dequeue_one-leaks_example =
    dequeue_one-leaks (record { op = 100; status = success; produced = 3000 }) chained (mbuf 0)
      (mbuf 1 ∷ []) refl refl (omega arith) (omega arith)
