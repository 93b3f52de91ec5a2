-- ===== src/QueuePair/Order.antt =====
-- AccumulateUnused(), RecycleResources() and Release() of QueuePairMemory, src/memory.cc: which
-- operations are kept, in which order, and what is given back.
use bitar.Base.{
  ℕ, ◌+◌, ◌-◌, ◌≤◌, ◌<◌, ltb, ◌==◌, if◌then◌else◌, Bool, true, false, not, ◌&&◌, List, [], ◌∷◌,
  ◌++◌, invalid, Result, ok, err, Bool-cases, inl, inr, lt→ltb, ◌≡◌, refl, sym, ap, ◌∙◌, arith,
}
use mathlib.Core.Path.{subst}
use bitar.DeviceMemory.{DeviceMemory}
use bitar.DeviceMemory
use bitar.DeviceMemory.Valid.{IsValid}
use bitar.DeviceMemory.Reuse.{put-IsValid}
use bitar.QueuePair.{
  QueuePair, Mbuf, Operation, pointers, accumulate_unused, recycle_resources, is_compressed,
  release_destination, release_operation, release_all, release, front_is, pop_front,
}

not_less : (n u : ℕ) → u ≤ n → ltb n u ≡ false
not_less n u h = ground arith

in_place : (u n i : ℕ) → (ltb 0 u && not (u == n)) ≡ false → i < u → i ≡ n - u + i
in_place u n i e h = ground arith

put_if-IsValid :
    (b : Bool) (addr : ℕ) (m : DeviceMemory)
    → IsValid m
    → IsValid (if b then (DeviceMemory.put addr m).1 else m)
put_if-IsValid true addr m v = put-IsValid addr m v
put_if-IsValid false addr m v = v

-- AccumulateUnused() on both branches: more unused operations than there are assembled ones are
-- Invalid and change nothing; otherwise the last ones of the array are at its front, in their order,
-- they are the assembled ones, and nothing else changes.
pub accumulate_unused_lem :
    (u : ℕ) (q : QueuePair)
    → (q.num_ops_assembled < u → accumulate_unused u q ≡ (err invalid, q))
      × (u ≤ q.num_ops_assembled
          → (f : ℕ → ℕ) × (accumulate_unused u q
              ≡ (ok tt, record q { operations = f; num_ops_assembled = u }))
            × ((i : ℕ) → i < u → f i ≡ q.operations (q.num_ops_assembled - u + i)))
unfolding accumulate_unused
accumulate_unused_lem u q = (
  λ h. ground arith,
  λ h. elim (Bool-cases (ltb 0 u && not (u == q.num_ops_assembled))) [
    | inl moves ↦ (
      λ i. if ltb i u then q.operations (q.num_ops_assembled - u + i) else q.operations i,
      rw (not_less q.num_ops_assembled u h, moves) refl,
      λ i k. rw (lt→ltb i u k) refl,
    )
    | inr stays ↦ (
      q.operations,
      rw (not_less q.num_ops_assembled u h, stays) refl,
      λ i k. ap q.operations (in_place u q.num_ops_assembled i stays k),
    )
  ],
)

-- A list pushed onto another one, element by element.
abbrev pub pushed : List ℕ → List ℕ → List ℕ
pushed [] ys = ys
pushed (x ∷ xs) ys = pushed xs (x ∷ ys)

-- What Release() gives back: the destination memzones of some operations, and their mbufs.
abbrev pub put_compressed : List Mbuf → DeviceMemory → DeviceMemory
put_compressed [] m = m
put_compressed (x ∷ xs) m =
    put_compressed xs (if is_compressed x.shinfo then (DeviceMemory.put x.buf_addr m).1 else m)

abbrev pub put_all : (ℕ → Operation) → List ℕ → DeviceMemory → DeviceMemory
put_all f [] m = m
put_all f (p ∷ ps) m = put_all f ps (put_compressed (f p).m_dst.segments m)

abbrev pub free_chains : (ℕ → Operation) → List ℕ → List ℕ → List ℕ
free_chains f [] ys = ys
free_chains f (p ∷ ps) ys =
    free_chains f ps (pushed (pointers (f p).m_dst.segments) (pointers (f p).m_src.segments ++ ys))

release_destination_lem :
    (ms : List Mbuf) (q : QueuePair)
    → release_destination ms q ≡ record q {
      device_memory = put_compressed ms q.device_memory;
      freed_mbufs = pushed (pointers ms) q.freed_mbufs;
    }
unfolding release_destination
release_destination_lem [] q = refl
release_destination_lem (m ∷ ms) q = release_destination_lem ms (record q {
  device_memory =
      if is_compressed m.shinfo
      then (DeviceMemory.put m.buf_addr q.device_memory).1
      else q.device_memory;
  freed_mbufs = m.ptr ∷ q.freed_mbufs;
})

abbrev operation_freed : ℕ → QueuePair → QueuePair
operation_freed p q = record q {
  device_memory = put_compressed (q.operation_at p).m_dst.segments q.device_memory;
  freed_mbufs =
      pushed (pointers (q.operation_at p).m_dst.segments)
        (pointers (q.operation_at p).m_src.segments ++ q.freed_mbufs);
  freed_operations = p ∷ q.freed_operations;
}

release_operation_lem : (p : ℕ) (q : QueuePair) → release_operation p q ≡ operation_freed p q
unfolding release_operation
release_operation_lem p q =
    ap {A = QueuePair} {B = QueuePair} (λ r. record r { freed_operations = p ∷ r.freed_operations })
      (release_destination_lem (q.operation_at p).m_dst.segments
        (record q { freed_mbufs = pointers (q.operation_at p).m_src.segments ++ q.freed_mbufs }))

abbrev after_release : List ℕ → QueuePair → QueuePair
after_release ps q = record q {
  device_memory = put_all q.operation_at ps q.device_memory;
  pending_operations = [];
  freed_mbufs = free_chains q.operation_at ps q.freed_mbufs;
  freed_operations = pushed ps q.freed_operations;
}

release_all_lem :
    (ps : List ℕ) (q : QueuePair)
    → q.pending_operations ≡ ps
    → release_all ps q ≡ after_release ps q
unfolding release_all
release_all_lem [] q h = ap (λ xs. record q { pending_operations = xs }) h
release_all_lem (p ∷ ps) q h =
    ap (λ r. release_all ps (record r { pending_operations = ps })) (release_operation_lem p q)
    ∙ release_all_lem ps (record (operation_freed p q) { pending_operations = ps }) refl

-- Release() empties the queue of pending operations; it frees each of them, in their order, with both
-- of its chains, and puts the memzones of the destination chains back. The count of assembled
-- operations stays, and so does the array: their slots then hold operations that were freed.
pub release_lem :
    (q : QueuePair)
    → release q ≡ record q {
      device_memory = put_all q.operation_at q.pending_operations q.device_memory;
      pending_operations = [];
      freed_mbufs = free_chains q.operation_at q.pending_operations q.freed_mbufs;
      freed_operations = pushed q.pending_operations q.freed_operations;
    }
unfolding release
release_lem q = release_all_lem q.pending_operations q refl

put_compressed-IsValid :
    (ms : List Mbuf) (m : DeviceMemory) → IsValid m → IsValid (put_compressed ms m)
put_compressed-IsValid [] m v = v
put_compressed-IsValid (x ∷ xs) m v =
    put_compressed-IsValid xs
      (if is_compressed x.shinfo then (DeviceMemory.put x.buf_addr m).1 else m)
      (put_if-IsValid (is_compressed x.shinfo) x.buf_addr m v)

put_all-IsValid :
    (f : ℕ → Operation) (ps : List ℕ) (m : DeviceMemory) → IsValid m → IsValid (put_all f ps m)
put_all-IsValid f [] m v = v
put_all-IsValid f (p ∷ ps) m v =
    put_all-IsValid f ps (put_compressed (f p).m_dst.segments m)
      (put_compressed-IsValid (f p).m_dst.segments m v)

-- Release() keeps the memory of the device valid.
pub release-IsValid : (q : QueuePair) → IsValid q.device_memory → IsValid (release q).device_memory
release-IsValid q v =
    subst (λ x. IsValid x.device_memory) (sym (release_lem q))
      (put_all-IsValid q.operation_at q.pending_operations q.device_memory v)

oldest :
    (ndebug : Bool) (p : ℕ) (xs ps : List ℕ)
    → xs ≡ p ∷ ps
    → (not ndebug && not (front_is xs p)) ≡ false
oldest ndebug p xs ps h = rw (h) (ground arith)

-- RecycleResources() on both branches: with assertions on, an operation that is not the oldest pending
-- one is Invalid and changes nothing; the oldest pending one leaves the queue and is freed, with both
-- of its chains, while the memzones of its destination stay occupied.
pub recycle_resources_lem :
    (ndebug : Bool) (p : ℕ) (q : QueuePair)
    → (front_is q.pending_operations p ≡ false → recycle_resources false p q ≡ (err invalid, q))
      × ((ps : List ℕ)
          → q.pending_operations ≡ p ∷ ps
          → recycle_resources ndebug p q ≡ (
            ok tt,
            record q {
              pending_operations = ps;
              freed_mbufs =
                  pointers (q.operation_at p).m_dst.segments
                  ++ (pointers (q.operation_at p).m_src.segments ++ q.freed_mbufs);
              freed_operations = p ∷ q.freed_operations;
            },
          ))
unfolding recycle_resources
recycle_resources_lem ndebug p q = (
  λ h. rw (h) refl,
  λ ps h. rw (oldest ndebug p q.pending_operations ps h) (
      ap {A = List ℕ} {B = Result (Unit {0}) × QueuePair}
        (λ xs. (
          ok tt,
          record q {
            pending_operations = pop_front xs;
            freed_mbufs =
                pointers (q.operation_at p).m_dst.segments
                ++ (pointers (q.operation_at p).m_src.segments ++ q.freed_mbufs);
            freed_operations = p ∷ q.freed_operations;
          },
        ))
        h),
)
