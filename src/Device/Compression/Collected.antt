-- ===== src/Device/Compression/Collected.antt =====
-- The callback of Compress(), src/device.cc: which of the destination memzones of an operation become
-- buffers of the result, and which are left behind.
use bitar.Base.{
  ℕ, zero, suc, ◌+◌, ◌-◌, ◌≤◌, ◌<◌, min, true, List, [], ◌∷◌, ◌++◌, length, take, ok, ◌≡◌, refl, ap,
  ◌∙◌, arith,
}
use bitar.Rte.{Dequeued, success}
use bitar.QueuePair.{Mbuf, recycle_resources}
use bitar.QueuePair.Assemble.{Buffer}
use bitar.Device.Bursts.{Run, dequeue_one}
use bitar.Device.Compression.{collect, compress_callback}

abbrev pub bytes_of : List Buffer → ℕ
bytes_of [] = 0
bytes_of (b ∷ bs) = b.size + bytes_of bs

abbrev pub addresses : List Buffer → List ℕ
addresses [] = []
addresses (b ∷ bs) = b.data_addr ∷ addresses bs

-- The room that mbufs have, and where it stands.
abbrev pub room : List Mbuf → ℕ
room [] = 0
room (m ∷ ms) = m.data_len + room ms

abbrev pub places : List Mbuf → List ℕ
places [] = []
places (m ∷ ms) = m.buf_addr ∷ places ms

-- What the callback makes of the destination mbufs of an operation that has produced `n` bytes.
pub record Collected (ms : List Mbuf) (n : ℕ) (bs : List Buffer) : Type 0 where
  pub whole : bytes_of bs ≡ min n (room ms)
  pub in_front : addresses bs ≡ take (length bs) (places ms)
  pub bounded : length bs ≤ length ms
  pub shortest : (k : ℕ) → n ≤ room (take k ms) → length bs ≤ k

nothing_left : (ms : List Mbuf) → Collected ms 0 []
nothing_left ms = record {
  whole = omega arith;
  in_front = refl;
  bounded = omega arith;
  shortest = λ k h. omega arith;
}

collect-zero : (ms : List Mbuf) → collect ms 0 ≡ []
unfolding collect
collect-zero [] = refl
collect-zero (m ∷ ms) = refl

collect-cons :
    (m : Mbuf) (ms : List Mbuf) (n : ℕ)
    → 0 < n
    → collect (m ∷ ms) n
      ≡ record { data_addr = m.buf_addr; size = min m.data_len n }
        ∷ collect ms (n - min m.data_len n)
unfolding collect
collect-cons m ms n h = ground arith

shorter :
    (m : Mbuf) (ms : List Mbuf) (n l k : ℕ)
    → 0 < n
    → ((j : ℕ) → n - min m.data_len n ≤ room (take j ms) → l ≤ j)
    → n ≤ room (take k (m ∷ ms))
    → l + 1 ≤ k
shorter m ms n l zero p h e = absurd (omega arith)
shorter m ms n l (suc k) p h e = omega (arith, h k (omega arith))

cons-Collected :
    (m : Mbuf) (ms : List Mbuf) (n : ℕ) (bs : List Buffer)
    → 0 < n
    → Collected ms (n - min m.data_len n) bs
    → Collected (m ∷ ms) n (record { data_addr = m.buf_addr; size = min m.data_len n } ∷ bs)
cons-Collected m ms n bs p c = record {
  whole = omega (arith, c.whole);
  in_front = ap (λ xs. m.buf_addr ∷ xs) c.in_front;
  bounded = omega (arith, c.bounded);
  shortest = λ k h. omega (arith, shorter m ms n (length bs) k p c.shortest h);
}

-- The callback of Compress() turns the destination mbufs of an operation into buffers from the first
-- one on: they hold what the operation has produced, as far as there is room, in the order of the
-- chain, and there are no more of them than are needed for it.
pub collect-Collected : (ms : List Mbuf) (n : ℕ) → Collected ms n (collect ms n)
unfolding collect
collect-Collected [] n = record {
  whole = omega arith;
  in_front = refl;
  bounded = omega arith;
  shortest = λ k h. omega arith;
}
collect-Collected (m ∷ ms) zero = nothing_left (m ∷ ms)
collect-Collected (m ∷ ms) (suc n) = rw (collect-cons m ms (suc n) (omega arith)) (
    cons-Collected m ms (suc n) (collect ms (suc n - min m.data_len (suc n))) (omega arith)
      (collect-Collected ms (suc n - min m.data_len (suc n))))

one_buffer :
    (m : Mbuf) (ms : List Mbuf) (n : ℕ)
    → 0 < n
    → n ≤ m.data_len
    → collect (m ∷ ms) n ≡ record { data_addr = m.buf_addr; size = n } ∷ []
one_buffer m ms n p h =
    collect-cons m ms n p
    ∙ (let rest : n - min m.data_len n ≡ 0 = omega arith in
        let all : min m.data_len n ≡ n = omega arith in
        rw (rest, all)
          (ap (λ bs. record { data_addr = m.buf_addr; size = n } ∷ bs) (collect-zero ms)))

-- The memzones behind that are lost. Where the first mbuf of an operation has room for what it has
-- produced, a release build takes one buffer from it and frees the operation with all of its mbufs,
-- and the memory of the device stays as it was: the memzones of the other mbufs remain occupied,
-- though no buffer, no operation and no pool has them any more.
pub dequeue_one-leaks :
    (d : Dequeued) (s : Run (List Buffer)) (m : Mbuf) (ms : List Mbuf)
    → d.status ≡ success
    → (s.queue_pair.operation_at d.op).m_dst.segments ≡ m ∷ ms
    → 0 < d.produced
    → d.produced ≤ m.data_len
    → let (r, s') = dequeue_one true compress_callback d s in
      (r ≡ ok tt)
      × (s'.output ≡ s.output ++ record { data_addr = m.buf_addr; size = d.produced } ∷ [])
      × (s'.queue_pair.device_memory ≡ s.queue_pair.device_memory)
      × (s'.queue_pair.freed_operations ≡ d.op ∷ s.queue_pair.freed_operations)
unfolding dequeue_one recycle_resources
dequeue_one-leaks d s m ms e chain some_bytes fits =
    let one : collect (s.queue_pair.operation_at d.op).m_dst.segments d.produced
        ≡ record { data_addr = m.buf_addr; size = d.produced } ∷ [] =
      ap (λ x. collect x d.produced) chain ∙ one_buffer m ms d.produced some_bytes fits in
    (ground arith, ground (arith, one), ground arith, ground arith)
