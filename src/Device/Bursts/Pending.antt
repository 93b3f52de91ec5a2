-- ===== src/Device/Bursts/Pending.antt =====
-- What a burst of src/device.cc does to the operations of a queue pair, and how far the calls of DPDK get
-- by it.
use bitar.Base.{
  ℕ, zero, suc, ◌+◌, ◌-◌, ◌≤◌, ◌<◌, if◌then◌else◌, Bool, true, false, List, [], ◌∷◌, length,
  invalid, io_error, Action, Status, ok, err, ◌>>◌, >>=-inv, ◌≡◌, refl, sym, ap, ◌∙◌, arith,
}
use bitar.Config.{Configuration}
use bitar.Rte.{Compressdev, Dequeued}
use bitar.QueuePair.{QueuePair, Operation, recycle_resources, pop_front, now}
use bitar.Device.Bursts.{
  Run, get_error_count, is_success, add_output, dequeue_one, dequeue_each, dequeue_if_fine,
  dequeue_burst, on_queue_pair, after_call, put_back_run,
}

length-pop_front : (xs : List ℕ) → length (pop_front xs) ≡ length xs - 1
length-pop_front [] = refl
length-pop_front (x ∷ xs) = omega arith

module _ {B : Type 0} where
  -- The operations that a run waits for and those that are assembled, and the number of the next call.
  abbrev pub waiting : Run B → ℕ
  waiting s = length s.queue_pair.pending_operations

  abbrev pub assembled : Run B → ℕ
  assembled s = s.queue_pair.num_ops_assembled

  abbrev pub time : Run B → ℕ
  time s = now s.queue_pair

  -- `n` operations are handed out.
  pub record HandsOut (n : ℕ) (s s' : Run B) : Type 0 where
    pub fewer : waiting s' ≡ waiting s - n
    pub same_count : assembled s' ≡ assembled s
    pub same_time : time s' ≡ time s

  abbrev run_refused : Bool → QueuePair → QueuePair → Run B → Status × Run B
  run_refused t q r s = put_back_run s (if t then (err invalid, q) else (ok tt, r))

  refused_case :
      (t : Bool) (q r : QueuePair) (s : Run B) {s' : Run B}
      → run_refused t q r s ≡ (ok tt, s')
      → s' ≡ record s { queue_pair = r }
  refused_case true q r s h = absurd (grind arith)
  refused_case false q r s h = sym (ap (λ x. x.1) h)

  recycle-HandsOut :
      (ndebug : Bool) (p : ℕ) (s : Run B) {s' : Run B}
      → on_queue_pair (recycle_resources ndebug p) s ≡ (ok tt, s')
      → HandsOut 1 s s'
  unfolding recycle_resources
  recycle-HandsOut ndebug p s h =
      let e = refused_case _ _ _ s h in
      record {
        fewer = ap waiting e ∙ length-pop_front s.queue_pair.pending_operations;
        same_count = ap assembled e;
        same_time = ap time e;
      }

  dequeue_case :
      (t : Bool) (m : Action (Run B) (Unit {0})) (s : Run B) {s' : Run B}
      → (if t then m s else (err io_error, s)) ≡ (ok tt, s')
      → m s ≡ (ok tt, s')
  dequeue_case true m s h = h
  dequeue_case false m s h = absurd (grind arith)

  module _ (ndebug : Bool) (callback : Operation → ℕ → B → B) where
    dequeue_one-HandsOut :
        (d : Dequeued) (s : Run B) {s' : Run B}
        → dequeue_one ndebug callback d s ≡ (ok tt, s')
        → HandsOut 1 s s'
    unfolding dequeue_one
    dequeue_one-HandsOut d s h =
        let m : Action (Run B) (Unit {0}) =
          add_output callback d >> on_queue_pair (recycle_resources ndebug d.op) in
        let r =
          recycle-HandsOut ndebug d.op
            (record s { output = callback (s.queue_pair.operation_at d.op) d.produced s.output })
            (dequeue_case (is_success d.status) m s h) in
        record { fewer = r.fewer; same_count = r.same_count; same_time = r.same_time }

    dequeue_each-HandsOut :
        (ds : List Dequeued) (s : Run B) {s' : Run B}
        → dequeue_each ndebug callback ds s ≡ (ok tt, s')
        → HandsOut (length ds) s s'
    unfolding dequeue_each
    dequeue_each-HandsOut [] s h = record {
      fewer = omega (arith, ap (λ x. waiting x.1) h);
      same_count = sym (ap (λ x. assembled x.1) h);
      same_time = sym (ap (λ x. time x.1) h);
    }
    dequeue_each-HandsOut (d ∷ ds) s h =
        let (u, s₁, e, h₁) =
          >>=-inv (dequeue_one ndebug callback d) (λ _. dequeue_each ndebug callback ds) s h in
        let first = dequeue_one-HandsOut d s e in
        let rest = dequeue_each-HandsOut ds s₁ h₁ in
        record {
          fewer = omega (arith, first.fewer, rest.fewer);
          same_count = rest.same_count ∙ first.same_count;
          same_time = rest.same_time ∙ first.same_time;
        }

    fine_case :
        (ds : List Dequeued) (x : ℕ × Run B) {s' : Run B}
        → dequeue_if_fine ndebug callback ds x ≡ (ok tt, s')
        → dequeue_each ndebug callback ds x.1 ≡ (ok tt, s')
    fine_case ds (zero, s) h = h
    fine_case ds (suc n, s) h = absurd (grind arith)

  pub get_error_count-same :
      (dev : Compressdev) (n : ℕ) (s : Run B)
      → (waiting (get_error_count dev n s).1 ≡ waiting s)
        × (assembled (get_error_count dev n s).1 ≡ assembled s)
        × (time s ≤ time (get_error_count dev n s).1)
  unfolding get_error_count
  get_error_count-same dev n s = (ground arith, ground arith, ground arith)

  -- DequeueBurst() that succeeds: as many operations as the call has handed out are no longer pending.
  pub dequeue_burst-HandsOut :
      (ndebug : Bool) (dev : Compressdev) (c : Configuration) (callback : Operation → ℕ → B → B)
      (s : Run B) {s' : Run B}
      → dequeue_burst ndebug dev c callback s ≡ (ok tt, s')
      → (waiting s' ≡ waiting s - length (dev.dequeue_burst (time s) c.burst_size))
        × (assembled s' ≡ assembled s)
        × (time s < time s')
  unfolding dequeue_burst
  dequeue_burst-HandsOut ndebug dev c callback s h =
      let ds = dev.dequeue_burst (time s) c.burst_size in
      let (same, count, later) = get_error_count-same dev (length ds) (after_call s) in
      let r = dequeue_each-HandsOut ndebug callback ds _ (fine_case ndebug callback ds _ h) in
      (
        r.fewer ∙ ap (λ n. n - length ds) same,
        r.same_count ∙ count,
        omega (arith, later, r.same_time),
      )

-- How many of the calls before a number are among the idle ones.
unfoldable pub num_idle : (ℕ → Bool) → ℕ → ℕ
num_idle idle zero = 0
num_idle idle (suc t) = num_idle idle t + (if idle t then 1 else 0)

num_idle-grows : (idle : ℕ → Bool) (t k u : ℕ) → t + k ≡ u → num_idle idle t ≤ num_idle idle u
unfolding num_idle
num_idle-grows idle t zero u h =
    let same : t ≡ u = omega arith in omega (arith, ap (num_idle idle) same)
num_idle-grows idle t (suc k) zero h = absurd (omega arith)
num_idle-grows idle t (suc k) (suc u) h = omega (arith, num_idle-grows idle t k u (omega arith))

pub num_idle_le : (idle : ℕ → Bool) (t u : ℕ) → t ≤ u → num_idle idle t ≤ num_idle idle u
num_idle_le idle t u h = num_idle-grows idle t (u - t) u (omega arith)

pub num_idle_lt :
    (idle : ℕ → Bool) (t u : ℕ) → t < u → idle t ≡ true → num_idle idle t < num_idle idle u
unfolding num_idle
num_idle_lt idle t u h e = ground (arith, num_idle_le idle (suc t) u (omega arith))
