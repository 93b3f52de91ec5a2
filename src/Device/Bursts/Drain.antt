-- ===== src/Device/Bursts/Drain.antt =====
-- The loop of Compress() and Decompress(), src/device.cc, that waits for the pending operations.
use mathlib.Core.Path.{subst}
use bitar.Base.{
  ℕ, zero, suc, ◌+◌, ◌≤◌, ◌<◌, if◌then◌else◌, Bool, true, false, List, [], ◌∷◌, Option, some,
  length, Status, Result, ok, err, Bool-cases, inl, inr, ◌≡◌, refl, sym, arith,
}
use bitar.Config.{Configuration}
use bitar.Rte.{Compressdev}
use bitar.QueuePair.{QueuePair, Operation, has_pending_operations}
use bitar.Device.Bursts.{Run, dequeue_burst, drain, and_loop}
use bitar.Device.Bursts.Pending.{
  waiting, time, dequeue_burst-HandsOut, num_idle, num_idle_le, num_idle_lt,
}

some_pending : (q : QueuePair) → has_pending_operations q ≡ true → 0 < length q.pending_operations
some_pending q h = nonempty q.pending_operations h
  where
    nonempty : (ps : List ℕ) → (elim ps [ [] ↦ false | p ∷ ps ↦ true ]) ≡ true → 0 < length ps
    nonempty [] k = absurd (grind arith)
    nonempty (p ∷ ps) k = omega arith

-- What a device does with the calls of a queue pair: none takes more operations than it is offered, and
-- all but the idle ones take some of them or hand some out. A device that is busy leaves calls idle; no
-- more than `budget` are. A run asks a device only while operations are pending or input is left, and
-- the answers to calls that it does not make, behind its end, are of no account and may be chosen so.
pub record Responds (dev : Compressdev) (c : Configuration) (budget : ℕ) : Type 0 where
  pub idle : ℕ → Bool
  pub few : (t : ℕ) → num_idle idle t ≤ budget
  pub no_more : (t : ℕ) (ops : List ℕ) → dev.enqueue_burst t ops ≤ length ops
  pub accepts :
      (t : ℕ) (ops : List ℕ) → idle t ≡ false → 0 < length ops → 0 < dev.enqueue_burst t ops
  pub hands_out : (t : ℕ) → idle t ≡ false → 0 < length (dev.dequeue_burst t c.burst_size)

module _ {B : Type 0} where
  -- A loop that ends; with no error, nothing is pending any more.
  pub record Ends (o : Option (Status × Run B)) : Type 0 where
    pub status : Status
    pub run : Run B
    pub ends : o ≡ some (status, run)
    pub nothing_left : status ≡ ok tt → has_pending_operations run.queue_pair ≡ false

  module _ (ndebug : Bool) (dev : Compressdev) (c : Configuration)
      (callback : Operation → ℕ → B → B) where
    pub when : (x y : Option (Status × Run B)) {t : Bool} → t ≡ true → (if t then x else y) ≡ x
    when x y h = rw (h) refl

    pub after_burst :
        {A : Type 0} (f : A → Run B → Option (Status × Run B)) (r : Result A × Run B)
        → ((a : A) (s' : Run B) → r ≡ (ok a, s') → Ends (f a s'))
        → Ends (and_loop f r)
    after_burst f (ok a, s') k = k a s' refl
    after_burst f (err e, s') k = record {
      status = err e;
      run = s';
      ends = refl;
      nothing_left = λ h. absurd (grind arith);
    }

    -- A round that succeeds hands out an operation, or its call is one of the idle ones.
    one_round :
        {budget : ℕ} (r : Responds dev c budget) (s : Run B) {s' : Run B}
        → 0 < waiting s
        → dequeue_burst ndebug dev c callback s ≡ (ok tt, s')
        → waiting s' + num_idle r.idle (time s) < waiting s + num_idle r.idle (time s')
    one_round r s {s' = s'} some_left e =
        let (fewer, _, later) = dequeue_burst-HandsOut ndebug dev c callback s e in
        elim (Bool-cases (r.idle (time s))) [
          | inl busy ↦ omega (arith, num_idle_lt r.idle (time s) (time s') later busy)
          | inr answered ↦ omega (
            arith,
            num_idle_le r.idle (time s) (time s') (omega (arith, later)),
            r.hands_out (time s) answered,
          )
        ]

    -- The loop that waits for the pending operations ends, with an error or with none of them left, if
    -- as many rounds are left as operations are pending and calls may still be idle.
    pub drain-Ends :
        {budget : ℕ} (r : Responds dev c budget) (fuel : ℕ) (s : Run B)
        → waiting s + budget < fuel + num_idle r.idle (time s)
        → Ends (drain ndebug dev c callback fuel s)
    unfolding drain
    drain-Ends r zero s h = absurd (omega (arith, r.few (time s)))
    drain-Ends r (suc fuel) s h = elim (Bool-cases (has_pending_operations s.queue_pair)) [
      | inr done ↦ record {
        status = ok tt;
        run = s;
        ends = rw (done) refl;
        nothing_left = λ _. done;
      }
      | inl more ↦ subst Ends (sym (when _ _ more)) (
          after_burst (λ _ s'. drain ndebug dev c callback fuel s')
            (dequeue_burst ndebug dev c callback s)
            (λ _ s' e.
              drain-Ends r fuel s'
                (omega (arith, one_round r s (some_pending s.queue_pair more) e))))
    ]
