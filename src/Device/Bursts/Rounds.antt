-- ===== src/Device/Bursts/Rounds.antt =====
-- The first loop of Compress() and Decompress(), src/device.cc: each of its rounds comes closer to an end.
use bitar.Base.{
  ℕ, zero, suc, ◌+◌, ◌-◌, ◌*◌, ◌%◌, ◌^◌, ◌≤◌, ◌<◌, ltb, ◌==◌, if◌then◌else◌, Bool, false, List,
  Option, length, Action, Status, Result, ok, >>=-inv, Bool-cases, inl, inr, ltb→lt, ◌≡◌, refl, sym,
  ap, ◌∙◌, arith,
}
use mathlib.Core.Path.{subst}
use bitar.Config.{Configuration}
use bitar.Rte.{Compressdev}
use bitar.QueuePair.{QueuePair, Operation, accumulate_unused, now}
use bitar.QueuePair.Order.{accumulate_unused_lem}
use bitar.Device.Bursts.{
  Run, get_error_count, dequeue_burst, on_queue_pair, after_call, put_back_run, slots,
  accumulate_if_fine, enqueue_burst, one_burst, bursts, run_bursts,
}
use bitar.Device.Bursts.Pending.{
  waiting, assembled, time, get_error_count-same, dequeue_burst-HandsOut, num_idle, num_idle_le,
  num_idle_lt,
}
use bitar.Device.Bursts.Drain.{Responds, Ends, when, after_burst, drain-Ends}

length-slots : (f : ℕ → ℕ) (i n : ℕ) → length (slots f i n) ≡ n
length-slots f i zero = refl
length-slots f i (suc n) = ap suc (length-slots f (i + 1) n)

-- What is left of a burst is what is assembled behind EnqueueBurst().
accumulated :
    (u : ℕ) (q q' : QueuePair)
    → accumulate_unused u q ≡ (ok tt, q')
    → (q'.num_ops_assembled ≡ u) × (q'.pending_operations ≡ q.pending_operations) × (now q' ≡ now q)
accumulated u q q' h = elim (Bool-cases (ltb q.num_ops_assembled u)) [
  | inl more ↦ absurd (grind (arith, (accumulate_unused_lem u q).0 (ltb→lt _ _ more)))
  | inr fits ↦
      let (f, e, _) = (accumulate_unused_lem u q).1 (ground arith) in
      let same : record q { operations = f; num_ops_assembled = u } ≡ q' =
        ap (λ x. x.1) (sym e ∙ h) in
      (
        ap (λ x. x.num_ops_assembled) (sym same),
        ap (λ x. x.pending_operations) (sym same),
        ap now (sym same),
      )
]

-- What both overloads of AssembleFrom() come to: they report what is assembled, at most a burst, each
-- operation that they add takes something of what is left at the position, and no call is undone.
abbrev pub Consumes : {P : Type 0} → ℕ → (P → ℕ) → (P → Action QueuePair (ℕ × P)) → Type 0
Consumes {P = P} burst left assemble =
    (p : P) (q : QueuePair) (n : ℕ) (p' : P) (q' : QueuePair)
    → q.num_ops_assembled ≤ burst
    → assemble p q ≡ (ok (n, p'), q')
    → (q'.num_ops_assembled ≡ n)
      × (n ≤ burst)
      × (n + 2 * left p' + length q'.pending_operations
          ≤ q.num_ops_assembled + 2 * left p + length q.pending_operations)
      × (now q ≤ now q')

module _ {B : Type 0} where
  unless : (x y : Option (Status × Run B)) {t : Bool} → t ≡ false → (if t then x else y) ≡ y
  unless x y h = rw (h) refl

  put_back_run-inv :
      {A : Type 0} (s : Run B) (x : Result A × QueuePair) {a : A} {s' : Run B}
      → put_back_run s x ≡ (ok a, s')
      → x ≡ (ok a, s'.queue_pair)
  put_back_run-inv s (r, q) h = ap (λ y. (y.0, y.1.queue_pair)) h

  accumulate_if_fine-inv :
      (u : ℕ) (x : ℕ × Run B) {s' : Run B}
      → accumulate_if_fine u x ≡ (ok tt, s')
      → (assembled s' ≡ u) × (waiting s' ≡ waiting x.1) × (time s' ≡ time x.1)
  accumulate_if_fine-inv u (zero, s) {s' = s'} h =
      let (count, same, at) =
        accumulated u s.queue_pair s'.queue_pair
          (put_back_run-inv s (accumulate_unused u s.queue_pair) h) in
      (count, ap length same, at)
  accumulate_if_fine-inv u (suc n, s) h = absurd (grind arith)

  module _ (dev : Compressdev) (c : Configuration) {budget : ℕ} (r : Responds dev c budget) where
    -- EnqueueBurst() that succeeds leaves fewer operations assembled, or its call is an idle one.
    enqueue_burst-fewer :
        (n : ℕ) (s : Run B) {s' : Run B}
        → 0 < n
        → n < 2 ^ 16
        → enqueue_burst dev (n % 2 ^ 16) s ≡ (ok tt, s')
        → (assembled s' ≤ n)
          × (waiting s' ≡ waiting s)
          × (time s < time s')
          × (r.idle (time s) ≡ false → assembled s' < n)
    unfolding enqueue_burst
    enqueue_burst-fewer n s some_ops small h =
        let q : QueuePair = s.queue_pair in
        let ops : List ℕ = slots q.operations 0 (n % 2 ^ 16) in
        let k : ℕ = dev.enqueue_burst (now q) ops in
        let len : length ops ≡ n % 2 ^ 16 = length-slots q.operations 0 (n % 2 ^ 16) in
        let le : k ≤ length ops = r.no_more (now q) ops in
        let (count, same, at) =
          accumulate_if_fine-inv ((n % 2 ^ 16 + 2 ^ 16 - k) % 2 ^ 16)
            (get_error_count dev k (after_call s)) h in
        let (still, _, later) = get_error_count-same dev k (after_call s) in
        (
          omega arith,
          same ∙ still,
          omega (arith, at, later),
          λ answered. let one : 0 < k = r.accepts (now q) ops answered (omega arith) in omega arith,
        )

  module _ {P : Type 0} (assemble : P → Action QueuePair (ℕ × P)) (left : P → ℕ) (ndebug : Bool)
      (dev : Compressdev) (c : Configuration) (callback : Operation → ℕ → B → B)
      (consumes : Consumes c.burst_size left assemble) (small : c.burst_size < 2 ^ 16) {budget : ℕ}
      (r : Responds dev c budget) where
    -- The operations that are assembled or pending, and twice what is left to be assembled.
    abbrev pub to_do : P → Run B → ℕ
    to_do p s = assembled s + 2 * left p + waiting s

    one_burst-less :
        (n : ℕ) (p p' : P) (s s' : Run B) (n' : ℕ)
        → assembled s ≡ n
        → 0 < n
        → n ≤ c.burst_size
        → one_burst assemble ndebug dev c callback n p s ≡ (ok (n', p'), s')
        → (assembled s' ≡ n')
          × (n' ≤ c.burst_size)
          × (to_do p' s' + num_idle r.idle (time s) < to_do p s + num_idle r.idle (time s'))
    one_burst-less n p p' s s' n' e some_ops le h =
        let (u, s₁, e₁, h₁) = >>=-inv (enqueue_burst dev (n % 2 ^ 16)) _ s h in
        let (v, s₂, e₂, h₂) = >>=-inv (dequeue_burst ndebug dev c callback) _ s₁ h₁ in
        let (fewer, same, later₁, answered) =
          enqueue_burst-fewer dev c r n s some_ops (omega arith) e₁ in
        let (handed, kept, later₂) = dequeue_burst-HandsOut ndebug dev c callback s₁ e₂ in
        let (count, fits, less, later₃) =
          consumes p s₂.queue_pair n' p' s'.queue_pair (omega arith)
            (put_back_run-inv s₂ (assemble p s₂.queue_pair) h₂) in
        let later : time s < time s' = omega arith in
        let most : to_do p' s' ≤ assembled s₁ + 2 * left p + waiting s = omega arith in
        (
          count,
          fits,
          elim (Bool-cases (r.idle (time s))) [
            | inl busy ↦ omega (arith, num_idle_lt r.idle (time s) (time s') later busy)
            | inr fine ↦
                omega (
                  arith,
                  answered fine,
                  num_idle_le r.idle (time s) (time s') (omega (arith, later)),
                )
          ],
        )

    bursts-Ends :
        (fuel n : ℕ) (p : P) (s : Run B)
        → assembled s ≡ n
        → n ≤ c.burst_size
        → to_do p s + budget < fuel + num_idle r.idle (time s)
        → Ends (bursts assemble ndebug dev c callback fuel n p s)
    unfolding bursts
    bursts-Ends zero n p s e le h = absurd (omega (arith, r.few (time s)))
    bursts-Ends (suc fuel) n p s e le h = elim (Bool-cases (n == 0)) [
      | inl none_left ↦
          subst Ends (sym (when ndebug dev c callback _ _ none_left))
            (drain-Ends ndebug dev c callback r (suc fuel) s (omega arith))
      | inr some_left ↦ subst Ends (sym (unless _ _ some_left)) (
          after_burst ndebug dev c callback {A = ℕ × P}
            (λ a s'. bursts assemble ndebug dev c callback fuel a.0 a.1 s')
            (one_burst assemble ndebug dev c callback n p s)
            (λ a s' k.
              let (count, fits, less) = one_burst-less n p a.1 s s' a.0 e (ground arith) le k in
              bursts-Ends fuel a.0 a.1 s' count fits (omega arith)))
    ]

    -- The assembly and the two loops end, with an error or with nothing pending. As fuel suffices one
    -- more than the operations that are there, twice what is left to be assembled, and the calls that
    -- the device may leave idle.
    pub run_bursts-Ends :
        (fuel : ℕ) (p : P) (s : Run B)
        → assembled s ≤ c.burst_size
        → to_do p s + budget < fuel
        → Ends (run_bursts assemble ndebug dev c callback fuel p s)
    unfolding run_bursts
    run_bursts-Ends fuel p s le h =
        after_burst ndebug dev c callback {A = ℕ × P}
          (λ a s'. bursts assemble ndebug dev c callback fuel a.0 a.1 s')
          (on_queue_pair (assemble p) s)
          (λ a s' k.
            let (count, fits, less, _) =
              consumes p s.queue_pair a.0 a.1 s'.queue_pair le
                (put_back_run-inv s (assemble p s.queue_pair) k) in
            bursts-Ends fuel a.0 a.1 s' count fits (omega arith))
