-- ===== src/Device/Setup/States.antt =====
-- The states of a compress device, src/device.cc: what Initialize(), EntryGuard() and the destructor
-- make of them.
use bitar.Base.{
  ℕ, zero, suc, ◌+◌, ◌<◌, ltb, leb, if◌then◌else◌, Bool, true, false, Option, none, some, invalid,
  cancelled, Action, Status, ok, err, ◌>>◌, continue, ◌≡◌, ◌↔◌, refl, sym, ap, ◌∙◌, arith,
}
use bitar.Config.{Configuration}
use bitar.Rte.{BuildConfig, Rte, Compressdev}
use bitar.QueuePair.{QueuePair, has_pending_operations}
use bitar.QueuePair.Sizes.{no_resources, preallocate_queue_pair}
use bitar.DeviceMemory.{DeviceMemory, preallocate}
use bitar.DeviceMemory
use bitar.Device.{
  DeviceState, undefined, configured, started, state_value, num_qps, validate_bluefield,
}
use bitar.Device.Setup.{
  Device, set_state, require, keep_memory, keep_resources, preallocate_device,
  preallocate_queue_pairs, setup_queue_pairs, set_up, after_validation, with_validation, initialize,
  entry_guard, stop_if_started, close_if_configured, destroy,
}

abbrev Passes : Status → Type 0
Passes r = r ≡ ok tt

not_over : (n k : ℕ) → k < n → leb n k ≡ false
not_over n k h = ground arith

guard_cases :
    (x : DeviceState) (t u : Bool)
    → Passes (
        if ltb (state_value x) (state_value started)
        then err invalid
        else if t
        then err invalid
        else if u
        then err cancelled
        else ok tt)
    → (x ≡ started) × (t ≡ false) × (u ≡ false)
guard_cases undefined t u h = absurd (grind arith)
guard_cases configured t u h = absurd (grind arith)
guard_cases started true u h = absurd (grind arith)
guard_cases started false true h = absurd (grind arith)
guard_cases started false false h = (refl, refl, refl)

-- EntryGuard() is OK exactly where the device has started, the id is that of a queue pair and the
-- queue pair has no pending operations.
pub entry_guard_iff :
    (d : Device) (queue_pair_id : ℕ) (q : QueuePair)
    → (entry_guard d queue_pair_id q ≡ ok tt) ↔ (
        (d.state ≡ started)
        × (queue_pair_id < num_qps d.worker_lcores)
        × (has_pending_operations q ≡ false))
unfolding entry_guard
entry_guard_iff d queue_pair_id q = (
  λ h.
      let (s, t, u) =
        guard_cases d.state (leb (num_qps d.worker_lcores) queue_pair_id) (has_pending_operations q)
          h in
      (s, ground arith, u),
  λ h. rw (h.0, not_over (num_qps d.worker_lcores) queue_pair_id h.1, h.2) refl,
)

-- The destructor undoes what was set up, whatever the state: a device that has started is stopped
-- before it is closed, one that is only configured is closed, and any other is left alone.
pub destroy_lem :
    (d : Device)
    → (d.state ≡ started
        → destroy d
          ≡ record d { state = undefined; stopped = suc d.stopped; closed = suc d.closed })
      × (d.state ≡ configured → destroy d ≡ record d { state = undefined; closed = suc d.closed })
      × (d.state ≡ undefined → destroy d ≡ d)
unfolding destroy stop_if_started close_if_configured
destroy_lem d = (
  λ h. ap (λ x. destroy (record d { state = x })) h,
  λ h. ap (λ x. destroy (record d { state = x })) h,
  λ h. ap (λ x. destroy (record d { state = x })) h ∙ ap (λ x. record d { state = x }) (sym h),
)

-- Whether a device has not started, and what a call that sets it up comes to.
abbrev pub NotStarted : Device → Type 0
NotStarted d = state_value d.state < state_value started

abbrev pub Outcome : Status × Device → Type 0
Outcome (ok u, d) = d.state ≡ started
Outcome (err e, d) = NotStarted d

-- A call that does not start a device, and the calls behind it.
before :
    (r : Status × Device) (k : Action Device (Unit {0}))
    → NotStarted r.1
    → ((d : Device) → NotStarted d → Outcome (k d))
    → Outcome (continue (λ _. k) r)
before (ok u, d) k h f = f d h
before (err e, d) k h f = h

require-NotStarted : (t : Bool) (d : Device) → NotStarted d → NotStarted (require t d).1
require-NotStarted true d h = h
require-NotStarted false d h = h

still :
    (r : Status × Device) (k : Action Device (Unit {0}))
    → NotStarted r.1
    → ((d : Device) → NotStarted d → NotStarted (k d).1)
    → NotStarted (continue {B = Unit {0}} (λ _. k) r).1
still (ok u, d) k h f = f d h
still (err e, d) k h f = h

module _ (b : BuildConfig) (rte : Rte) (dev : Compressdev) (of_pair : ℕ → Compressdev) where
  preallocate_queue_pairs-NotStarted :
      (c : Configuration) (n qp_id : ℕ) (d : Device)
      → NotStarted d
      → NotStarted (preallocate_queue_pairs b rte dev of_pair c n qp_id d).1
  unfolding preallocate_queue_pairs
  preallocate_queue_pairs-NotStarted c zero qp_id d h = h
  preallocate_queue_pairs-NotStarted c (suc n) qp_id d h =
      still (keep_resources (preallocate_queue_pair b (of_pair qp_id) c no_resources) d) _ h
        (λ d' k. preallocate_queue_pairs-NotStarted c n (qp_id + 1) d' k)

  setup_queue_pairs-NotStarted :
      (n qp_id : ℕ) (d : Device)
      → NotStarted d
      → NotStarted (setup_queue_pairs b rte dev of_pair n qp_id d).1
  unfolding setup_queue_pairs
  setup_queue_pairs-NotStarted zero qp_id d h = h
  setup_queue_pairs-NotStarted (suc n) qp_id d h =
      still (require (dev.queue_pair_setup qp_id) d) _
        (require-NotStarted (dev.queue_pair_setup qp_id) d h)
        (λ d' k. setup_queue_pairs-NotStarted n (qp_id + 1) d' k)

  set_up-Outcome :
      (n : ℕ) (c : Configuration) (d : Device)
      → NotStarted d
      → Outcome (set_up b rte dev of_pair n c d)
  unfolding set_up preallocate_device
  set_up-Outcome n c d h =
      let k₆ : Action Device (Unit {0}) = set_state started in
      let k₅ : Action Device (Unit {0}) = require dev.start >> k₆ in
      let k₄ : Action Device (Unit {0}) = setup_queue_pairs b rte dev of_pair n 0 >> k₅ in
      let k₃ : Action Device (Unit {0}) = set_state configured >> k₄ in
      let k₂ : Action Device (Unit {0}) = require dev.configure >> k₃ in
      let k₁ : Action Device (Unit {0}) = preallocate_queue_pairs b rte dev of_pair c n 0 >> k₂ in
      let end : (d₅ : Device) → NotStarted d₅ → Outcome (k₅ d₅) = λ d₅ h₅.
        before (require dev.start d₅) k₆ (require-NotStarted dev.start d₅ h₅) (λ d₆ h₆. refl) in
      let pairs : (d₄ : Device) → NotStarted d₄ → Outcome (k₄ d₄) = λ d₄ h₄.
        before (setup_queue_pairs b rte dev of_pair n 0 d₄) k₅
          (setup_queue_pairs-NotStarted n 0 d₄ h₄) end in
      let configures : (d₂ : Device) → NotStarted d₂ → Outcome (k₂ d₂) = λ d₂ h₂.
        before (require dev.configure d₂) k₃ (require-NotStarted dev.configure d₂ h₂)
          (λ d₃ h₃. pairs (record d₃ { state = configured }) (omega arith)) in
      before (keep_memory (preallocate rte c (DeviceMemory.init d.process)) d) k₁ h (λ d₁ h₁.
        before (preallocate_queue_pairs b rte dev of_pair c n 0 d₁) k₂
          (preallocate_queue_pairs-NotStarted c n 0 d₁ h₁) configures)

  after_validation-Outcome :
      (r : Status × Configuration) (d : Device)
      → NotStarted d
      → Outcome (after_validation b rte dev of_pair r d)
  after_validation-Outcome (ok u, c) d h =
      set_up-Outcome (num_qps d.worker_lcores) c (record d { configuration = some c }) h
  after_validation-Outcome (err e, c) d h = h

  abbrev pub OutcomeIfAny : Option (Status × Device) → Type 0
  OutcomeIfAny none = Unit {0}
  OutcomeIfAny (some r) = Outcome r

  validation_case :
      (o : Option (Status × Configuration)) (d : Device)
      → NotStarted d
      → OutcomeIfAny (with_validation b rte dev of_pair o d)
  validation_case none d h = tt
  validation_case (some r) d h = after_validation-Outcome r d h

  -- Initialize() of a device that has not started: it has started where the result is OK, and it has
  -- not where any step has failed. Nothing is said of a validation that does not end.
  pub initialize-Outcome :
      (is_bluefield : Bool) (c : Configuration) (d : Device)
      → NotStarted d
      → OutcomeIfAny (initialize b rte dev of_pair is_bluefield c d)
  unfolding initialize
  initialize-Outcome true c d h =
      validation_case (validate_bluefield b dev (num_qps d.worker_lcores) c) d h
  initialize-Outcome false c d h = h
