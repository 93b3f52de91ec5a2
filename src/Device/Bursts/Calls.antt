-- ===== src/Device/Bursts/Calls.antt =====
-- The two loops of Compress() and Decompress(), src/device.cc: how they leave a queue pair.
use bitar.Base.{
  ℕ, zero, suc, ◌==◌, if◌then◌else◌, Bool, true, false, Option, none, some, Action, Status, Result,
  ok, err, ◌≡◌, refl,
}
use bitar.Config.{Configuration}
use bitar.Rte.{Compressdev}
use bitar.QueuePair.{QueuePair, Operation, has_pending_operations}
use bitar.Device.Bursts.{
  Run, and_loop, on_queue_pair, dequeue_burst, drain, one_burst, bursts, run_bursts,
}

module _ {B : Type 0} where
  -- A loop that ends without an error leaves no pending operations.
  abbrev pub IsQuiet : Option (Status × Run B) → Type 0
  IsQuiet none = Unit {0}
  IsQuiet (some (ok u, s)) = has_pending_operations s.queue_pair ≡ false
  IsQuiet (some (err e, s)) = Unit {0}

  IsQuiet-if :
      (t : Bool) (x y : Option (Status × Run B))
      → (t ≡ true → IsQuiet x)
      → (t ≡ false → IsQuiet y)
      → IsQuiet (if t then x else y)
  IsQuiet-if true x y h k = h refl
  IsQuiet-if false x y h k = k refl

  IsQuiet-after :
      {A : Type 0} (f : A → Run B → Option (Status × Run B)) (r : Result A × Run B)
      → ((a : A) (s : Run B) → IsQuiet (f a s))
      → IsQuiet (and_loop f r)
  IsQuiet-after f (ok a, s) k = k a s
  IsQuiet-after f (err e, s) k = tt

  module _ (ndebug : Bool) (dev : Compressdev) (c : Configuration)
      (callback : Operation → ℕ → B → B) where
    drain-IsQuiet : (fuel : ℕ) (s : Run B) → IsQuiet (drain ndebug dev c callback fuel s)
    unfolding drain
    drain-IsQuiet zero s =
        IsQuiet-if (has_pending_operations s.queue_pair) none (some (ok tt, s)) (λ _. tt) (λ h. h)
    drain-IsQuiet (suc fuel) s =
        IsQuiet-if (has_pending_operations s.queue_pair) _ (some (ok tt, s))
          (λ _.
            IsQuiet-after _ (dequeue_burst ndebug dev c callback s) (λ _ s'. drain-IsQuiet fuel s'))
          (λ h. h)

    module _ {P : Type 0} (assemble : P → Action QueuePair (ℕ × P)) where
      bursts-IsQuiet :
          (fuel n : ℕ) (position : P) (s : Run B)
          → IsQuiet (bursts assemble ndebug dev c callback fuel n position s)
      unfolding bursts
      bursts-IsQuiet zero n position s = tt
      bursts-IsQuiet (suc fuel) n position s =
          IsQuiet-if (n == 0) _ _ (λ _. drain-IsQuiet (suc fuel) s)
            (λ _.
              IsQuiet-after {A = ℕ × P} _ (one_burst assemble ndebug dev c callback n position s)
                (λ a s'. bursts-IsQuiet fuel a.0 a.1 s'))

      -- The assembly and both loops leave nothing pending if they end without an error.
      pub run_bursts-IsQuiet :
          (fuel : ℕ) (position : P) (s : Run B)
          → IsQuiet (run_bursts assemble ndebug dev c callback fuel position s)
      unfolding run_bursts
      run_bursts-IsQuiet fuel position s =
          IsQuiet-after {A = ℕ × P} _ (on_queue_pair (assemble position) s)
            (λ a s'. bursts-IsQuiet fuel a.0 a.1 s')
