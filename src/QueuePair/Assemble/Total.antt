-- ===== src/QueuePair/Assemble/Total.antt =====
-- AssembleFrom of src/memory.cc as a whole: what the parts of a burst
-- that succeeds come to.
use mathlib.Core.Path.{subst}
use bitar.Base.{
  ℕ, zero, suc, ◌+◌, ◌/◌, ◌<◌, List, [], ◌∷◌, ◌++◌, append_assoc, Option, none, some, Action,
  Result, ok, >>=-inv, ◌≡◌, refl, sym, ap, ◌∙◌, arith,
}
use bitar.Rte.{Rte}
use bitar.Config.{Configuration}
use bitar.QueuePair.{
  QueuePair, keep_operations, keep_mbufs, write_at, allocate_operations, allocate_mbufs,
  bulk_allocate,
}
use bitar.QueuePair.Assemble.{mbufs_to_ops}
use bitar.QueuePair.Assemble.Burst.{IsSized, FitsBurst, mbufs_to_ops_lem}
use bitar.QueuePair.Assemble.Count.{started, completed, completed_lem, started-completed}
use bitar.QueuePair.Assemble.Frame.{Frame, Keeps}
use bitar.QueuePair.Assemble.Source.{slots}

-- A burst of `n` mbufs that is assembled: it ends at the slot `last`, the operations in front of it
-- keep their slots, and exactly the operations in the new slots have become pending, in their order.
pub record Assembled (c : Configuration) (q : QueuePair) (n last : ℕ) (q' : QueuePair)
    : Type 0 where
  pub ops : ℕ
  pub until : last ≡ q.num_ops_assembled + ops
  pub fits : FitsBurst c q.num_ops_assembled n ops
  pub counted : q'.num_ops_assembled ≡ last
  pub kept : (i : ℕ) → i < q.num_ops_assembled → q'.operations i ≡ q.operations i
  pub pending :
      q'.pending_operations ≡ q.pending_operations ++ slots q'.operations q.num_ops_assembled ops

-- What a bulk allocation that succeeds leaves alone.
pub record Allocated (q q₁ : QueuePair) : Type 0 where
  pub same_count : q₁.num_ops_assembled ≡ q.num_ops_assembled
  pub same_pending : q₁.pending_operations ≡ q.pending_operations
  pub same_slots : (i : ℕ) → i < q.num_ops_assembled → q₁.operations i ≡ q.operations i

write_at_front : (k : ℕ) (ps : List ℕ) (f : ℕ → ℕ) (i : ℕ) → i < k → write_at k ps f i ≡ f i
write_at_front k ps f i h = ground arith

keep_operations-Allocated :
    (o : Option (List ℕ)) (q q₁ : QueuePair) → keep_operations o q ≡ (ok tt, q₁) → Allocated q q₁
keep_operations-Allocated none q q₁ h = absurd (grind arith)
keep_operations-Allocated (some ps) q q₁ h = record {
  same_count = sym (ap (λ r. r.1.num_ops_assembled) h);
  same_pending = sym (ap (λ r. r.1.pending_operations) h);
  same_slots = λ i k.
      ap (λ r. r.1.operations i) (sym h) ∙ write_at_front q.num_ops_assembled ps q.operations i k;
}

keep_mbufs-Frame :
    (o : Option (List ℕ)) (q q₁ : QueuePair)
    → keep_mbufs o q ≡ (ok tt, q₁)
    → (q₁.num_ops_assembled ≡ q.num_ops_assembled)
      × (q₁.pending_operations ≡ q.pending_operations)
      × (q₁.operations ≡ q.operations)
keep_mbufs-Frame none q q₁ h = absurd (grind arith)
keep_mbufs-Frame (some ms) q q₁ h = (
  sym (ap (λ r. r.1.num_ops_assembled) h),
  sym (ap (λ r. r.1.pending_operations) h),
  sym (ap (λ r. r.1.operations) h),
)

pub bulk_allocate-Allocated :
    (rte : Rte) (num_ops num_mbufs : ℕ) (q q₂ : QueuePair)
    → bulk_allocate rte num_ops num_mbufs q ≡ (ok tt, q₂)
    → Allocated q q₂
unfolding bulk_allocate allocate_operations allocate_mbufs
bulk_allocate-Allocated rte num_ops num_mbufs q q₂ h =
    let (u, q₁, e, h₁) =
      >>=-inv (allocate_operations rte num_ops) (λ _. allocate_mbufs rte num_mbufs) q h in
    let first = keep_operations-Allocated _ q q₁ e in
    let (count, pending, ops) = keep_mbufs-Frame _ q₁ q₂ h₁ in
    record {
      same_count = count ∙ first.same_count;
      same_pending = pending ∙ first.same_pending;
      same_slots = λ i k. ap (λ f. f i) ops ∙ first.same_slots i k;
    }

suc_of : (n m : ℕ) → n + 1 ≡ m → suc n ≡ m
suc_of n m h = omega arith

from_zero : (sgl a : ℕ) {b : ℕ} → 0 / sgl + a ≡ b → a ≡ b
from_zero sgl a h = grind arith

slots_front : (f : ℕ → ℕ) (k n m : ℕ) → n + 1 ≡ m → f k ∷ slots f (k + 1) n ≡ slots f k m
slots_front f k n m h = ap (slots f k) (suc_of n m h)

-- The end of both overloads: what the two loops have done makes up a burst. `q₁` is the queue pair
-- behind the allocation, and the operation of its first free slot has become pending.
pub close_burst :
    (c : Configuration) (q q₁ qs qd : QueuePair) (n last : ℕ)
    → IsSized c
    → FitsBurst c q.num_ops_assembled n (mbufs_to_ops c n)
    → Allocated q q₁
    → Frame q₁ qs
    → qs.pending_operations
      ≡ (q₁.pending_operations ++ q₁.operations q.num_ops_assembled ∷ [])
        ++ slots q₁.operations (q.num_ops_assembled + 1) (started c.max_sgl_segs n n 0)
    → Frame qs qd
    → qd.pending_operations ≡ qs.pending_operations
    → last ≡ q.num_ops_assembled + completed c.max_sgl_segs n n 0
    → Assembled c q n last (record qd { num_ops_assembled = last })
close_burst c q q₁ qs qd zero last s fits al f₁ p₁ f₂ p₂ e = absurd (omega (arith, fits.some_mbufs))
close_burst c q q₁ qs qd (suc n) last s fits al f₁ p₁ f₂ p₂ e =
    let sgl : ℕ = c.max_sgl_segs in
    let k : ℕ = q.num_ops_assembled in
    let done : ℕ = completed sgl (suc n) (suc n) 0 in
    let full : done ≡ mbufs_to_ops c (suc n) =
      from_zero sgl done (completed_lem sgl (suc n) n 0 s.segs (omega arith))
      ∙ sym (mbufs_to_ops_lem c k (suc n) s fits.within) in
    let ops : qd.operations ≡ q₁.operations = f₂.slots ∙ f₁.slots in
    let front : q₁.operations k ∷ slots q₁.operations (k + 1) (started sgl (suc n) (suc n) 0)
        ≡ slots q₁.operations k done =
      slots_front q₁.operations k (started sgl (suc n) (suc n) 0) done
        (started-completed sgl (suc n) n 0 (omega arith)) in
    record {
      ops = done;
      until = e;
      fits = subst (FitsBurst c k (suc n)) (sym full) fits;
      counted = refl;
      kept = λ i h. ap (λ f. f i) ops ∙ al.same_slots i h;
      pending =
          p₂
          ∙ p₁
          ∙ append_assoc q₁.pending_operations (q₁.operations k ∷ [])
              (slots q₁.operations (k + 1) (started sgl (suc n) (suc n) 0))
          ∙ ap (λ xs. q₁.pending_operations ++ xs) front
          ∙ ap (λ xs. xs ++ slots q₁.operations k done) al.same_pending
          ∙ ap (λ f. q.pending_operations ++ slots f k done) (sym ops);
    }

abbrev pub pushed : ℕ → QueuePair → QueuePair
pushed idx q = record q { pending_operations = q.pending_operations ++ q.operations idx ∷ [] }

pub unpushed : (idx : ℕ) (q₁ qs : QueuePair) → Frame (pushed idx q₁) qs → Frame q₁ qs
unpushed idx q₁ qs f = record { count = f.count; slots = f.slots; mbufs = f.mbufs; later = f.later }

pub Frame-of :
    {A : Type 0} (m : Action QueuePair A) (q : QueuePair) {r : Result A} {q' : QueuePair}
    → Keeps m
    → m q ≡ (r, q')
    → Frame q q'
Frame-of m q k e = subst (λ x. Frame q x.1) e (k q)
