-- ===== src/QueuePair/Assemble/Stale.antt =====
-- AssembleFrom() of src/memory.cc on a queue pair that Release() has left with assembled operations.
use mathlib.Core.Path.{subst}
use bitar.Base.{
  ℕ, ◌-◌, ◌≤◌, ◌<◌, leb, ◌||◌, if◌then◌else◌, List, [], ◌∷◌, Result, ok, Bool-cases, inl, inr, ◌⊎◌,
  ◌≡◌, sym, ap, ◌∙◌, arith,
}
use bitar.Rte.{Rte}
use bitar.Config.{Configuration}
use bitar.QueuePair.{QueuePair, release}
use bitar.QueuePair.Order.{pushed, release_lem}
use bitar.QueuePair.Assemble.{
  Buffer, next_burst_bytes, bytes_to_mbufs, assemble_bytes, assemble_from_decompressed,
}
use bitar.QueuePair.Assemble.Burst.{IsSized}
use bitar.QueuePair.Assemble.Source.{ok_inj}
use bitar.QueuePair.Assemble.Calls.{assemble_from_decompressed-Assembled}

-- A pointer is in a list.
abbrev pub IsIn : ℕ → List ℕ → Type 0
IsIn p [] = ⊥
IsIn p (x ∷ xs) = (p ≡ x) ⊎ IsIn p xs

pushed-IsIn : (p : ℕ) (xs ys : List ℕ) → IsIn p xs ⊎ IsIn p ys → IsIn p (pushed xs ys)
pushed-IsIn p [] ys (inl h) = absurd h
pushed-IsIn p [] ys (inr h) = h
pushed-IsIn p (x ∷ xs) ys (inl (inl h)) = pushed-IsIn p xs (x ∷ ys) (inr (inl h))
pushed-IsIn p (x ∷ xs) ys (inl (inr h)) = pushed-IsIn p xs (x ∷ ys) (inl h)
pushed-IsIn p (x ∷ xs) ys (inr h) = pushed-IsIn p xs (x ∷ ys) (inr (inr h))

-- What a success behind Release() reports: `last` operations, of which the first ones were freed.
pub record ReportsFreed (q : QueuePair) (last : ℕ) (q' : QueuePair) : Type 0 where
  pub counted : q'.num_ops_assembled ≡ last
  pub as_many : q.num_ops_assembled ≤ last
  pub in_place : (i : ℕ) → i < q.num_ops_assembled → q'.operations i ≡ q.operations i
  pub freed :
      (i : ℕ) → i < q.num_ops_assembled → IsIn (q'.operations i) (release q).freed_operations

module _ (rte : Rte) (c : Configuration) where
  released-ReportsFreed :
      (q : QueuePair) (last : ℕ) (q' : QueuePair)
      → ((i : ℕ) → i < q.num_ops_assembled → IsIn (q.operations i) q.pending_operations)
      → q'.num_ops_assembled ≡ last
      → q.num_ops_assembled ≤ last
      → ((i : ℕ) → i < q.num_ops_assembled → q'.operations i ≡ q.operations i)
      → ReportsFreed q last q'
  released-ReportsFreed q last q' pending count more kept = record {
    counted = count;
    as_many = more;
    in_place = kept;
    freed = λ i h.
        subst (IsIn (q'.operations i)) (sym (ap (λ x. x.freed_operations) (release_lem q))) (
          pushed-IsIn (q'.operations i) q.pending_operations q.freed_operations
            (inl (subst (λ p. IsIn p q.pending_operations) (sym (kept i h)) (pending i h))));
  }

  -- Release() does not reset the count. Where the assembled operations of a queue pair were pending,
  -- every call of AssembleFrom() that succeeds behind it, whether it assembles more or not, reports at
  -- least as many operations, and the first ones of the array are those that Release() has freed.
  pub assemble-release :
      (b : Buffer) (offset : ℕ) (q q' : QueuePair) {last o : ℕ}
      → IsSized c
      → ((i : ℕ) → i < q.num_ops_assembled → IsIn (q.operations i) q.pending_operations)
      → assemble_from_decompressed rte c b offset (release q) ≡ (ok (last, o), q')
      → ReportsFreed q last q'
  unfolding assemble_from_decompressed
  assemble-release b offset q q' {last = last} {o = o} sized pending h =
      let e = release_lem q in
      let count : (release q).num_ops_assembled ≡ q.num_ops_assembled =
        ap (λ x. x.num_ops_assembled) e in
      let same : (i : ℕ) → (release q).operations i ≡ q.operations i =
        λ i. ap (λ x. x.operations i) e in
      elim (Bool-cases (leb b.size offset || leb c.burst_size (release q).num_ops_assembled)) [
        | inl full ↦
            let r : ◌≡◌ {A = Result (ℕ × ℕ) × QueuePair}
                (ok ((release q).num_ops_assembled, offset), release q) (ok (last, o), q') =
              subst
                (λ t.
                  (if t
                    then (ok ((release q).num_ops_assembled, offset), release q)
                    else assemble_bytes rte c b
                        (bytes_to_mbufs c
                          (next_burst_bytes c (release q).num_ops_assembled (b.size - offset)))
                        offset (release q))
                  ≡ (ok (last, o), q'))
                full h in
            let reported : (release q).num_ops_assembled ≡ last =
              ap (λ v. v.0) (ok_inj {A = ℕ × ℕ} (ap (λ x. x.0) r)) in
            let stays : release q ≡ q' = ap (λ x. x.1) r in
            released-ReportsFreed q last q' pending
              (ap (λ x. x.num_ops_assembled) (sym stays) ∙ reported) (omega arith)
              (λ i k. ap (λ x. x.operations i) (sym stays) ∙ same i)
        | inr more ↦
            let burst =
              (assemble_from_decompressed-Assembled rte c b offset (release q) q' sized
                (ground arith) (ground arith) h).0 in
            released-ReportsFreed q last q' pending burst.counted
              (omega (arith, burst.until, count))
              (λ i k. burst.kept i (omega (arith, count, k)) ∙ same i)
      ]
