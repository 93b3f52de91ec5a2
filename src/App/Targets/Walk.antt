-- ===== src/App/Targets/Walk.antt =====
-- The walk of apps/demo_app.cc over the queue pairs visits each at most once, device by device.
use bitar.Base.{
  ℕ, zero, suc, ◌+◌, ◌-◌, ◌%◌, ◌^◌, ◌≤◌, ◌<◌, List, [], ◌∷◌, ◌++◌, some, take, drop, length,
  get_elem?, ok, ◌≡◌, refl, ◌∙◌, sym, ◌↔◌, arith,
}
use bitar.App.Targets.{Card, advance, visits, targets, total_num_qps, enough_queue_pairs}
use mathlib.Core.Path.{subst}

-- The queue pairs of one device from `q` on, and of all devices from index `i` on.
abbrev pub pairs_of : ℕ → ℕ → ℕ → List (ℕ × ℕ)
pairs_of i q zero = []
pairs_of i q (suc n) = (i, q) ∷ pairs_of i (q + 1) n

abbrev pub pairs_from : ℕ → List Card → List (ℕ × ℕ)
pairs_from i [] = []
pairs_from i (d ∷ ds) = pairs_of i 0 d.num_qps ++ pairs_from (i + 1) ds

abbrev pub num_pairs : List Card → ℕ
num_pairs [] = 0
num_pairs (d ∷ ds) = d.num_qps + num_pairs ds

-- Every device has a queue pair, and their number fits a std::uint16_t.
abbrev pub HaveQueuePairs : List Card → Type 0
HaveQueuePairs [] = Unit {0}
HaveQueuePairs (d ∷ ds) = (0 < d.num_qps) × ((d.num_qps < 2 ^ 16) × HaveQueuePairs ds)

get_elem?-drop :
    (xs : List Card) (i : ℕ) {y : Card} {ys : List Card}
    → drop i xs ≡ y ∷ ys
    → get_elem? xs i ≡ some y
get_elem?-drop [] zero h = ground arith
get_elem?-drop [] (suc i) h = ground arith
get_elem?-drop (x ∷ xs) zero h = ground arith
get_elem?-drop (x ∷ xs) (suc i) h = get_elem?-drop xs i h

drop-suc :
    (xs : List Card) (i : ℕ) {y : Card} {ys : List Card} → drop i xs ≡ y ∷ ys → drop (suc i) xs ≡ ys
drop-suc [] zero h = ground arith
drop-suc [] (suc i) h = ground arith
drop-suc (x ∷ xs) zero h = ground arith
drop-suc (x ∷ xs) (suc i) h = drop-suc xs i h

module _ (devices : List Card) {d : Card} {i : ℕ} (here : get_elem? devices i ≡ some d) where
  visits-step :
      (n q : ℕ) (t : ℕ × ℕ) (ts : List (ℕ × ℕ))
      → advance d.num_qps (i, q) ≡ t
      → visits devices n t ≡ some ts
      → visits devices (suc n) (i, q) ≡ some ((i, q) ∷ ts)
  unfolding visits
  visits-step n q t ts e rest = ground arith

  visits_one : (q : ℕ) → visits devices 1 (i, q) ≡ some ((i, q) ∷ [])
  unfolding visits
  visits_one q = ground arith

advance_within : (n i q : ℕ) → q + 1 < n → n < 2 ^ 16 → advance n (i, q) ≡ (i, q + 1)
unfolding advance
advance_within n i q h small = ground arith

advance_over : (n i q : ℕ) → q + 1 ≡ n → n < 2 ^ 16 → i + 1 < 2 ^ 8 → advance n (i, q) ≡ (i + 1, 0)
unfolding advance
advance_over n i q h small few = ground arith

next : (i : ℕ) → suc i ≡ i + 1
next i = omega arith

-- At queue pair `q` of the device at index `i`, with `k` of its queue pairs ahead: the walk visits
-- these, then the devices behind it.
visits_lem :
    (devices : List Card) (n i q k : ℕ) (d : Card) (ds : List Card)
    → drop i devices ≡ d ∷ ds
    → i + length ds < 2 ^ 8
    → q + suc k ≡ d.num_qps
    → d.num_qps < 2 ^ 16
    → HaveQueuePairs ds
    → n ≤ suc k + num_pairs ds
    → visits devices n (i, q) ≡ some (take n (pairs_of i q (suc k) ++ pairs_from (i + 1) ds))
unfolding visits
visits_lem devices zero i q k d ds here few ahead small have enough = refl
visits_lem devices (suc n) i q (suc k) d ds here few ahead small have enough =
    visits-step devices (get_elem?-drop devices i here) n q (i, q + 1)
      (take n (pairs_of i (q + 1) (suc k) ++ pairs_from (i + 1) ds))
      (advance_within d.num_qps i q (omega arith) small)
      (visits_lem devices n i (q + 1) k d ds here few (omega arith) small have (omega arith))
visits_lem devices (suc zero) i q zero d ds here few ahead small have enough =
    visits_one devices (get_elem?-drop devices i here) q
visits_lem devices (suc (suc n)) i q zero d [] here few ahead small have enough =
    absurd (omega arith)
visits_lem devices (suc (suc n)) i q zero d (d' ∷ ds) here few ahead small have enough =
    let more : d'.num_qps ≡ suc (d'.num_qps - 1) = omega arith in
    let rest : visits devices (suc n) (i + 1, 0)
        ≡ some (
            take (suc n) (pairs_of (i + 1) 0 (suc (d'.num_qps - 1)) ++ pairs_from (i + 1 + 1) ds)) =
      visits_lem devices (suc n) (i + 1) 0 (d'.num_qps - 1) d' ds
        (subst (λ j. drop j devices ≡ d' ∷ ds) (next i) (drop-suc devices i here)) (omega arith)
        (omega arith) have.1.0 have.1.1 (omega arith) in
    visits-step devices (get_elem?-drop devices i here) (suc n) q (i + 1, 0)
      (take (suc n) (pairs_of (i + 1) 0 d'.num_qps ++ pairs_from (i + 1 + 1) ds))
      (advance_over d.num_qps i q (omega arith) small (omega arith))
      (subst
        (λ k.
          visits devices (suc n) (i + 1, 0)
          ≡ some (take (suc n) (pairs_of (i + 1) 0 k ++ pairs_from (i + 1 + 1) ds)))
        (sym more) rest)

total_num_qps_lem :
    (ds : List Card) (num : ℕ)
    → num + num_pairs ds < 2 ^ 32
    → total_num_qps ds num ≡ num + num_pairs ds
unfolding total_num_qps
total_num_qps_lem [] num h = omega arith
total_num_qps_lem (d ∷ ds) num h =
    let fits : (num + d.num_qps) % 2 ^ 32 ≡ num + d.num_qps = omega arith in
    rw fits (total_num_qps_lem ds (num + d.num_qps) (omega arith) ∙ omega arith)

targets_from :
    (devices : List Card) (n : ℕ)
    → length devices ≤ 2 ^ 8
    → HaveQueuePairs devices
    → n ≤ num_pairs devices
    → visits devices n (0, 0) ≡ some (take n (pairs_from 0 devices))
unfolding visits
targets_from [] zero few have h = refl
targets_from [] (suc n) few have h = absurd (omega arith)
targets_from (d ∷ ds) n few have h =
    let more : d.num_qps ≡ suc (d.num_qps - 1) = omega arith in
    subst (λ k. visits (d ∷ ds) n (0, 0) ≡ some (take n (pairs_of 0 0 k ++ pairs_from 1 ds)))
      (sym more)
      (visits_lem (d ∷ ds) n 0 0 (d.num_qps - 1) d ds refl (omega arith) (omega arith) have.1.0
        have.1.1 (omega arith))

-- What EvaluateAsync() checks is enough for its loops: if every device has queue pairs, then the check
-- passes exactly where there are at least as many queue pairs as tests; and then the loops stay within
-- the devices and visit, from the first device on, queue pairs 0, 1 and so on of each, as many as
-- there are tests.
pub targets_lem :
    (devices : List Card) (num_parallel_tests : ℕ)
    → length devices ≤ 2 ^ 8
    → num_pairs devices < 2 ^ 32
    → HaveQueuePairs devices
    → ((enough_queue_pairs devices num_parallel_tests ≡ ok tt)
        ↔ (num_parallel_tests ≤ num_pairs devices))
      × (num_parallel_tests ≤ num_pairs devices
          → targets devices num_parallel_tests
            ≡ some (take num_parallel_tests (pairs_from 0 devices)))
unfolding enough_queue_pairs targets
targets_lem devices n few fits have = (
  (
    λ h. ground (arith, total_num_qps_lem devices 0),
    λ h. ground (arith, total_num_qps_lem devices 0),
  ),
  targets_from devices n few have,
)
