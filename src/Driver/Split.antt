-- ===== src/Driver/Split.antt =====
-- CreateDevices of src/driver.cc: how the worker lcores are split.
use mathlib.Core.Path.{subst}
use bitar.Base.{
  ℕ, zero, suc, ◌+◌, ◌-◌, ◌*◌, ◌/◌, ◌%◌, ◌^◌, ◌≤◌, ◌<◌, List, [], ◌∷◌, ◌++◌, some, length, take,
  drop, length-take, length-drop, take-append-drop, Status, Result, ok, err, ◌≡◌, refl, sym, ap,
  ◌∙◌, arith,
}
use bitar.Driver.{
  Platform, DeviceInfo, num_lcores, after_create, create, create_loop, create_devices,
}

-- The lcores of the devices, one after the other, and whether each device has `q` or one more.
abbrev pub joined : List DeviceInfo → List ℕ
joined [] = []
joined (d ∷ ds) = d.worker_lcores ++ joined ds

pub data IsEven (q : ℕ) : List DeviceInfo → Type 0 where
  no_device : IsEven q []
  one_device :
      {d : DeviceInfo} {ds : List DeviceInfo}
      → q ≤ length d.worker_lcores
      → length d.worker_lcores ≤ q + 1
      → IsEven q ds
      → IsEven q (d ∷ ds)

abbrev pub ids_of : List DeviceInfo → List ℕ
ids_of [] = []
ids_of (d ∷ ds) = d.device_id ∷ ids_of ds

pub record IsSplit (q : ℕ) (device_ids lcores : List ℕ) (ds : List DeviceInfo) : Type 0 where
  pub in_order : ids_of ds ≡ device_ids
  pub all_lcores : joined ds ≡ lcores
  pub even : IsEven q ds

-- A loop that returned a list got through its first round.
loop_rest :
    (r : Status) (d : DeviceInfo) (rest : Result (List DeviceInfo)) {ds : List DeviceInfo}
    → after_create r d rest ≡ ok ds
    → (ds' : List DeviceInfo) × (rest ≡ ok ds') × (ds ≡ d ∷ ds')
loop_rest (ok u) d (ok ds') h = (ds', refl, grind arith)
loop_rest (ok u) d (err e) h = absurd (grind arith)
loop_rest (err x) d rest h = absurd (grind arith)

ok_inj : {A : Type 0} {a b : A} → ok a ≡ ok b → a ≡ b
ok_inj h = grind arith

div_mod : (a k : ℕ) → (a ≡ a / k * k + a % k) × (0 < k → a % k ≤ k)
div_mod a k = (grind arith, λ p. grind arith)

some_inj : {A : Type 0} {a b : A} → some a ≡ some b → a ≡ b
some_inj h = grind arith

length-empty : (lcores : List ℕ) → length lcores ≡ 0 → lcores ≡ []
length-empty [] h = refl
length-empty (x ∷ xs) h = absurd (omega arith)

-- What one device takes of the lcores, and what it leaves for `k` more.
share_bounds :
    (q r k all : ℕ)
    → all ≡ q * suc k + r
    → r ≤ suc k
    → let n = num_lcores q r in
      (n ≤ all) × (all - n ≡ q * k + (r - 1)) × (r - 1 ≤ k) × (q ≤ n) × (n ≤ q + 1)
share_bounds q zero k all h le = (omega arith, omega arith, omega arith, omega arith, omega arith)
share_bounds q (suc r) k all h le =
    (grind arith, grind arith, grind arith, grind arith, grind arith)

create_loop-IsSplit :
    (p : Platform) (q r : ℕ) (ids lcores : List ℕ) {ds : List DeviceInfo}
    → length lcores ≡ q * length ids + r
    → r ≤ length ids
    → create_loop p q r ids lcores ≡ ok ds
    → IsSplit q ids lcores ds
unfolding create_loop
create_loop-IsSplit p q r [] lcores h k e = subst (IsSplit q [] lcores) (ok_inj e) (record {
  in_order = refl;
  all_lcores = sym (length-empty lcores (omega arith));
  even = no_device;
})
create_loop-IsSplit p q r (id ∷ ids) lcores h k e =
    let n : ℕ = num_lcores q r in
    let d : DeviceInfo = record { device_id = id; worker_lcores = take n lcores } in
    let (ds', rest, cons) =
      loop_rest (create p id) d (create_loop p q (r - 1) ids (drop n lcores)) e in
    let (fits, left, fewer, least, most) = share_bounds q r (length ids) (length lcores) h k in
    let split : IsSplit q ids (drop n lcores) ds' =
      create_loop-IsSplit p q (r - 1) ids (drop n lcores) (length-drop n lcores ∙ left) fewer
        rest in
    let m : length (take n lcores) ≡ n = length-take n lcores ∙ omega arith in
    subst (IsSplit q (id ∷ ids) lcores) (sym cons) (record {
      in_order = ap (λ xs. id ∷ xs) split.in_order;
      all_lcores = ap (λ xs. take n lcores ++ xs) split.all_lcores ∙ take-append-drop n lcores;
      even =
          one_device (subst (λ x. q ≤ x) (sym m) least) (subst (λ x. x ≤ q + 1) (sym m) most)
            split.even;
    })

-- CreateDevices() gives the devices that it creates their ids in the order of the request, and splits
-- the worker lcores among them in order: every lcore goes to exactly one device, and each device gets
-- the quotient or one more, where the quotient fits into 16 bits.
pub create_devices-IsSplit :
    (p : Platform) (id : ℕ) (ids lcores : List ℕ) {ds : List DeviceInfo}
    → length lcores / length (id ∷ ids) < 2 ^ 16
    → create_devices p (id ∷ ids) lcores ≡ some (ok ds)
    → IsSplit (length lcores / length (id ∷ ids)) (id ∷ ids) lcores ds
unfolding create_devices
create_devices-IsSplit p id ids lcores {ds = ds} fits e =
    let k : ℕ = length (id ∷ ids) in
    let whole : length lcores / k % 2 ^ 16 ≡ length lcores / k = omega arith in
    let loop : create_loop p (length lcores / k % 2 ^ 16) (length lcores % k) (id ∷ ids) lcores
        ≡ ok ds =
      some_inj e in
    create_loop-IsSplit p (length lcores / k) (length lcores % k) (id ∷ ids) lcores
      (div_mod (length lcores) k).0 ((div_mod (length lcores) k).1 (omega arith))
      (subst (λ q. create_loop p q (length lcores % k) (id ∷ ids) lcores ≡ ok ds) whole loop)

-- Every device of the request can be created.
pub data AllCreated (p : Platform) : List ℕ → Type 0 where
  no_ids : AllCreated p []
  more_ids :
      {id : ℕ} {ids : List ℕ} → create p id ≡ ok tt → AllCreated p ids → AllCreated p (id ∷ ids)

create_loop_total :
    (p : Platform) (q r : ℕ) (ids lcores : List ℕ)
    → AllCreated p ids
    → (ds : List DeviceInfo) × (create_loop p q r ids lcores ≡ ok ds)
unfolding create_loop
create_loop_total p q r [] lcores a = ([], refl)
create_loop_total p q r (id ∷ ids) lcores (more_ids c a) =
    let n : ℕ = num_lcores q r in
    let (ds, e) = create_loop_total p q (r - 1) ids (drop n lcores) a in
    (record { device_id = id; worker_lcores = take n lcores } ∷ ds, rw (c, e) refl)

-- Where every device of a request with an id can be created, CreateDevices() succeeds and splits the
-- lcores as above; a quotient that does not fit into 16 bits is left out.
pub create_devices_total :
    (p : Platform) (id : ℕ) (ids lcores : List ℕ)
    → length lcores / length (id ∷ ids) < 2 ^ 16
    → AllCreated p (id ∷ ids)
    → (ds : List DeviceInfo) × (create_devices p (id ∷ ids) lcores ≡ some (ok ds))
      × IsSplit (length lcores / length (id ∷ ids)) (id ∷ ids) lcores ds
unfolding create_devices
create_devices_total p id ids lcores fits a =
    let k : ℕ = length (id ∷ ids) in
    let (ds, e) =
      create_loop_total p (length lcores / k % 2 ^ 16) (length lcores % k) (id ∷ ids) lcores a in
    (ds, ap some e, create_devices-IsSplit p id ids lcores fits (ap some e))
