-- ===== src/Metrics/Percentiles.antt =====
-- The percentiles of crates/rtt-core/src/metrics.rs ascend and stay within the values.
use rtt.Prelude.{
  ℕ, zero, suc, ◌-◌, ◌≤◌, ◌<◌, ◌≡◌, refl, sym, subst, List, [], ◌∷◌, length, All, All-imp, leb,
  arith, Bool-cases, inl, inr, leb→le,
}
use rtt.Metrics.{insert_sorted, sort, at, percentile_index, percentiles}

abbrev pub Ascends : List ℕ → Type 0
Ascends [] = Unit
Ascends (x ∷ xs) = All (λ y. x ≤ y) xs × Ascends xs

insert_sorted-All :
    (b x : ℕ) (xs : List ℕ) → b ≤ x → All (λ y. b ≤ y) xs → All (λ y. b ≤ y) (insert_sorted x xs)
insert_sorted-All b x [] h a = (h, tt)
insert_sorted-All b x (y ∷ ys) h a = elim (Bool-cases (leb x y)) [
  | inl e ↦ rw e (h, a)
  | inr e ↦ rw e (a.0, insert_sorted-All b x ys h a.1)
]

insert_sorted-Ascends : (x : ℕ) (xs : List ℕ) → Ascends xs → Ascends (insert_sorted x xs)
insert_sorted-Ascends x [] h = (tt, tt)
insert_sorted-Ascends x (y ∷ ys) h = elim (Bool-cases (leb x y)) [
  | inl e ↦ rw e ((leb→le x y e, All-imp (λ z (k : y ≤ z). omega (arith, leb→le x y e)) ys h.0), h)
  | inr e ↦ rw e (insert_sorted-All y x ys (ground (arith, e)) h.0, insert_sorted-Ascends x ys h.1)
]

sort-Ascends : (xs : List ℕ) → Ascends (sort xs)
unfolding sort
sort-Ascends [] = tt
sort-Ascends (x ∷ xs) = insert_sorted-Ascends x (sort xs) (sort-Ascends xs)

at-All : (b : ℕ) (xs : List ℕ) (i : ℕ) → All (λ y. b ≤ y) xs → i < length xs → b ≤ at xs i
at-All b [] i a h = elim h [ ]
at-All b (x ∷ xs) zero a h = a.0
at-All b (x ∷ xs) (suc i) a h = at-All b xs i a.1 (omega arith)

at_monotone : (xs : List ℕ) (i j : ℕ) → Ascends xs → i ≤ j → j < length xs → at xs i ≤ at xs j
at_monotone [] i j a h k = elim k [ ]
at_monotone (x ∷ xs) zero zero a h k = omega arith
at_monotone (x ∷ xs) zero (suc j) a h k = at-All x xs j a.0 (omega arith)
at_monotone (x ∷ xs) (suc i) zero a h k = elim h [ ]
at_monotone (x ∷ xs) (suc i) (suc j) a h k = at_monotone xs i j a.1 (omega arith) (omega arith)

length-insert_sorted : (x : ℕ) (xs : List ℕ) → length (insert_sorted x xs) ≡ suc (length xs)
length-insert_sorted x [] = refl
length-insert_sorted x (y ∷ ys) = ground (arith, length-insert_sorted x ys)

insert_sorted-All_back :
    (b x : ℕ) (xs : List ℕ) → All (λ y. y ≤ b) (insert_sorted x xs) → (x ≤ b) × All (λ y. y ≤ b) xs
insert_sorted-All_back b x [] a = a
insert_sorted-All_back b x (y ∷ ys) a = elim (Bool-cases (leb x y)) [
  | inl e ↦ rw e at a
  | inr e ↦
      let kept : (y ≤ b) × All (λ y. y ≤ b) (insert_sorted x ys) = rw e at a in
      let rest = insert_sorted-All_back b x ys kept.1 in (rest.0, (kept.0, rest.1))
]

sort-All_back : (b : ℕ) (xs : List ℕ) → All (λ y. y ≤ b) (sort xs) → All (λ y. y ≤ b) xs
unfolding sort
sort-All_back b [] a = tt
sort-All_back b (x ∷ xs) a =
    let rest = insert_sorted-All_back b x (sort xs) a in (rest.0, sort-All_back b xs rest.1)

-- Each value of an ascending list is at most the last.
last_largest : (xs : List ℕ) → Ascends xs → All (λ y. y ≤ at xs (length xs - 1)) xs
last_largest [] a = tt
last_largest (x ∷ []) a = (omega arith, tt)
last_largest (x ∷ y ∷ ys) a =
    let rest = last_largest (y ∷ ys) a.1 in
    let one : suc (suc (length ys)) - 1 ≡ suc (length ys) = omega arith in
    let less : suc (length ys) - 1 ≡ length ys = omega arith in
    let below = subst (λ (i : ℕ). All (λ v. v ≤ at (y ∷ ys) i) (y ∷ ys)) less rest in
    subst (λ (i : ℕ). All (λ v. v ≤ at (x ∷ y ∷ ys) i) (x ∷ y ∷ ys)) (sym one)
      (at-All x (y ∷ ys) (length ys) a.0 (omega arith), below)

-- The percentiles of some values ascend, from the median to the largest, and the largest is at least each
-- of the values, if the rounding of the rank ascends with the percentage.
pub percentiles-ascend :
    (round_rank : ℕ → ℕ → ℕ) (values : List ℕ)
    → ((n p q : ℕ) → p ≤ q → round_rank n p ≤ round_rank n q)
    → let set = percentiles round_rank values in
      (set.p50 ≤ set.p95)
      × (set.p95 ≤ set.p99)
      × (set.p99 ≤ set.p999)
      × (set.p999 ≤ set.largest)
      × All (λ v. v ≤ set.largest) values
unfolding percentiles
percentiles-ascend round_rank [] h = (omega arith, omega arith, omega arith, omega arith, tt)
percentiles-ascend round_rank (x ∷ xs) h =
    let sorted = sort (x ∷ xs) in
    let up = sort-Ascends (x ∷ xs) in
    let n = length sorted in
    let full : 0 < n = unfold sort in omega (arith, length-insert_sorted x (sort xs)) in
    let index = λ (p : ℕ). percentile_index round_rank n p in
    let step : (p q : ℕ) → p ≤ q → at sorted (index p) ≤ at sorted (index q) =
      λ p q k. at_monotone sorted (index p) (index q) up (omega (arith, h n p q k)) (omega arith) in
    (
      step 500 950 (omega arith),
      step 950 990 (omega arith),
      step 990 999 (omega arith),
      at_monotone sorted (index 999) (n - 1) up (omega arith) (omega arith),
      sort-All_back (at sorted (n - 1)) (x ∷ xs) (last_largest sorted up),
    )
