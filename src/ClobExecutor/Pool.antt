-- ===== src/ClobExecutor/Pool.antt =====
-- The pre-signed orders of crates/rtt-core/src/clob_executor.rs, in the order in which they are used.
use rtt.Prelude.{
  ℕ, zero, suc, ◌+◌, ◌≤◌, ◌<◌, ◌≡◌, refl, Option, none, some, List, [], ◌∷◌, length, get_elem?,
  arith, lt_or_le, inl, inr,
}
use rtt.Order.{Text}
use rtt.ClobExecutor.{PreSignedOrderPool, len, next_body}

pub next_body-inside :
    (pool : PreSignedOrderPool)
    → pool.cursor < len pool
    → next_body pool ≡ (record pool { cursor = pool.cursor + 1 }, get_elem? pool.bodies pool.cursor)
unfolding next_body
next_body-inside pool h = ground arith

pub get_elem?-inside {ℓ} :
    {A : Type ℓ} (xs : List A) (i : ℕ) → i < length xs → (a : A) × (get_elem? xs i ≡ some a)
get_elem?-inside [] i h = ground arith
get_elem?-inside (x ∷ xs) zero h = (x, refl)
get_elem?-inside (x ∷ xs) (suc i) h = get_elem?-inside xs i (omega arith)

-- The bodies that the next `n` calls hand out.
unfoldable pub hand_out : ℕ → PreSignedOrderPool → List (Option Text)
hand_out zero pool = []
hand_out (suc n) pool = let (pool', body) = next_body pool in body ∷ hand_out n pool'

get_elem?-beyond {ℓ} : {A : Type ℓ} (xs : List A) (i : ℕ) → length xs ≤ i → get_elem? xs i ≡ none
get_elem?-beyond [] i h = refl
get_elem?-beyond (x ∷ xs) zero h = ground arith
get_elem?-beyond (x ∷ xs) (suc i) h = get_elem?-beyond xs i (omega arith)

next_body-beyond :
    (pool : PreSignedOrderPool) → len pool ≤ pool.cursor → next_body pool ≡ (pool, none)
unfolding next_body
next_body-beyond pool h = ground arith

-- The pool hands out the bodies one after the other from its cursor on, each once, and nothing when
-- they are used up: call `i` of any number `n` of calls gives the body `i` places after the cursor.
pub hand_out-in_order :
    (pool : PreSignedOrderPool) (n i : ℕ)
    → i < n
    → get_elem? (hand_out n pool) i ≡ some (get_elem? pool.bodies (pool.cursor + i))
unfolding hand_out
hand_out-in_order pool zero i h = ground arith
hand_out-in_order pool (suc n) zero h = elim (lt_or_le pool.cursor (len pool)) [
  | inl lt ↦ ground (arith, next_body-inside pool lt)
  | inr ge ↦ ground (arith, next_body-beyond pool ge, get_elem?-beyond pool.bodies pool.cursor ge)
]
hand_out-in_order pool (suc n) (suc i) h = elim (lt_or_le pool.cursor (len pool)) [
  | inl lt ↦
      let rest = hand_out-in_order (record pool { cursor = pool.cursor + 1 }) n i (omega arith) in
      ground (arith, next_body-inside pool lt, rest)
  | inr ge ↦
      let rest = hand_out-in_order pool n i (omega arith) in
      let here = get_elem?-beyond pool.bodies (pool.cursor + i) (omega (arith, ge)) in
      let there = get_elem?-beyond pool.bodies (pool.cursor + suc i) (omega (arith, ge)) in
      ground (arith, next_body-beyond pool ge, rest, here, there)
]
