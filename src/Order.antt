-- ===== src/Order.antt =====
-- The order that Rust's `Ord` gives the keys of the program's `BTreeMap`s and `BTreeSet`s, and text.
-- A `String` is the list of its UTF-8 bytes, which is what `Ord` compares.
use Prim.Native.Char.{code}
use Prim.Native.String.{String}
use Prim.Native.Nat.Ordering.{lt, eq, gt}
use rtt.Prelude.{ℕ, compare, Ordering, ◌≡◌, ◌↔◌, Bool, true, false, List, [], ◌∷◌, arith}

-- What an implementation of `Ord` promises.
pub record Ord {ℓ} (K : Type ℓ) : Type ℓ where
  pub cmp : K → K → Ordering
  pub cmp_self : (a : K) → cmp a a ≡ eq
  pub eq_of_cmp : (a b : K) → cmp a b ≡ eq → a ≡ b
  pub flip_gt : (a b : K) → cmp a b ≡ gt → cmp b a ≡ lt
  pub flip_lt : (a b : K) → cmp a b ≡ lt → cmp b a ≡ gt
  pub lt_trans : (a b c : K) → cmp a b ≡ lt → cmp b c ≡ lt → cmp a c ≡ lt

abbrev is_eq : Ordering → Bool
is_eq eq = true
is_eq _ = false

module _ {ℓ} {K : Type ℓ} ⦃o : Ord K⦄ where
  infix 50 ◌≺◌
  abbrev pub ◌≺◌ : K → K → Type 0
  a ≺ b = o.cmp a b ≡ lt

  -- `==` on keys.
  unfoldable pub same : K → K → Bool
  same a b = is_eq (o.cmp a b)

  pub same_self : (a : K) → same a a ≡ true
  unfolding same
  same_self a = ground (arith, o.cmp_self a)

  pub eq_of_same : (a b : K) → same a b ≡ true → a ≡ b
  unfolding same
  eq_of_same a b h = ground (arith, o.eq_of_cmp a b)

  pub same_of_lt : (a b : K) → a ≺ b → same a b ≡ false
  unfolding same
  same_of_lt a b h = ground arith

  pub same_of_gt : (a b : K) → b ≺ a → same a b ≡ false
  unfolding same
  same_of_gt a b h = ground (arith, o.flip_lt b a)

  pub same_iff : (a b : K) → (same a b ≡ true) ↔ (a ≡ b)
  same_iff a b = (eq_of_same a b, λ e. ground (arith, same_self a))

nat_self : (a : ℕ) → compare a a ≡ eq
nat_self a = ground arith

nat_eq : (a b : ℕ) → compare a b ≡ eq → a ≡ b
nat_eq a b h = ground arith

nat_flip_gt : (a b : ℕ) → compare a b ≡ gt → compare b a ≡ lt
nat_flip_gt a b h = ground arith

nat_flip_lt : (a b : ℕ) → compare a b ≡ lt → compare b a ≡ gt
nat_flip_lt a b h = ground arith

nat_trans : (a b c : ℕ) → compare a b ≡ lt → compare b c ≡ lt → compare a c ≡ lt
nat_trans a b c h k = ground arith

-- Bytes, in order.
abbrev pub Text : Type 0
Text = List ℕ

-- A literal: its code points are its bytes, since every literal of the program is ASCII.
abbrev pub text : String → Text
text String.[] = []
text (String.◌∷◌ c s) = code c ∷ text s

-- Lexicographic by bytes.
abbrev pub cmp_text : Text → Text → Ordering
cmp_text [] [] = eq
cmp_text [] (y ∷ ys) = lt
cmp_text (x ∷ xs) [] = gt
cmp_text (x ∷ xs) (y ∷ ys) = elim (compare x y) [ lt ↦ lt | eq ↦ cmp_text xs ys | gt ↦ gt ]

pub text_self : (a : Text) → cmp_text a a ≡ eq
text_self [] = ground arith
text_self (x ∷ xs) = ground (arith, nat_self x, text_self xs)

pub text_eq : (a b : Text) → cmp_text a b ≡ eq → a ≡ b
text_eq [] [] h = ground arith
text_eq [] (y ∷ ys) h = ground arith
text_eq (x ∷ xs) [] h = ground arith
text_eq (x ∷ xs) (y ∷ ys) h = ground (arith, nat_eq x y, text_eq xs ys)

pub text_flip_gt : (a b : Text) → cmp_text a b ≡ gt → cmp_text b a ≡ lt
text_flip_gt [] [] h = ground arith
text_flip_gt [] (y ∷ ys) h = ground arith
text_flip_gt (x ∷ xs) [] h = ground arith
text_flip_gt (x ∷ xs) (y ∷ ys) h = ground (arith, text_flip_gt xs ys)

pub text_flip_lt : (a b : Text) → cmp_text a b ≡ lt → cmp_text b a ≡ gt
text_flip_lt [] [] h = ground arith
text_flip_lt [] (y ∷ ys) h = ground arith
text_flip_lt (x ∷ xs) [] h = ground arith
text_flip_lt (x ∷ xs) (y ∷ ys) h = ground (arith, text_flip_lt xs ys)

pub text_trans : (a b c : Text) → cmp_text a b ≡ lt → cmp_text b c ≡ lt → cmp_text a c ≡ lt
text_trans [] [] c h k = ground arith
text_trans [] (y ∷ ys) [] h k = ground arith
text_trans [] (y ∷ ys) (z ∷ zs) h k = ground arith
text_trans (x ∷ xs) [] c h k = ground arith
text_trans (x ∷ xs) (y ∷ ys) [] h k = ground arith
text_trans (x ∷ xs) (y ∷ ys) (z ∷ zs) h k = ground (arith, text_trans xs ys zs)

instance unfoldable pub text_ord : Ord Text
text_ord = record {
  cmp = cmp_text;
  cmp_self = text_self;
  eq_of_cmp = text_eq;
  flip_gt = text_flip_gt;
  flip_lt = text_flip_lt;
  lt_trans = text_trans;
}

-- Pairs, by the first component and then by the second.
module _ {ℓ κ} {A : Type ℓ} {B : Type κ} ⦃o : Ord A⦄ ⦃p : Ord B⦄ where
  abbrev pub cmp_pair : A × B → A × B → Ordering
  cmp_pair (a, b) (c, d) = elim (o.cmp a c) [ lt ↦ lt | eq ↦ p.cmp b d | gt ↦ gt ]

  pub pair_self : (a : A × B) → cmp_pair a a ≡ eq
  pair_self (a, b) = ground (arith, o.cmp_self a, p.cmp_self b)

  pub pair_eq : (a b : A × B) → cmp_pair a b ≡ eq → a ≡ b
  pair_eq (a, b) (c, d) h = ground (arith, o.eq_of_cmp a c, p.eq_of_cmp b d)

  pub pair_flip_gt : (a b : A × B) → cmp_pair a b ≡ gt → cmp_pair b a ≡ lt
  pair_flip_gt (a, b) (c, d) h =
      ground (arith, o.flip_gt a c, p.flip_gt b d, o.eq_of_cmp a c, o.cmp_self a)

  pub pair_flip_lt : (a b : A × B) → cmp_pair a b ≡ lt → cmp_pair b a ≡ gt
  pair_flip_lt (a, b) (c, d) h =
      ground (arith, o.flip_lt a c, p.flip_lt b d, o.eq_of_cmp a c, o.cmp_self a)

  pub pair_trans : (a b c : A × B) → cmp_pair a b ≡ lt → cmp_pair b c ≡ lt → cmp_pair a c ≡ lt
  pair_trans (a, b) (c, d) (e, f) h k =
      ground
        (arith, o.lt_trans a c e, p.lt_trans b d f, o.eq_of_cmp a c, o.eq_of_cmp c e, o.cmp_self a)

  instance unfoldable pub pair_ord : Ord (A × B)
  pair_ord = record {
    cmp = cmp_pair;
    cmp_self = pair_self;
    eq_of_cmp = pair_eq;
    flip_gt = pair_flip_gt;
    flip_lt = pair_flip_lt;
    lt_trans = pair_trans;
  }
