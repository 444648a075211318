-- ===== src/SendList/Vectors.antt =====
-- `Vec` operations of the recuperation: `position`, `remove` and `swap_remove`, and counts.
use dragoonfly.Base.{
  ℕ, zero, suc, ◌+◌, ◌<◌, ◌≡◌, refl, true, Option, none, some, List, [], ◌∷◌, ◌++◌, PartialEq, ◌==◌,
  if◌then◌else◌, arith, Bool-cases, Option-cases, ap, inl, inr, length, get_elem?,
}
use mathlib.Core.Option

module _ {ℓ} {A : Type ℓ} where
  -- `Vec::remove`: the elements behind the index move up.
  unfoldable pub remove_at : ℕ → List A → List A
  remove_at i [] = []
  remove_at zero (x ∷ xs) = xs
  remove_at (suc i) (x ∷ xs) = x ∷ remove_at i xs

  -- The last element of `x ∷ xs`, and the others.
  abbrev pub last_of : A → List A → A
  last_of x [] = x
  last_of x (y ∷ ys) = last_of y ys

  abbrev pub init_of : A → List A → List A
  init_of x [] = []
  init_of x (y ∷ ys) = x ∷ init_of y ys

  abbrev pub last_to_front : List A → List A
  last_to_front [] = []
  last_to_front (x ∷ xs) = last_of x xs ∷ init_of x xs

  -- `Vec::swap_remove`: the last element takes the place of the removed one.
  unfoldable pub swap_remove : ℕ → List A → List A
  swap_remove i [] = []
  swap_remove zero (x ∷ xs) = last_to_front xs
  swap_remove (suc i) (x ∷ xs) = x ∷ swap_remove i xs

module _ {ℓ} {A : Type ℓ} ⦃e : PartialEq A⦄ where
  -- `iter().position(|x| x == a)`
  unfoldable pub position : A → List A → Option ℕ
  position a [] = none
  position a (x ∷ xs) = if x == a then some 0 else Option.map suc (position a xs)

  abbrev pub count : A → List A → ℕ
  count a [] = 0
  count a (x ∷ xs) = (if x == a then 1 else 0) + count a xs

  pub count-append : (a : A) (xs ys : List A) → count a (xs ++ ys) ≡ count a xs + count a ys
  count-append a [] ys = omega arith
  count-append a (x ∷ xs) ys = omega (arith, count-append a xs ys)

  count-last_to_front : (a : A) (xs : List A) → count a (last_to_front xs) ≡ count a xs
  count-last_to_front a [] = refl
  count-last_to_front a (x ∷ []) = refl
  count-last_to_front a (x ∷ y ∷ ys) = omega (arith, count-last_to_front a (y ∷ ys))

  beq_congr : {x a : A} (b : A) → (x == a) ≡ true → (x == b) ≡ (a == b)
  beq_congr {x} {a} b h = ap (λ z. z == b) ((e.eq_iff x a).0 h)

  -- Removing by position takes out one element that equals `a`, and no other.
  pub count-swap_remove :
      (a b : A) (xs : List A) (i : ℕ)
      → position a xs ≡ some i
      → count b (swap_remove i xs) + (if a == b then 1 else 0) ≡ count b xs
  unfolding position swap_remove
  count-swap_remove a b [] i h = cc
  count-swap_remove a b (x ∷ xs) zero h = elim (Bool-cases (x == a)) [
    | inl hit ↦ ground (arith, beq_congr b hit, count-last_to_front b xs)
    | inr miss ↦ elim (Option-cases (position a xs)) [
      | inl e ↦ ground arith
      | inr (j, e) ↦ ground arith
    ]
  ]
  count-swap_remove a b (x ∷ xs) (suc i) h = elim (Bool-cases (x == a)) [
    | inl hit ↦ ground arith
    | inr miss ↦ elim (Option-cases (position a xs)) [
      | inl e ↦ ground arith
      | inr (j, e) ↦ ground (arith, count-swap_remove a b xs i)
    ]
  ]

  -- Nothing is found only where there is nothing to find.
  pub position-none : (a : A) (xs : List A) → position a xs ≡ none → count a xs ≡ 0
  unfolding position
  position-none a [] h = refl
  position-none a (x ∷ xs) h = elim (Bool-cases (x == a)) [
    | inl hit ↦ ground arith
    | inr miss ↦ elim (Option-cases (position a xs)) [
      | inl e ↦ ground (arith, position-none a xs)
      | inr (j, e) ↦ ground arith
    ]
  ]

  pub position-lt : (a : A) (xs : List A) (i : ℕ) → position a xs ≡ some i → i < length xs
  unfolding position
  position-lt a [] i h = cc
  position-lt a (x ∷ xs) zero h = omega arith
  position-lt a (x ∷ xs) (suc i) h = elim (Bool-cases (x == a)) [
    | inl hit ↦ ground arith
    | inr miss ↦ elim (Option-cases (position a xs)) [
      | inl e ↦ ground arith
      | inr (j, e) ↦ ground (arith, position-lt a xs i)
    ]
  ]

module _ {ℓ} {A : Type ℓ} where
  pub length-remove_at :
      (i : ℕ) (xs : List A) → i < length xs → length (remove_at i xs) + 1 ≡ length xs
  unfolding remove_at
  length-remove_at i [] h = elim h [ ]
  length-remove_at zero (x ∷ xs) h = omega arith
  length-remove_at (suc i) (x ∷ xs) h = omega (arith, length-remove_at i xs)

module _ {ℓ} {A : Type ℓ} ⦃e : PartialEq A⦄ where
  pub count-remove_at :
      (a b : A) (xs : List A) (i : ℕ)
      → position a xs ≡ some i
      → count b (remove_at i xs) + (if a == b then 1 else 0) ≡ count b xs
  unfolding position remove_at
  count-remove_at a b [] i h = cc
  count-remove_at a b (x ∷ xs) zero h = elim (Bool-cases (x == a)) [
    | inl hit ↦ ground (arith, beq_congr b hit)
    | inr miss ↦ elim (Option-cases (position a xs)) [
      | inl q ↦ ground arith
      | inr (j, q) ↦ ground arith
    ]
  ]
  count-remove_at a b (x ∷ xs) (suc i) h = elim (Bool-cases (x == a)) [
    | inl hit ↦ ground arith
    | inr miss ↦ elim (Option-cases (position a xs)) [
      | inl q ↦ ground arith
      | inr (j, q) ↦ ground (arith, count-remove_at a b xs i)
    ]
  ]

  pub count-get_elem? : (a : A) (xs : List A) (i : ℕ) → get_elem? xs i ≡ some a → 0 < count a xs
  count-get_elem? a [] i h = cc
  count-get_elem? a (x ∷ xs) zero h = ground (arith, e.eq_iff x a)
  count-get_elem? a (x ∷ xs) (suc i) h = omega (arith, count-get_elem? a xs i h)
