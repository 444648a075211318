-- ===== src/Base/Sets.antt =====
-- `HashSet` and `Vec::contains`/`position`/`remove`, over lists of keys with an equality.
use mathlib.Core.Path.{◌≡◌, refl}
use mathlib.Core.Logic.{inl, inr}
use mathlib.Core.Bool.{Bool, true, false, ◌&&◌, ◌||◌, not}
use mathlib.Core.List.{List, [], ◌∷◌}
use native.Mathlib.Omega.{arith}
use dragoonfly.Base.Tests.{PartialEq, ◌==◌, if◌then◌else◌, Bool-cases}
use dragoonfly.Base.Lists.{All, All-mono}

or_true : (a : Bool) {b : Bool} → b ≡ true → (a || b) ≡ true
or_true true h = refl
or_true false h = h

module _ {ℓ} {A : Type ℓ} ⦃e : PartialEq A⦄ where
  unfoldable pub contains : List A → A → Bool
  contains [] a = false
  contains (x ∷ xs) a = x == a || contains xs a

  -- `HashSet::insert`, without its Boolean answer.
  unfoldable pub insert : A → List A → List A
  insert a xs = if contains xs a then xs else a ∷ xs

  -- `HashSet::remove`, and the removal of every entry equal to `a` from a list.
  unfoldable pub remove : A → List A → List A
  remove a [] = []
  remove a (x ∷ xs) = if x == a then remove a xs else x ∷ remove a xs

  pub contains-insert :
      (a b : A) (xs : List A) → contains (insert a xs) b ≡ (a == b || contains xs b)
  unfolding insert contains
  contains-insert a b xs = elim (Bool-cases (contains xs a)) [
    | inl old ↦ elim (Bool-cases (a == b)) [
      | inl same ↦ ground (arith, (e.eq_iff a b).0 same)
      | inr other ↦ ground arith
    ]
    | inr new ↦ ground arith
  ]

  pub contains-remove :
      (a b : A) (xs : List A) → contains (remove a xs) b ≡ (not (a == b) && contains xs b)
  unfolding remove contains
  contains-remove a b [] = ground arith
  contains-remove a b (x ∷ xs) =
      ground (arith, contains-remove a b xs, e.eq_iff a b, e.eq_iff x a, e.eq_iff x b)

  pub beq_refl : (a : A) → (a == a) ≡ true
  beq_refl a = (e.eq_iff a a).1 refl

  pub All-contains_self : (xs : List A) → All (λ a. contains xs a ≡ true) xs
  unfolding contains
  All-contains_self [] = tt
  All-contains_self (x ∷ xs) =
      (ground (arith, beq_refl x), All-mono (λ a h. or_true (x == a) h) xs (All-contains_self xs))
