-- ===== src/Strategy/Sort.antt =====
-- `known_peers.sort()` of the round robin and `accepted_peers.sort()` of the recuperation: the
-- standard library's stable sort, as an insertion sort.
use mathlib.Core.List.{Perm}
use mathlib.Core.List.Perm
use dragoonfly.Base.{
  ℕ, ◌+◌, ◌≤◌, ◌≡◌, List, [], ◌∷◌, leb, if◌then◌else◌, arith, Bool-cases, inl, inr, length,
}

unfoldable pub place : ℕ → List ℕ → List ℕ
place a [] = a ∷ []
place a (x ∷ xs) = if leb a x then a ∷ x ∷ xs else x ∷ place a xs

unfoldable pub sort : List ℕ → List ℕ
unfolding place
sort [] = []
sort (x ∷ xs) = place x (sort xs)

abbrev pub HeadLe : ℕ → List ℕ → Type 0
HeadLe a [] = Unit
HeadLe a (x ∷ xs) = a ≤ x

abbrev pub IsSorted : List ℕ → Type 0
IsSorted [] = Unit
IsSorted (x ∷ xs) = HeadLe x xs × IsSorted xs

place-HeadLe : (b a : ℕ) (xs : List ℕ) → b ≤ a → HeadLe b xs → HeadLe b (place a xs)
unfolding place
place-HeadLe b a [] h k = h
place-HeadLe b a (x ∷ xs) h k = ground arith

place-IsSorted : (a : ℕ) (xs : List ℕ) → IsSorted xs → IsSorted (place a xs)
unfolding place
place-IsSorted a [] h = (tt, tt)
place-IsSorted a (x ∷ xs) h = ground (arith, place-IsSorted a xs h.1, place-HeadLe x a xs)

pub sort-IsSorted : (xs : List ℕ) → IsSorted (sort xs)
unfolding sort
sort-IsSorted [] = tt
sort-IsSorted (x ∷ xs) = place-IsSorted x (sort xs) (sort-IsSorted xs)

place-perm : (a : ℕ) (xs : List ℕ) → Perm (place a xs) (a ∷ xs)
unfolding place
place-perm a [] = Perm.refl _
place-perm a (x ∷ xs) = elim (Bool-cases (leb a x)) [
  | inl front ↦ rw front (Perm.refl _)
  | inr back ↦ rw back (Perm.trans (Perm.cons x (place-perm a xs)) (Perm.swap a x xs))
]

pub sort-perm : (xs : List ℕ) → Perm (sort xs) xs
unfolding sort
sort-perm [] = Perm.refl _
sort-perm (x ∷ xs) = Perm.trans (place-perm x (sort xs)) (Perm.cons x (sort-perm xs))

place-length : (a : ℕ) (xs : List ℕ) → length (place a xs) ≡ length xs + 1
unfolding place
place-length a [] = omega arith
place-length a (x ∷ xs) = ground (arith, place-length a xs)

pub length-sort : (xs : List ℕ) → length (sort xs) ≡ length xs
unfolding sort
length-sort [] = omega arith
length-sort (x ∷ xs) = omega (arith, place-length x (sort xs), length-sort xs)
