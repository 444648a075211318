-- ===== src/Network/Table.antt =====
-- `HashMap`, as a list of entries with at most one for each key.
use dragoonfly.Base.{
  ℕ, ◌+◌, ◌≡◌, refl, false, Option, none, some, List, [], ◌∷◌, ◌++◌, PartialEq, ◌==◌, if◌then◌else◌,
  arith, nat_eq,
}
use dragoonfly.SendList.Vectors.{count}

module _ {ℓ κ} {K : Type ℓ} {V : Type κ} ⦃e : PartialEq K⦄ where
  -- `get`
  abbrev pub lookup : K → List (K × V) → Option V
  lookup k [] = none
  lookup k ((j, v) ∷ t) = if j == k then some v else lookup k t

  -- The table that `remove` leaves.
  abbrev pub erase : K → List (K × V) → List (K × V)
  erase k [] = []
  erase k ((j, v) ∷ t) = if j == k then t else (j, v) ∷ erase k t

  -- The table that `insert` leaves: an entry with the same key is replaced.
  abbrev pub put : K → V → List (K × V) → List (K × V)
  put k v t = (k, v) ∷ erase k t

  pub lookup-erase_ne :
      (j k : K) (t : List (K × V)) → (j == k) ≡ false → lookup k (erase j t) ≡ lookup k t
  lookup-erase_ne j k [] h = refl
  lookup-erase_ne j k ((i, v) ∷ t) h =
      ground (arith, lookup-erase_ne j k t, e.eq_iff i j, e.eq_iff i k)

-- Tables whose entries each hold a channel to answer on.
abbrev pub in_entry {κ} : {V : Type κ} → (V → ℕ) → ℕ → Option V → ℕ
in_entry channel c none = 0
in_entry channel c (some v) = if channel v == c then 1 else 0

abbrev pub channels {ℓ κ} : {K : Type ℓ} {V : Type κ} → (V → ℕ) → List (K × V) → List ℕ
channels channel [] = []
channels channel ((j, v) ∷ t) = channel v ∷ channels channel t

pub count-channels-append {ℓ κ} :
    {K : Type ℓ} {V : Type κ} (channel : V → ℕ) (c : ℕ) (s t : List (K × V))
    → count c (channels channel (s ++ t))
      ≡ count c (channels channel s) + count c (channels channel t)
count-channels-append channel c [] t = omega arith
count-channels-append channel c ((j, v) ∷ s) t = omega (arith, count-channels-append channel c s t)

module _ {ℓ κ} {K : Type ℓ} {V : Type κ} ⦃e : PartialEq K⦄ (channel : V → ℕ) where
  pub count-erase :
      (c : ℕ) (k : K) (t : List (K × V))
      → count c (channels channel t)
        ≡ in_entry channel c (lookup k t) + count c (channels channel (erase k t))
  count-erase c k [] = omega arith
  count-erase c k ((j, v) ∷ t) = ground (arith, count-erase c k t)
