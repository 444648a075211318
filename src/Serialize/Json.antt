-- ===== src/Serialize/Json.antt =====
-- The values that serde_json writes.
use dragoonfly.Base.{ℕ, String, Bool, Option, none, some, List, [], ◌∷◌}

mutual
  pub data Json : Type 0 where
    null : Json
    text : String → Json
    number : ℕ → Json
    boolean : Bool → Json
    array : Elements → Json
    object : Fields → Json

  pub data Elements : Type 0 where
    nil : Elements
    element : Json → Elements → Elements

  pub data Fields : Type 0 where
    no_field : Fields
    field : String → Json → Fields → Fields

-- The array of a vector.
abbrev pub elements {ℓ} : {A : Type ℓ} → (A → Json) → List A → Elements
elements f [] = nil
elements f (x ∷ xs) = element (f x) (elements f xs)

-- The vector of an array, if each element reads.
abbrev pub prepend {ℓ} : {A : Type ℓ} → Option A → Option (List A) → Option (List A)
prepend none xs = none
prepend (some x) none = none
prepend (some x) (some xs) = some (x ∷ xs)

abbrev pub read_elements {ℓ} : {A : Type ℓ} → (Json → Option A) → Elements → Option (List A)
read_elements f nil = some []
read_elements f (element j js) = prepend (f j) (read_elements f js)
