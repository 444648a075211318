-- ===== src/Exchange/Frame.antt =====
-- The length that goes before a peer block info: `usize::to_be_bytes`, on a machine of 64 bits.
use native.Mathlib.Nat.{pow-suc}
use dragoonfly.Base.{
  ℕ, zero, suc, ◌+◌, ◌*◌, ◌/◌, ◌%◌, ◌^◌, ◌<◌, ◌≡◌, refl, ◌∙◌, List, [], ◌∷◌, ◌++◌, length, arith,
  length-append,
}

abbrev pub usize_bytes : ℕ
usize_bytes = 8

-- The k low bytes of a number, the highest first.
unfoldable pub be_bytes : ℕ → ℕ → List ℕ
be_bytes zero n = []
be_bytes (suc k) n = be_bytes k (n / 256) ++ (n % 256) ∷ []

unfoldable pub to_be_bytes : ℕ → List ℕ
unfolding be_bytes
to_be_bytes n = be_bytes usize_bytes n

unfoldable pub fold_bytes : ℕ → List ℕ → ℕ
fold_bytes acc [] = acc
fold_bytes acc (b ∷ bs) = fold_bytes (acc * 256 + b) bs

unfoldable pub from_be_bytes : List ℕ → ℕ
unfolding fold_bytes
from_be_bytes bs = fold_bytes 0 bs

length-be_bytes : (k n : ℕ) → length (be_bytes k n) ≡ k
unfolding be_bytes
length-be_bytes zero n = refl
length-be_bytes (suc k) n =
    omega
      (arith, length-append (be_bytes k (n / 256)) ((n % 256) ∷ []), length-be_bytes k (n / 256))

pub length-to_be_bytes : (n : ℕ) → length (to_be_bytes n) ≡ usize_bytes
unfolding to_be_bytes
length-to_be_bytes n = length-be_bytes usize_bytes n

fold_bytes-append :
    (acc : ℕ) (xs ys : List ℕ) → fold_bytes acc (xs ++ ys) ≡ fold_bytes (fold_bytes acc xs) ys
unfolding fold_bytes
fold_bytes-append acc [] ys = refl
fold_bytes-append acc (x ∷ xs) ys = fold_bytes-append (acc * 256 + x) xs ys

fold_bytes-be_bytes : (k n : ℕ) → n < 256 ^ k → fold_bytes 0 (be_bytes k n) ≡ n
unfolding be_bytes fold_bytes
fold_bytes-be_bytes zero n h = omega arith
fold_bytes-be_bytes (suc k) n h =
    let small : n / 256 < 256 ^ k = omega (arith, h, pow-suc 256 k) in
    fold_bytes-append 0 (be_bytes k (n / 256)) ((n % 256) ∷ [])
    ∙ omega (arith, fold_bytes-be_bytes k (n / 256) small)

-- A length that fits a usize is read back from its bytes.
pub from_be_bytes-to_be_bytes : (n : ℕ) → n < 2 ^ 64 → from_be_bytes (to_be_bytes n) ≡ n
unfolding from_be_bytes to_be_bytes
from_be_bytes-to_be_bytes n h = fold_bytes-be_bytes 8 n h
