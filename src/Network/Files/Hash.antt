-- ===== src/Network/Files/Hash.antt =====
-- The text of a digest.
use Prim.Native.Nat.{◌/◌}
use Prim.Native.String.{◌++◌ as push_str}
use text.Mathlib.TextLemmas.{append_assoc as push_str_assoc}
use dragoonfly.Base.{
  ℕ, ◌+◌, ◌*◌, ◌%◌, ◌<◌, ◌≡◌, ◌≢◌, ap, ◌∙◌, sym, List, [], ◌∷◌, arith, le→ltb_false, lt→ltb,
}
use dragoonfly.Network.Files.{hex, hex_digit, file_hash_of}

hex-two : (a b : ℕ) → 0 < a → b < 16 → hex (16 * a + b) ≡ push_str (hex_digit a) (hex_digit b)
hex-two a b pos small =
    let high : (16 * a + b) / 16 ≡ a = omega arith in
    let low : (16 * a + b) % 16 ≡ b = omega arith in
    ground (arith, high, low, le→ltb_false 16 (16 * a + b))

hex-one : (a : ℕ) → a < 16 → hex a ≡ hex_digit a
hex-one a small = ground (arith, lt→ltb a 16 small)

abbrev first_byte : List ℕ → ℕ
first_byte [] = 0
first_byte (b ∷ bs) = b

-- A byte below 16 is written as one digit, so that the text of a digest does not determine the digest,
-- and two files may have one file hash: if `a`, `b` and `c` are digits and the first two are not zero,
-- the bytes `0a bc` and `ab 0c` have the same text, before any other bytes.
pub file_hash_of-collides :
    (a b c : ℕ) (bs : List ℕ)
    → 0 < a
    → a < 16
    → 0 < b
    → b < 16
    → c < 16
    → (file_hash_of (a ∷ (16 * b + c) ∷ bs) ≡ file_hash_of ((16 * a + b) ∷ c ∷ bs))
      × (a ∷ (16 * b + c) ∷ bs ≢ (16 * a + b) ∷ c ∷ bs)
unfolding file_hash_of
file_hash_of-collides a b c bs p q r s t =
    let left : push_str (hex a) (push_str (hex (16 * b + c)) (file_hash_of bs))
        ≡ push_str (hex_digit a)
            (push_str (push_str (hex_digit b) (hex_digit c)) (file_hash_of bs)) =
      ground (arith, hex-one a q, hex-two b c r t) in
    let right : push_str (hex (16 * a + b)) (push_str (hex c) (file_hash_of bs))
        ≡ push_str (push_str (hex_digit a) (hex_digit b))
            (push_str (hex_digit c) (file_hash_of bs)) =
      ground (arith, hex-one c t, hex-two a b p s) in
    (
      left
          ∙ ap (push_str (hex_digit a))
              (push_str_assoc (hex_digit b) (hex_digit c) (file_hash_of bs))
          ∙ sym (
              push_str_assoc (hex_digit a) (hex_digit b) (push_str (hex_digit c) (file_hash_of bs)))
          ∙ sym right,
      λ e. omega (arith, ap first_byte e),
    )
