-- ===== src/Serialize/Tests.antt =====
-- A distribution of one send, with peer ids in unary.
use Prim.Native.String.{[] as empty, ◌∷◌ as push_front}
use dragoonfly.Base.{ℕ, zero, suc, ◌≡◌, ◌≢◌, refl, String, Option, some, [], ◌∷◌, arith}
use dragoonfly.Strategy.{send_id}
use dragoonfly.Network.Defs.{Value, distribution}
use dragoonfly.Serialize.Convert.{Texts, convert_ser}
use dragoonfly.Serialize.Read.{as_text, as_distribution, read, read-convert_ser}

abbrev unary : ℕ → String
unary zero = empty
unary (suc n) = push_front "I" (unary n)

abbrev strokes : String → ℕ
strokes empty = 0
strokes (push_front c s) = suc (strokes s)

strokes-unary : (n : ℕ) → ◌≡◌ {A = Option ℕ} (some (strokes (unary n))) (some n)
strokes-unary zero = refl
strokes-unary (suc n) = ground (arith, strokes-unary n)

abbrev unary_texts : Texts
unary_texts = record {
  to_base58 = unary;
  from_base58 = λ s. some (strokes s);
  from_base58-to_base58 = strokes-unary;
  address_text = λ a. "";
  path_text = λ p. "";
  show_number = unary;
}

abbrev one_send : Value
one_send = distribution (send_id 2 ("f", "a") ∷ [])

as_distribution-ne-as_text : as_distribution ≢ as_text
as_distribution-ne-as_text e = cc

read-convert_ser_example :
    read unary_texts as_distribution (convert_ser unary_texts one_send) ≡ some one_send
read-convert_ser_example = read-convert_ser unary_texts one_send as_distribution-ne-as_text
