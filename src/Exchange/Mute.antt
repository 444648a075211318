-- ===== src/Exchange/Mute.antt =====
-- The calls that write nothing to the stream and nothing to the disk, and how a chain of calls is taken
-- apart.
use dragoonfly.Base.{
  ℕ, zero, suc, ◌≡◌, refl, ap, ◌∙◌, String, Option, none, some, List, [], ◌∷◌, length, leb, ◌⊎◌,
  inl, inr, Bool-cases,
}
use dragoonfly.Base.Result.{Result, ok, err}
use dragoonfly.Paths.{FilePath}
use dragoonfly.Exchange.World.{
  Env, World, M, ◌>>=◌, return, fail, or_fail, read_exact, close, fetch_add, bind_post, Failure,
  spend,
}
use dragoonfly.Exchange.Receiver.{receive_sized, first_hash, finish}

pub record Same (w w' : World) : Type 0 where
  pub outgoing : w'.outgoing ≡ w.outgoing
  pub disk : w'.disk ≡ w.disk

Same-refl : (w : World) → Same w w
Same-refl w = record { outgoing = refl; disk = refl }

Same-trans : (u v w : World) → Same u v → Same v w → Same u w
Same-trans u v w h k = record { outgoing = k.outgoing ∙ h.outgoing; disk = k.disk ∙ h.disk }

pub record Mute {A : Type 0} (m : M A) : Type 0 where
  pub mute : (w : World) → Same w (m w).1

pub then_Mute :
    {A B : Type 0} (m : M A) (f : A → M B) → Mute m → ((a : A) → Mute (f a)) → Mute (m >>= f)
then_Mute m f hm hf = record { mute = bind_post Same Same-trans m f hm.mute (λ a. (hf a).mute) }

pub return-Mute : {A : Type 0} (a : A) → Mute (return a)
return-Mute a = record { mute = Same-refl }

pub fail-Mute : {A : Type 0} (e : Failure) → Mute {A = A} (fail e)
fail-Mute e = record { mute = Same-refl }

spend-Same : (w : World) (n : ℕ) → Same w (spend w n (λ v. v)).1
spend-Same w zero = Same-refl w
spend-Same w (suc n) = record { outgoing = refl; disk = refl }

pub close-Mute : Mute close
unfolding close
close-Mute = record { mute = λ w. spend-Same w w.writes_left }

pub fetch_add-Mute : (n : ℕ) → Mute (fetch_add n)
unfolding fetch_add
fetch_add-Mute n = record { mute = λ w. record { outgoing = refl; disk = refl } }

pub read_exact-Mute : (n : ℕ) → Mute (read_exact n)
unfolding read_exact
read_exact-Mute n = record {
  mute = λ w. elim (Bool-cases (leb n (length w.incoming))) [
    | inl e ↦ rw e (record { outgoing = refl; disk = refl })
    | inr e ↦ rw e (record { outgoing = refl; disk = refl })
  ];
}

pub or_fail-Mute : {A : Type 0} (o : Option A) (e : Failure) → Mute (or_fail o e)
or_fail-Mute none e = record { mute = Same-refl }
or_fail-Mute (some a) e = record { mute = Same-refl }

pub ruleset mute_calls =
    (then_Mute, return-Mute, fail-Mute, close-Mute, fetch_add-Mute, read_exact-Mute, or_fail-Mute)

module _ (env : Env) where
  pub receive_sized-Mute : (sizes : Option (List ℕ)) → Mute (receive_sized env sizes)
  receive_sized-Mute (some (n ∷ ns)) = search mute_calls
  receive_sized-Mute (some []) = fail-Mute _
  receive_sized-Mute none = fail-Mute _

  pub first_hash-Mute : (hs : List String) → Mute (first_hash env hs)
  first_hash-Mute [] = fail-Mute _
  first_hash-Mute (h ∷ hs) = return-Mute h

  pub finish-Mute :
      (dir : FilePath) (n : ℕ) (res : Result Failure (String × String × String))
      → Mute (finish env dir n res)
  unfolding finish
  finish-Mute dir n (err e) = search mute_calls
  finish-Mute dir n (ok (f, h, p)) = elim (Bool-cases env.channel_open) [
    | inl o ↦ rw o (record { mute = λ w. record { outgoing = refl; disk = refl } })
    | inr o ↦ rw o (search mute_calls)
  ]

-- A chain either goes on after its first call or ends with it.
pub >>=-cases :
    {A B : Type 0} (m : M A) (f : A → M B) (w : World)
    → ((a : A) × (v : World) × (m w ≡ (ok a, v)) × ((m >>= f) w ≡ f a v))
      ⊎ ((e : Failure) × (v : World) × (m w ≡ (err e, v)) × ((m >>= f) w ≡ (err e, v)))
unfolding ◌>>=◌
>>=-cases {A} {B} m f w = go (m w) refl
  where
    next : Result Failure A × World → Result Failure B × World
    next r = let (res, v) = r in elim res [ ok a ↦ f a v | err e ↦ (err e, v) ]

    go :
        (r : Result Failure A × World)
        → m w ≡ r
        → ((a : A) × (v : World) × (m w ≡ (ok a, v)) × ((m >>= f) w ≡ f a v))
          ⊎ ((e : Failure) × (v : World) × (m w ≡ (err e, v)) × ((m >>= f) w ≡ (err e, v)))
    go (ok a, v) q = inl (a, v, q, ap next q)
    go (err e, v) q = inr (e, v, q, ap next q)
