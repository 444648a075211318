-- ===== src/Exchange/Runs.antt =====
-- Calls that succeed: their value and the world that they leave.
use dragoonfly.Base.{
  ℕ, suc, ◌≡◌, refl, ap, ◌∙◌, Bool, true, false, Option, none, some, List, ◌++◌, length, take, drop,
  arith, take-length-append, drop-length-append, length-append,
}
use dragoonfly.Base.Result.{Result, ok, err}
use dragoonfly.Exchange.Codes.{ExchangeCode, block_is_correct, block_is_incorrect}
use mathlib.Core.Option.{some-injective}
use dragoonfly.Exchange.World.{
  World, M, ◌>>=◌, return, or_fail, read_exact, write_all, close, Failure,
}

-- The call succeeds with this value and leaves this world.
pub record Runs {A : Type 0} (m : M A) (w : World) (a : A) (w' : World) : Type 0 where
  pub runs : m w ≡ (ok a, w')

pub then_Runs :
    {A B : Type 0} (m : M A) (f : A → M B) (u v w : World) (a : A) (b : B)
    → Runs m u a v
    → Runs (f a) v b w
    → Runs (m >>= f) u b w
unfolding ◌>>=◌
then_Runs {B = B} m f u v w a b h k = record {
  runs =
      ap
        (λ r.
          let (res, v') = r in
          let next : Result Failure B × World = elim res [ ok x ↦ f x v' | err x ↦ (err x, v') ] in
          next)
        h.runs
      ∙ k.runs;
}

-- A chain whose first call succeeds goes on with the second, and one whose first call fails ends.
pub then_at :
    {A B : Type 0} (m : M A) (f : A → M B) (u v : World) (a : A)
    → Runs m u a v
    → (m >>= f) u ≡ f a v
unfolding ◌>>=◌
then_at {B = B} m f u v a h =
    ap
      (λ r.
        let (res, v') = r in
        let next : Result Failure B × World = elim res [ ok x ↦ f x v' | err x ↦ (err x, v') ] in
        next)
      h.runs

pub then_err :
    {A B : Type 0} (m : M A) (f : A → M B) (u v : World) (e : Failure)
    → m u ≡ (err e, v)
    → (m >>= f) u ≡ (err e, v)
unfolding ◌>>=◌
then_err {B = B} m f u v e h =
    ap
      (λ r.
        let (res, v') = r in
        let next : Result Failure B × World = elim res [ ok x ↦ f x v' | err x ↦ (err x, v') ] in
        next)
      h

pub return-Runs : {A : Type 0} (a : A) (w : World) → Runs (return a) w a w
return-Runs a w = record { runs = refl }

pub or_fail-Runs :
    {A : Type 0} (o : Option A) (e : Failure) (a : A) (w : World)
    → o ≡ some a
    → Runs (or_fail o e) w a w
or_fail-Runs none e a w h = cc
or_fail-Runs (some b) e a w h = record { runs = ap (λ x. (ok x, w)) (some-injective b a h) }

pub read_exact-Runs :
    (w : World) (xs ys : List ℕ) (n : ℕ)
    → length xs ≡ n
    → w.incoming ≡ xs ++ ys
    → Runs (read_exact n) w xs (record w { incoming = ys })
unfolding read_exact
read_exact-Runs w xs ys n e h = record {
  runs = ground (
    arith,
    ap length h,
    length-append xs ys,
    ap (take (length xs)) h,
    take-length-append xs ys,
    ap (drop (length xs)) h,
    drop-length-append xs ys,
  );
}

pub write_all-Runs :
    (w : World) (bs : List ℕ) (k : ℕ)
    → w.writes_left ≡ suc k
    → Runs (write_all bs) w tt (record w { writes_left = k; outgoing = w.outgoing ++ bs })
unfolding write_all
write_all-Runs w bs k e = record { runs = ground arith }

pub close-Runs :
    (w : World) (k : ℕ) → w.writes_left ≡ suc k → Runs close w tt (record w { writes_left = k })
unfolding close
close-Runs w k e = record { runs = ground arith }

abbrev pub verdict : Bool → ExchangeCode
verdict true = block_is_correct
verdict false = block_is_incorrect
