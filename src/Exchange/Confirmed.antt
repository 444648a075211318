-- ===== src/Exchange/Confirmed.antt =====
-- A receiver that has confirmed a block: what it has read, and what it has stored.
use dragoonfly.Base.{
  ℕ, zero, suc, ◌≤◌, ◌≡◌, refl, sym, ap, subst, ◌∙◌, String, Bool, true, false, Option, none, some,
  List, [], ◌∷◌, ◌++◌, length, leb, take, drop, get_elem?, ◌⊎◌, inl, inr, Bool-cases, arith,
}
use dragoonfly.Base.Result.{ok, err}
use dragoonfly.Paths.{FilePath, push, get_block_dir}
use dragoonfly.Exchange.Codes.{block_is_correct, block_is_incorrect, to_u8}
use dragoonfly.Exchange.World.{
  Env, World, M, ◌>>=◌, return, or_fail, read_exact, write_all, Failure, spend, bad_block,
}
use dragoonfly.Exchange.Receiver.{
  send_block_status, receive_sized, first_hash, store_block, check_block,
}
use dragoonfly.Exchange.Mute.{Same, Mute, >>=-cases}

-- The second byte that was written says that the block is correct.
abbrev pub Confirms : World → Type 0
Confirms w = get_elem? w.outgoing 1 ≡ some (to_u8 block_is_correct)

pub write_all-cases :
    (bytes : List ℕ) (w : World)
    → ((write_all bytes w).1.outgoing ≡ w.outgoing ++ bytes)
      ⊎ ((write_all bytes w).1.outgoing ≡ w.outgoing)
unfolding write_all
write_all-cases bytes w = go w.writes_left
  where
    go :
        (n : ℕ)
        → ((spend w n (λ v. record v { outgoing = v.outgoing ++ bytes })).1.outgoing
            ≡ w.outgoing ++ bytes)
          ⊎ ((spend w n (λ v. record v { outgoing = v.outgoing ++ bytes })).1.outgoing ≡ w.outgoing)
    go zero = inr refl
    go (suc n) = inl refl

pub write_all-ok :
    (bytes : List ℕ) (w v : World)
    → write_all bytes w ≡ (ok tt, v)
    → (v.outgoing ≡ w.outgoing ++ bytes) × (v.disk ≡ w.disk) × (v.incoming ≡ w.incoming)
unfolding write_all
write_all-ok bytes w v h = go w.writes_left h
  where
    go :
        (n : ℕ)
        → spend w n (λ v. record v { outgoing = v.outgoing ++ bytes }) ≡ (ok tt, v)
        → (v.outgoing ≡ w.outgoing ++ bytes) × (v.disk ≡ w.disk) × (v.incoming ≡ w.incoming)
    go zero h = absurd cc
    go (suc n) h =
        (ap (λ x. x.1.outgoing) (sym h), ap (λ x. x.1.disk) (sym h), ap (λ x. x.1.incoming) (sym h))

-- What is left alone by a write.
spend-others :
    (bytes : List ℕ) (w : World) (n : ℕ)
    → ((spend w n (λ v. record v { outgoing = v.outgoing ++ bytes })).1.disk ≡ w.disk)
      × ((spend w n (λ v. record v { outgoing = v.outgoing ++ bytes })).1.incoming ≡ w.incoming)
spend-others bytes w zero = (refl, refl)
spend-others bytes w (suc n) = (refl, refl)

write_all-others :
    (bytes : List ℕ) (w : World)
    → ((write_all bytes w).1.disk ≡ w.disk) × ((write_all bytes w).1.incoming ≡ w.incoming)
unfolding write_all
write_all-others bytes w = spend-others bytes w w.writes_left

pub read_exact-ok :
    (n : ℕ) (w v : World) (a : List ℕ)
    → read_exact n w ≡ (ok a, v)
    → (n ≤ length w.incoming) × (a ≡ take n w.incoming) × (v.incoming ≡ drop n w.incoming)
unfolding read_exact
read_exact-ok n w v a h = elim (Bool-cases (leb n (length w.incoming))) [
  | inl e ↦ (ground arith, ground (arith, e), ground (arith, e))
  | inr e ↦ absurd (ground (arith, e))
]

pub or_fail-ok :
    {A : Type 0} (o : Option A) (e : Failure) (w v : World) (a : A)
    → or_fail o e w ≡ (ok a, v)
    → (o ≡ some a) × (v ≡ w)
or_fail-ok none e w v a h = absurd cc
or_fail-ok (some b) e w v a h = (cc, cc)

-- A chain whose first call writes nothing confirms only if that call succeeds.
pub muted :
    {A B : Type 0} (m : M A) (f : A → M B) (w : World)
    → Mute m
    → ¬ Confirms w
    → Confirms ((m >>= f) w).1
    → (a : A) × (v : World) × (m w ≡ (ok a, v)) × ((m >>= f) w ≡ f a v) × Same w v
muted m f w mute before c = elim (>>=-cases m f w) [
  | inl (a, v, q, r) ↦ (a, v, q, r, subst (λ x. Same w x) (ap (λ x. x.1) q) (mute.mute w))
  | inr (e, v, q, r) ↦
      let same = subst (λ x. Same w x) (ap (λ x. x.1) q) (mute.mute w) in
      absurd (
        before (
          ap (λ l. get_elem? l 1) (sym same.outgoing)
          ∙ ap (λ x. get_elem? x.1.outgoing 1) (sym r)
          ∙ c))
]

-- One byte was written so far: the answer.
abbrev pub IsAnswered : World → Type 0
IsAnswered w = (x : ℕ) × (w.outgoing ≡ x ∷ [])

pub IsAnswered-quiet : (w : World) → IsAnswered w → ¬ Confirms w
IsAnswered-quiet w (x, e) c = absurd (ground (arith, e, c))

module _ (env : Env) where
  store_block-cases :
      (d : FilePath) (h : String) (bs : List ℕ) (w : World)
      → ((store_block env d h bs w).1.outgoing ≡ w.outgoing)
        × (((store_block env d h bs w).1.disk ≡ (push d h, bs) ∷ w.disk)
            ⊎ ((e : Failure) × ((store_block env d h bs w).0 ≡ err e)))
  unfolding store_block
  store_block-cases d h bs w = elim (Bool-cases (env.create_dir_all d)) [
    | inr e ↦ rw e (refl, inr (_, refl))
    | inl e ↦ rw e (elim (Bool-cases (env.write_file (push d h) bs)) [
      | inr k ↦ rw k (refl, inr (_, refl))
      | inl k ↦ rw k (refl, inl refl)
    ])
  ]

  status_incorrect :
      (w : World) → IsAnswered w → ¬ Confirms (send_block_status block_is_incorrect w).1
  unfolding send_block_status to_u8
  status_incorrect w (x, e) c = elim (write_all-cases (to_u8 block_is_incorrect ∷ []) w) [
    | inl q ↦ absurd (ground (arith, e, c, q))
    | inr q ↦ absurd (ground (arith, e, c, q))
  ]

  pub check_block-stored :
      (dir : FilePath) (f h : String) (bs : List ℕ) (o : Option Bool) (w : World)
      → IsAnswered w
      → Confirms (check_block env dir f h bs o w).1
      → (check_block env dir f h bs o w).1.disk ≡ (push (get_block_dir dir f) h, bs) ∷ w.disk
  unfolding send_block_status
  check_block-stored dir f h bs none w a c = absurd (IsAnswered-quiet w a c)
  check_block-stored dir f h bs (some false) w a c = absurd (status_incorrect w a c)
  check_block-stored dir f h bs (some true) w a c =
      let d = get_block_dir dir f in
      let (same, stored) = store_block-cases d h bs w in
      elim (>>=-cases (store_block env d h bs) (λ _. send_block_status block_is_correct) w) [
        | inr (e, v, q, r) ↦ absurd (
            IsAnswered-quiet w a (
              ap (λ l. get_elem? l 1) (sym same)
              ∙ ap (λ x. get_elem? x.1.outgoing 1) q
              ∙ ap (λ x. get_elem? x.1.outgoing 1) (sym r)
              ∙ c))
        | inl (x, v, q, r) ↦ elim stored [
          | inr (e, bad) ↦ absurd (ground (arith, bad, q))
          | inl good ↦
              ap (λ x. x.1.disk) r
              ∙ (write_all-others (to_u8 block_is_correct ∷ []) v).0
              ∙ ap (λ x. x.1.disk) (sym q)
              ∙ good
        ]
      ]

  pub receive_sized-ok :
      (sizes : Option (List ℕ)) (w v : World) (a : List ℕ × env.Block)
      → receive_sized env sizes w ≡ (ok a, v)
      → (size : ℕ) × (more : List ℕ) × (sizes ≡ some (size ∷ more))
        × (size ≤ length w.incoming)
        × (a.0 ≡ take size w.incoming)
  receive_sized-ok none w v a q = absurd cc
  receive_sized-ok (some []) w v a q = absurd cc
  receive_sized-ok (some (size ∷ more)) w v a q = elim (>>=-cases (read_exact size) parse w) [
    | inr (e, u, k, r) ↦ absurd (ground (arith, q, r))
    | inl (bytes, u, k, r) ↦
        elim (>>=-cases (or_fail (env.deserialize bytes) bad_block) (give bytes) u) [
          | inr (e, u', k', r') ↦ absurd (ground (arith, q, r, r'))
          | inl (b, u', k', r') ↦
              let (enough, same, _) = read_exact-ok size w u bytes k in
              (size, more, refl, enough, ground (arith, q, r, r', same))
        ]
  ]
    where
      give : List ℕ → env.Block → M (List ℕ × env.Block)
      give bytes b = return (bytes, b)

      parse : List ℕ → M (List ℕ × env.Block)
      parse bytes = or_fail (env.deserialize bytes) bad_block >>= give bytes

  pub first_hash-ok :
      (hs : List String) (w v : World) (h : String)
      → first_hash env hs w ≡ (ok h, v)
      → (more : List String) × (hs ≡ h ∷ more) × (v ≡ w)
  first_hash-ok [] w v h q = absurd cc
  first_hash-ok (x ∷ xs) w v h q = (xs, cc, cc)

pub ends_Same :
    {A B : Type 0} (m : M A) (f : A → M B) (w : World)
    → ((a : A) → Mute (f a))
    → Same (m w).1 ((m >>= f) w).1
ends_Same m f w mute = elim (>>=-cases m f w) [
  | inl (a, v, q, r) ↦
      subst (λ x. Same x ((m >>= f) w).1) (ap (λ x. x.1) (sym q))
        (subst (λ x. Same v x) (ap (λ x. x.1) (sym r)) ((mute a).mute v))
  | inr (e, v, q, r) ↦ record { outgoing = ground (arith, q, r); disk = ground (arith, q, r) }
]
