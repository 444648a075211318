-- ===== src/Exchange/Quiet.antt =====
-- The calls of the receiver that leave the storage counter and the messages alone.
use dragoonfly.Base.{
  ℕ, zero, suc, ◌≡◌, refl, ◌∙◌, String, Bool, true, false, Option, none, some, List, [], ◌∷◌,
  length, leb, inl, inr, Bool-cases,
}
use dragoonfly.Paths.{FilePath, push}
use dragoonfly.Exchange.Codes.{
  ExchangeCode, accept_block_send, reject_block_send, block_is_correct, block_is_incorrect,
}
use dragoonfly.Exchange.World.{
  Env, World, M, ◌>>=◌, return, fail, or_fail, read_exact, write_all, close, bind_post, Failure,
  PeerBlockInfo, spend, no_powers,
}
use dragoonfly.Exchange.Receiver.{
  respond_to_send_request, send_block_status, receive_block, store_block, send_block_recv_wrapper,
  after_answer, check_block, receive_sized, first_hash,
}

-- The call leaves the storage counter and the messages alone, whatever it returns.
pub record Keeps (w w' : World) : Type 0 where
  pub storage : w'.available_storage ≡ w.available_storage
  pub infos : w'.send_file_infos ≡ w.send_file_infos

pub Keeps-refl : (w : World) → Keeps w w
Keeps-refl w = record { storage = refl; infos = refl }

pub Keeps-trans : (u v w : World) → Keeps u v → Keeps v w → Keeps u w
Keeps-trans u v w h k = record { storage = k.storage ∙ h.storage; infos = k.infos ∙ h.infos }

-- No path through the call touches either.
pub record Quiet {A : Type 0} (m : M A) : Type 0 where
  pub quiet : (w : World) → Keeps w (m w).1

pub then_Quiet :
    {A B : Type 0} (m : M A) (f : A → M B) → Quiet m → ((a : A) → Quiet (f a)) → Quiet (m >>= f)
then_Quiet m f hm hf = record {
  quiet = bind_post Keeps Keeps-trans m f hm.quiet (λ a. (hf a).quiet);
}

return-Quiet : {A : Type 0} (a : A) → Quiet (return a)
return-Quiet a = record { quiet = Keeps-refl }

pub fail-Quiet : {A : Type 0} (e : Failure) → Quiet {A = A} (fail e)
fail-Quiet e = record { quiet = Keeps-refl }

spend-Keeps :
    (w : World) (n : ℕ) (f : World → World)
    → ((v : World) → Keeps v (f v))
    → Keeps w (spend w n f).1
spend-Keeps w zero f h = Keeps-refl w
spend-Keeps w (suc n) f h =
    Keeps-trans w (record w { writes_left = n }) _ (record { storage = refl; infos = refl }) (h _)

pub write_all-Quiet : (bs : List ℕ) → Quiet (write_all bs)
unfolding write_all
write_all-Quiet bs = record {
  quiet = λ w. spend-Keeps w w.writes_left _ (λ v. record { storage = refl; infos = refl });
}

pub close-Quiet : Quiet close
unfolding close
close-Quiet = record { quiet = λ w. spend-Keeps w w.writes_left _ Keeps-refl }

pub read_exact-Quiet : (n : ℕ) → Quiet (read_exact n)
unfolding read_exact
read_exact-Quiet n = record {
  quiet = λ w. elim (Bool-cases (leb n (length w.incoming))) [
    | inl e ↦ rw e (record { storage = refl; infos = refl })
    | inr e ↦ rw e (record { storage = refl; infos = refl })
  ];
}

pub or_fail-Quiet : {A : Type 0} (o : Option A) (e : Failure) → Quiet (or_fail o e)
or_fail-Quiet none e = record { quiet = Keeps-refl }
or_fail-Quiet (some a) e = record { quiet = Keeps-refl }

ruleset quiet_calls = (
  then_Quiet, return-Quiet, fail-Quiet, write_all-Quiet, close-Quiet, read_exact-Quiet,
  or_fail-Quiet,
)

module _ (env : Env) where
  store_block-Quiet : (dir : FilePath) (h : String) (bs : List ℕ) → Quiet (store_block env dir h bs)
  unfolding store_block
  store_block-Quiet dir h bs = record {
    quiet = λ w. elim (Bool-cases (env.create_dir_all dir)) [
      | inr e ↦ rw e (Keeps-refl w)
      | inl e ↦ rw e (elim (Bool-cases (env.write_file (push dir h) bs)) [
        | inr k ↦ rw k (Keeps-refl w)
        | inl k ↦ rw k (record { storage = refl; infos = refl })
      ])
    ];
  }

  check_block-Quiet :
      (dir : FilePath) (f h : String) (bs : List ℕ) (o : Option Bool)
      → Quiet (check_block env dir f h bs o)
  unfolding send_block_status
  check_block-Quiet dir f h bs (some true) =
      then_Quiet _ _ (store_block-Quiet _ h bs) (λ _. write_all-Quiet _)
  check_block-Quiet dir f h bs (some false) = write_all-Quiet _
  check_block-Quiet dir f h bs none = fail-Quiet _

  receive_sized-Quiet : (sizes : Option (List ℕ)) → Quiet (receive_sized env sizes)
  receive_sized-Quiet (some (n ∷ ns)) = search quiet_calls
  receive_sized-Quiet (some []) = fail-Quiet _
  receive_sized-Quiet none = fail-Quiet _

  first_hash-Quiet : (hs : List String) → Quiet (first_hash env hs)
  first_hash-Quiet [] = fail-Quiet _
  first_hash-Quiet (h ∷ hs) = return-Quiet h

  after_answer-Quiet :
      (c : ExchangeCode) (dir : FilePath) (info : PeerBlockInfo)
      → Quiet (after_answer env c dir info)
  unfolding receive_block
  after_answer-Quiet accept_block_send dir info =
      then_Quiet _ _ (receive_sized-Quiet info.block_sizes) λ got.
        then_Quiet _ _ (first_hash-Quiet info.block_hashes) λ h.
          then_Quiet _ _ (or_fail-Quiet env.powers no_powers) λ p.
            then_Quiet _ _ (check_block-Quiet dir info.file_hash h got.0 (env.verify got.1 p))
              λ _. then_Quiet _ _ close-Quiet λ _. return-Quiet _
  after_answer-Quiet reject_block_send dir info = search quiet_calls
  after_answer-Quiet block_is_correct dir info = fail-Quiet _
  after_answer-Quiet block_is_incorrect dir info = fail-Quiet _

  pub send_block_recv_wrapper-Quiet :
      (c : ExchangeCode) (dir : FilePath) (info : PeerBlockInfo)
      → Quiet (send_block_recv_wrapper env c dir info)
  unfolding send_block_recv_wrapper respond_to_send_request
  send_block_recv_wrapper-Quiet c dir info =
      then_Quiet _ _ (write_all-Quiet _) (λ _. after_answer-Quiet c dir info)
