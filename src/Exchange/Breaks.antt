-- ===== src/Exchange/Breaks.antt =====
-- The end of an exchange whose connection breaks once the block is on the receiver's disk.
use dragoonfly.Base.{
  ℕ, zero, suc, ◌+◌, ◌%◌, ◌≡◌, refl, sym, subst, ap, ◌∙◌, String, Bool, true, false, Option, some,
  List, [], ◌∷◌, ◌++◌, length, if◌then◌else◌,
}
use dragoonfly.Base.Result.{err}
use dragoonfly.Paths.{FilePath, push, get_block_dir}
use dragoonfly.Exchange.Codes.{accept_block_send, block_is_correct, to_u8}
use dragoonfly.Exchange.World.{
  Env, World, M, ◌>>=◌, ◌>>◌, return, PeerBlockInfo, Failure, stream_broken, write_all, close,
  or_fail, no_powers, spend, fetch_add, fail, usize_mod,
}
use dragoonfly.Exchange.Receiver.{
  respond_to_send_request, send_block_status, receive_block, store_block, send_block_recv_wrapper,
  finish, recv_and_finish, check_block, after_answer, first_hash,
}
use dragoonfly.Exchange.Runs.{Runs, then_at, then_err, return-Runs, or_fail-Runs, write_all-Runs}
use dragoonfly.Exchange.Session.{receive-Runs, store-Runs, checked-Runs}
use dragoonfly.Exchange.Mute.{finish-Mute}

write_all-breaks :
    (bs : List ℕ) (w : World) → w.writes_left ≡ 0 → write_all bs w ≡ (err stream_broken, w)
unfolding write_all
write_all-breaks bs w h = ap (λ n. spend w n (λ v. record v { outgoing = v.outgoing ++ bs })) h

close-breaks : (w : World) → w.writes_left ≡ 0 → close w ≡ (err stream_broken, w)
unfolding close
close-breaks w h = ap (λ n. spend w n (λ v. v)) h

close_fails :
    {A : Type 0} (e : Failure) (w : World)
    → (e' : Failure) × (((close >> fail {A = A} e) w).0 ≡ err e')
unfolding close ◌>>=◌
close_fails {A} e w = go w.writes_left
  where
    go :
        (n : ℕ)
        → (e' : Failure) × ((((λ v. spend v n (λ x. x)) >>= λ _. fail {A = A} e) w).0 ≡ err e')
    go zero = (stream_broken, refl)
    go (suc n) = (e, refl)

finish_fails :
    (env : Env) (dir : FilePath) (n : ℕ) (e : Failure) (w : World)
    → (e' : Failure) × ((finish env dir n (err e) w).0 ≡ err e')
unfolding finish fetch_add ◌>>=◌
finish_fails env dir n e w =
    close_fails e (record w { available_storage = (w.available_storage + n) % usize_mod })

-- The calls that the connection still carries once the answer is sent: none, or the status.
abbrev pub left : Bool → ℕ
left status_sent = if status_sent then 1 else 0

module _ (env : Env) (dir : FilePath) (info : PeerBlockInfo) (content : List ℕ) (hash : String)
    (block : env.Block) (powers : env.Powers) (status_sent : Bool)
    (sized : info.block_sizes ≡ some (length content ∷ [])) (named : info.block_hashes ≡ hash ∷ [])
    (parsed : env.deserialize content ≡ some block) (has_powers : env.powers ≡ some powers)
    (checked : env.verify block powers ≡ some true)
    (makes_dir : env.create_dir_all (get_block_dir dir info.file_hash) ≡ true)
    (writes : env.write_file (push (get_block_dir dir info.file_hash) hash) content ≡ true) where
  abbrev pub stored : World → World
  stored w = record w { disk = (push (get_block_dir dir info.file_hash) hash, content) ∷ w.disk }

  abbrev names : String × String × String
  names = (info.file_hash, hash, info.peer_id_base_58)

  abbrev ending : Option Bool → M (String × String × String)
  ending o = do check_block env dir info.file_hash hash content o; close; return names

  stores :
      (w : World)
      → Runs (store_block env (get_block_dir dir info.file_hash) hash content) w tt (stored w)
  stores w =
      store-Runs env dir info content hash block powers true 0 sized named parsed has_powers checked
        makes_dir writes w

  -- The check fails at the status, or the close after it fails.
  end_breaks :
      (b : Bool) (w : World)
      → w.writes_left ≡ left b
      → (v : World) × (ending (some true) w ≡ (err stream_broken, v)) × (v.disk ≡ (stored w).disk)
  unfolding send_block_status
  end_breaks false w h = (
    stored w,
    then_err (check_block env dir info.file_hash hash content (some true))
        (λ _. close >> return names) w (stored w) stream_broken
        (then_at (store_block env (get_block_dir dir info.file_hash) hash content)
            (λ _. send_block_status block_is_correct) w (stored w) tt (stores w)
          ∙ write_all-breaks (to_u8 block_is_correct ∷ []) (stored w) h),
    refl,
  )
  end_breaks true w h =
      let v : World = record w {
        outgoing = w.outgoing ++ to_u8 block_is_correct ∷ [];
        writes_left = 0;
        disk = (push (get_block_dir dir info.file_hash) hash, content) ∷ w.disk;
      } in
      (
        v,
        then_at (check_block env dir info.file_hash hash content (some true))
              (λ _. close >> return names) w v tt
              (checked-Runs env dir info content hash block powers true 0 sized named parsed
                has_powers checked makes_dir writes (some true) w 0 true refl h)
            ∙ then_err close (λ _. return names) v v stream_broken (close-breaks v refl),
        refl,
      )

  wrapper_breaks :
      (w : World)
      → w.incoming ≡ content ++ []
      → w.writes_left ≡ suc (left status_sent)
      → (v : World) × (send_block_recv_wrapper env accept_block_send dir info w
          ≡ (err stream_broken, v))
        × (v.disk ≡ (stored w).disk)
  unfolding send_block_recv_wrapper respond_to_send_request
  wrapper_breaks w i l =
      let answered : World = record w {
        writes_left = left status_sent;
        outgoing = w.outgoing ++ to_u8 accept_block_send ∷ [];
      } in
      let got : World = record answered { incoming = [] } in
      let (v, ends, disk) = end_breaks status_sent got refl in
      (
        v,
        then_at (write_all (to_u8 accept_block_send ∷ []))
              (λ _. after_answer env accept_block_send dir info) w answered tt
              (write_all-Runs w _ (left status_sent) l)
            ∙ then_at (receive_block env info) named_block answered got (content, block)
                (receive-Runs env dir info content hash block powers true 0 sized named parsed
                  has_powers checked makes_dir writes answered i)
            ∙ then_at (first_hash env info.block_hashes) (with_powers content block) got got hash (
                subst (λ z. Runs (first_hash env z) got hash got) (sym named)
                  (return-Runs hash got))
            ∙ then_at (or_fail env.powers no_powers) (λ ps. check content block hash ps) got got
                powers (or_fail-Runs _ _ powers got has_powers)
            ∙ ap (λ o. ending o got) checked
            ∙ ends,
        disk,
      )
    where
      check : List ℕ → env.Block → String → env.Powers → M (String × String × String)
      check bytes b h ps = do
        check_block env dir info.file_hash h bytes (env.verify b ps)
        close
        return (info.file_hash, h, info.peer_id_base_58)

      with_powers : List ℕ → env.Block → String → M (String × String × String)
      with_powers bytes b h = or_fail env.powers no_powers >>= λ ps. check bytes b h ps

      named_block : List ℕ × env.Block → M (String × String × String)
      named_block (bytes, b) = first_hash env info.block_hashes >>= λ h. with_powers bytes b h

  pub finish_breaks :
      (w : World)
      → w.incoming ≡ content ++ []
      → w.writes_left ≡ suc (left status_sent)
      → (e : Failure) × ((recv_and_finish env dir info (accept_block_send, length content) w).0
          ≡ err e)
        × ((recv_and_finish env dir info (accept_block_send, length content) w).1.disk
            ≡ (stored w).disk)
  unfolding recv_and_finish
  finish_breaks w i l =
      let (v, ends, disk) = wrapper_breaks w i l in
      let (e, fails) = finish_fails env dir (length content) stream_broken v in
      let same = ap (λ r. finish env dir (length content) r.0 r.1) ends in
      (
        e,
        ap (λ r. r.0) same ∙ fails,
        ap (λ r. r.1.disk) same
            ∙ ((finish-Mute env dir (length content) (err stream_broken)).mute v).disk
            ∙ disk,
      )
