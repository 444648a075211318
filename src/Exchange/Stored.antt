-- ===== src/Exchange/Stored.antt =====
-- A receiver that has confirmed a block has stored the bytes it read.
use dragoonfly.Base.{
  ℕ, ◌≤◌, ◌≡◌, sym, ap, subst, ◌∙◌, String, some, List, [], ◌∷◌, ◌++◌, length, take, get_elem?, inl,
  inr, arith,
}
use dragoonfly.Base.Result.{ok}
use dragoonfly.Paths.{FilePath, push, get_block_dir}
use dragoonfly.Exchange.Codes.{
  ExchangeCode, accept_block_send, reject_block_send, block_is_correct, block_is_incorrect, to_u8,
}
use dragoonfly.Exchange.World.{
  Env, World, M, ◌>>◌, return, write_all, close, PeerBlockInfo, no_powers,
}
use dragoonfly.Exchange.Receiver.{
  respond_to_send_request, receive_block, check_block, after_answer, send_block_recv_wrapper,
  recv_and_finish,
}
use dragoonfly.Exchange.Mute.{
  Mute, then_Mute, return-Mute, close-Mute, or_fail-Mute, mute_calls, receive_sized-Mute,
  first_hash-Mute, finish-Mute, >>=-cases,
}
use dragoonfly.Exchange.Confirmed.{
  Confirms, muted, IsAnswered, IsAnswered-quiet, ends_Same, or_fail-ok, write_all-cases,
  check_block-stored, receive_sized-ok, first_hash-ok, write_all-ok,
}

-- The receiver has read the sizes, the names and the bytes, and has stored the bytes.
abbrev pub HasStored : FilePath → PeerBlockInfo → List ℕ → World → World → Type 0
HasStored dir info rest w w' =
    (size : ℕ) × (more : List ℕ) × (h : String) × (hs : List String) × (info.block_sizes
      ≡ some (size ∷ more))
    × (info.block_hashes ≡ h ∷ hs)
    × (size ≤ length rest)
    × (w'.disk ≡ (push (get_block_dir dir info.file_hash) h, take size rest) ∷ w.disk)

module _ (env : Env) where
  abbrev on_checked :
      FilePath
      → PeerBlockInfo
      → String
      → List ℕ × env.Block
      → env.Powers
      → M (String × String × String)
  on_checked dir info h (bs, b) powers = do
    check_block env dir info.file_hash h bs (env.verify b powers)
    close
    return (info.file_hash, h, info.peer_id_base_58)

  on_checked-stored :
      (dir : FilePath) (info : PeerBlockInfo) (h : String) (got : List ℕ × env.Block)
      (powers : env.Powers) (w : World)
      → IsAnswered w
      → Confirms (on_checked dir info h got powers w).1
      → (on_checked dir info h got powers w).1.disk
        ≡ (push (get_block_dir dir info.file_hash) h, got.0) ∷ w.disk
  on_checked-stored dir info h (bs, b) powers w a c =
      let m = check_block env dir info.file_hash h bs (env.verify b powers) in
      let same =
        ends_Same m (λ _. close >> return (info.file_hash, h, info.peer_id_base_58)) w
          (λ _. search mute_calls) in
      same.disk
      ∙ check_block-stored env dir info.file_hash h bs (env.verify b powers) w a
          (ap (λ l. get_elem? l 1) (sym same.outgoing) ∙ c)

  receive_block-Mute : (info : PeerBlockInfo) → Mute (receive_block env info)
  unfolding receive_block
  receive_block-Mute info = receive_sized-Mute env info.block_sizes

  receive_block-ok :
      (info : PeerBlockInfo) (w v : World) (a : List ℕ × env.Block)
      → receive_block env info w ≡ (ok a, v)
      → (size : ℕ) × (more : List ℕ) × (info.block_sizes ≡ some (size ∷ more))
        × (size ≤ length w.incoming)
        × (a.0 ≡ take size w.incoming)
  unfolding receive_block
  receive_block-ok info w v a q = receive_sized-ok env info.block_sizes w v a q

  after_answer-stored :
      (code : ExchangeCode) (dir : FilePath) (info : PeerBlockInfo) (w : World)
      → IsAnswered w
      → Confirms (after_answer env code dir info w).1
      → HasStored dir info w.incoming w (after_answer env code dir info w).1
  after_answer-stored reject_block_send dir info w a c =
      let same = (then_Mute close _ close-Mute (λ _. return-Mute _)).mute w in
      absurd (IsAnswered-quiet w a (ap (λ l. get_elem? l 1) (sym same.outgoing) ∙ c))
  after_answer-stored block_is_correct dir info w a c = absurd (IsAnswered-quiet w a c)
  after_answer-stored block_is_incorrect dir info w a c = absurd (IsAnswered-quiet w a c)
  after_answer-stored accept_block_send dir info w a c =
      let (got, v, q, r, s) = muted _ _ w (receive_block-Mute info) (IsAnswered-quiet w a) c in
      let (size, more, sized, enough, bytes) = receive_block-ok info w v got q in
      let a' : IsAnswered v = (a.0, s.outgoing ∙ a.1) in
      let c' = subst (λ x. Confirms x.1) r c in
      let (h, v', q', r', s') =
        muted _ _ v (first_hash-Mute env info.block_hashes) (IsAnswered-quiet v a') c' in
      let (hs, named, same) = first_hash-ok env info.block_hashes v v' h q' in
      let c'' = subst (λ x. Confirms x.1) r' c' in
      let a'' : IsAnswered v' = (a.0, s'.outgoing ∙ a'.1) in
      let (powers, u, k, l, _) =
        muted _ _ v' (or_fail-Mute env.powers no_powers) (IsAnswered-quiet v' a'') c'' in
      let (_, same') = or_fail-ok env.powers no_powers v' u powers k in
      let at = same' ∙ same in
      let c3 = subst (λ x. Confirms x.1) l c'' in
      let stored =
        on_checked-stored dir info h got powers u (subst IsAnswered (sym same') a'') c3 in
      (
        size,
        more,
        h,
        hs,
        sized,
        named,
        enough,
        ap (λ x. x.1.disk) (r ∙ r' ∙ l)
            ∙ stored
            ∙ ap (λ z. (push (get_block_dir dir info.file_hash) h, z) ∷ u.disk) bytes
            ∙ ap (λ z. (push (get_block_dir dir info.file_hash) h, take size w.incoming) ∷ z)
                (ap (λ x. x.disk) at ∙ s.disk),
      )

  wrapper-stored :
      (answer : ExchangeCode) (dir : FilePath) (info : PeerBlockInfo) (w : World)
      → w.outgoing ≡ []
      → Confirms (send_block_recv_wrapper env answer dir info w).1
      → HasStored dir info w.incoming w (send_block_recv_wrapper env answer dir info w).1
  unfolding send_block_recv_wrapper respond_to_send_request
  wrapper-stored answer dir info w none_yet c =
      elim (>>=-cases (write_all (to_u8 answer ∷ [])) (λ _. after_answer env answer dir info) w) [
        | inl (_, v, q, r) ↦
            let (sent, kept, same) = write_all-ok (to_u8 answer ∷ []) w v q in
            let (size, more, h, hs, sized, named, enough, stored) =
              after_answer-stored answer dir info v
                (to_u8 answer, sent ∙ ap (λ l. l ++ to_u8 answer ∷ []) none_yet)
                (subst (λ x. Confirms x.1) r c) in
            (
              size,
              more,
              h,
              hs,
              sized,
              named,
              subst (λ l. size ≤ length l) same enough,
              ap (λ x. x.1.disk) r
                  ∙ stored
                  ∙ ap (λ z. (push (get_block_dir dir info.file_hash) h, take size z) ∷ v.disk) same
                  ∙ ap (λ z. (push (get_block_dir dir info.file_hash) h, take size w.incoming) ∷ z)
                      kept,
            )
        | inr (e, v, q, r) ↦
            let c' : Confirms v = subst (λ x. Confirms x.1) r c in
            elim (write_all-cases (to_u8 answer ∷ []) w) [
              | inl sent ↦ absurd (ground (arith, c', none_yet, sent, q))
              | inr sent ↦ absurd (ground (arith, c', none_yet, sent, q))
            ]
      ]

  pub recv_and_finish-stored :
      (dir : FilePath) (info : PeerBlockInfo) (choice : ExchangeCode × ℕ) (w : World)
      → w.outgoing ≡ []
      → Confirms (recv_and_finish env dir info choice w).1
      → HasStored dir info w.incoming w (recv_and_finish env dir info choice w).1
  unfolding recv_and_finish
  recv_and_finish-stored dir info (answer, change) w none_yet c =
      let end = send_block_recv_wrapper env answer dir info w in
      let same = (finish-Mute env dir change end.0).mute end.1 in
      let (size, more, h, hs, sized, named, enough, stored) =
        wrapper-stored answer dir info w none_yet
          (ap (λ l. get_elem? l 1) (sym same.outgoing) ∙ c) in
      (size, more, h, hs, sized, named, enough, same.disk ∙ stored)
