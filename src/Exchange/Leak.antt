-- ===== src/Exchange/Leak.antt =====
-- A receiver whose connection breaks once the block is on its disk.
use dragoonfly.Base.{
  ℕ, suc, ◌-◌, ◌<◌, ◌≤◌, ◌≡◌, refl, ap, ◌∙◌, String, Bool, true, inl, inr, some, List, [], ◌∷◌,
  ◌++◌, length, le→ltb_false, arith,
}
use dragoonfly.Base.Result.{Result, ok, err}
use dragoonfly.Paths.{FilePath, push, get_block_dir}
use dragoonfly.Exchange.Codes.{accept_block_send}
use dragoonfly.Exchange.Frame.{
  from_be_bytes, to_be_bytes, usize_bytes, length-to_be_bytes, from_be_bytes-to_be_bytes,
}
use dragoonfly.Exchange.World.{
  Env, World, M, ◌>>=◌, PeerBlockInfo, Failure, read_exact, or_fail, bad_info, usize_mod,
}
use dragoonfly.Exchange.Receiver.{
  choose_response_to_send_request, recv_and_finish, recv_side, on_size, max_pbi_size,
}
use dragoonfly.Exchange.Runs.{then_at, or_fail-Runs, read_exact-Runs}
use dragoonfly.Exchange.Session.{chosen-Runs}
use dragoonfly.Exchange.Quiet.{Keeps}
use dragoonfly.Exchange.Accounting.{Accounted, recv_side-Accounted}
use dragoonfly.Exchange.Breaks.{left, finish_breaks}

module _ (env : Env) (dir : FilePath) (info : PeerBlockInfo) (content : List ℕ) (hash : String)
    (block : env.Block) (powers : env.Powers) (status_sent : Bool)
    (sized : info.block_sizes ≡ some (length content ∷ [])) (named : info.block_hashes ≡ hash ∷ [])
    (parsed : env.deserialize content ≡ some block) (has_powers : env.powers ≡ some powers)
    (checked : env.verify block powers ≡ some true)
    (makes_dir : env.create_dir_all (get_block_dir dir info.file_hash) ≡ true)
    (writes : env.write_file (push (get_block_dir dir info.file_hash) hash) content ≡ true) where
  -- What is left to do for an info that is read and accepted.
  recv_side-accepts :
      (w : World) (frame : List ℕ)
      → env.from_slice frame ≡ some info
      → length frame ≤ max_pbi_size
      → w.incoming ≡ to_be_bytes (length frame) ++ (frame ++ (content ++ []))
      → length content < w.available_storage
      → recv_side env dir w
        ≡ recv_and_finish env dir info
            (accept_block_send, length content)
            (record w {
              incoming = content ++ [];
              available_storage = w.available_storage - length content;
            })
  unfolding recv_side
  recv_side-accepts w frame law small i room =
      let v : World = record w { incoming = frame ++ (content ++ []) } in
      let u : World = record w { incoming = content ++ [] } in
      let framed = to_be_bytes (length frame) in
      then_at (read_exact usize_bytes) (λ bytes. on_size env dir (from_be_bytes bytes)) w v framed
        (read_exact-Runs w framed (frame ++ (content ++ [])) usize_bytes
          (length-to_be_bytes (length frame)) i)
      ∙ ap (λ n. on_size env dir n v)
          (from_be_bytes-to_be_bytes (length frame) (omega (arith, small)))
      ∙ rw (le→ltb_false (length frame) max_pbi_size small) refl
      ∙ then_at (read_exact (length frame)) read_info v u frame
          (read_exact-Runs v frame (content ++ []) (length frame) refl refl)
      ∙ then_at (or_fail (env.from_slice frame) bad_info) chosen u u info
          (or_fail-Runs _ _ info u law)
      ∙ then_at (choose_response_to_send_request info) (λ c. recv_and_finish env dir info c) u _
          (accept_block_send, length content)
          (chosen-Runs env dir info content hash block powers true 0 sized named parsed has_powers
            checked makes_dir writes u room)
    where
      chosen : PeerBlockInfo → M (Unit {0})
      chosen i = choose_response_to_send_request i >>= λ c. recv_and_finish env dir i c

      read_info : List ℕ → M (Unit {0})
      read_info bytes = or_fail (env.from_slice bytes) bad_info >>= chosen

  failed-Keeps :
      (w : World) (r : Result Failure (Unit {0}) × World) (e : Failure)
      → r.0 ≡ err e
      → env.channel_open ≡ true
      → Accounted env.channel_open w r
      → Keeps w r.1
  failed-Keeps w (ok x, v) e h opened a = absurd cc
  failed-Keeps w (err x, v) e h opened (inl a) = a
  failed-Keeps w (err x, v) e h opened (inr (n, closed, _, _, _)) = absurd cc

  -- The receiver of a well-formed exchange of one named block, which it takes, can read and finds correct,
  -- with a disk that works and a list that is kept, on a connection that breaks at the status of the
  -- block or at the close that follows it: the exchange fails, frees the storage that was set aside and
  -- records nothing, and the block is on its disk all the same.
  pub recv_side-leaks :
      (w : World) (frame : List ℕ)
      → env.channel_open ≡ true
      → env.from_slice frame ≡ some info
      → length frame ≤ max_pbi_size
      → w.incoming ≡ to_be_bytes (length frame) ++ (frame ++ (content ++ []))
      → w.writes_left ≡ suc (left status_sent)
      → length content < w.available_storage
      → w.available_storage < usize_mod
      → (e : Failure) × ((recv_side env dir w).0 ≡ err e)
        × ((recv_side env dir w).1.disk
            ≡ (push (get_block_dir dir info.file_hash) hash, content) ∷ w.disk)
        × ((recv_side env dir w).1.available_storage ≡ w.available_storage)
        × ((recv_side env dir w).1.send_file_infos ≡ w.send_file_infos)
  recv_side-leaks w frame open_channel law small i l room fits =
      let accepts = recv_side-accepts w frame law small i room in
      let (e, fails, disk) =
        finish_breaks env dir info content hash block powers status_sent sized named parsed
          has_powers checked makes_dir writes
          (record w {
            incoming = content ++ [];
            available_storage = w.available_storage - length content;
          })
          refl l in
      let failed = ap (λ r. r.0) accepts ∙ fails in
      let kept =
        failed-Keeps w (recv_side env dir w) e failed open_channel
          (recv_side-Accounted env dir w fits) in
      (e, failed, ap (λ r. r.1.disk) accepts ∙ disk, kept.storage, kept.infos)
