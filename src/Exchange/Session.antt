-- ===== src/Exchange/Session.antt =====
-- The receiver of a well-formed exchange whose block fits its storage.
use dragoonfly.Base.{
  ℕ, suc, ◌-◌, ◌<◌, ◌≤◌, ◌≡◌, refl, sym, subst, String, Bool, true, false, Option, none, some, List,
  [], ◌∷◌, ◌++◌, length, lt→ltb, le→ltb_false, if◌then◌else◌, arith,
}
use dragoonfly.Base.Result.{ok}
use dragoonfly.Paths.{FilePath, push, get_block_dir}
use dragoonfly.Exchange.Codes.{accept_block_send, to_u8}
use mathlib.Core.Option.{some-injective}
use dragoonfly.Exchange.Frame.{
  from_be_bytes, to_be_bytes, usize_bytes, length-to_be_bytes, from_be_bytes-to_be_bytes,
}
use dragoonfly.Exchange.World.{Env, World, PeerBlockInfo}
use dragoonfly.Exchange.Receiver.{
  choose_response_to_send_request, respond_to_send_request, send_block_status, receive_block,
  store_block, send_block_recv_wrapper, finish, recv_and_finish, recv_side, check_block,
  receive_sized, first_hash, on_size, recv_info, max_pbi_size,
}
use dragoonfly.Exchange.Runs.{
  Runs, then_Runs, return-Runs, or_fail-Runs, read_exact-Runs, write_all-Runs, close-Runs, verdict,
}

-- Three writes go through: the answer, the status and the close.
module _ (env : Env) (dir : FilePath) (info : PeerBlockInfo) (content : List ℕ) (hash : String)
    (block : env.Block) (powers : env.Powers) (good : Bool) (k : ℕ)
    (sized : info.block_sizes ≡ some (length content ∷ [])) (named : info.block_hashes ≡ hash ∷ [])
    (parsed : env.deserialize content ≡ some block) (has_powers : env.powers ≡ some powers)
    (checked : env.verify block powers ≡ some good)
    (makes_dir : env.create_dir_all (get_block_dir dir info.file_hash) ≡ true)
    (writes : env.write_file (push (get_block_dir dir info.file_hash) hash) content ≡ true) where
  abbrev pub path : FilePath
  path = push (get_block_dir dir info.file_hash) hash

  abbrev after : World → World
  after w = record w {
    incoming = [];
    outgoing = (w.outgoing ++ to_u8 accept_block_send ∷ []) ++ to_u8 (verdict good) ∷ [];
    writes_left = k;
    disk = if good then (path, content) ∷ w.disk else w.disk;
  }

  pub receive-Runs :
      (w : World)
      → w.incoming ≡ content ++ []
      → Runs (receive_block env info) w (content, block) (record w { incoming = [] })
  unfolding receive_block
  receive-Runs w i =
      subst (λ z. Runs (receive_sized env z) w (content, block) (record w { incoming = [] }))
        (sym sized)
        (then_Runs _ _ w _ _ content (content, block)
          (read_exact-Runs w content [] (length content) refl i)
          (then_Runs _ _ _ _ _ block (content, block) (or_fail-Runs _ _ block _ parsed)
            (return-Runs _ _)))

  pub store-Runs :
      (w : World)
      → Runs
          (store_block env (get_block_dir dir info.file_hash) hash content)
          w
          tt
          (record w { disk = (path, content) ∷ w.disk })
  unfolding store_block
  store-Runs w = record { runs = rw (makes_dir, writes) refl }

  pub check-Runs :
      (w : World) (n : ℕ) (b : Bool)
      → w.writes_left ≡ suc n
      → Runs (check_block env dir info.file_hash hash content (some b)) w tt (record w {
        outgoing = w.outgoing ++ to_u8 (verdict b) ∷ [];
        writes_left = n;
        disk = if b then (path, content) ∷ w.disk else w.disk;
      })
  unfolding send_block_status
  check-Runs w n true e = then_Runs _ _ w _ _ tt tt (store-Runs w) (write_all-Runs _ _ n e)
  check-Runs w n false e = write_all-Runs w _ n e

  pub checked-Runs :
      (o : Option Bool) (w : World) (n : ℕ) (b : Bool)
      → o ≡ some b
      → w.writes_left ≡ suc n
      → Runs (check_block env dir info.file_hash hash content o) w tt (record w {
        outgoing = w.outgoing ++ to_u8 (verdict b) ∷ [];
        writes_left = n;
        disk = if b then (path, content) ∷ w.disk else w.disk;
      })
  checked-Runs none w n b e l = cc
  checked-Runs (some c) w n b e l = rw (some-injective c b e) (check-Runs w n b l)

  wrapper-Runs :
      (w : World)
      → w.incoming ≡ content ++ []
      → w.writes_left ≡ suc (suc (suc k))
      → Runs
          (send_block_recv_wrapper env accept_block_send dir info)
          w
          (info.file_hash, hash, info.peer_id_base_58)
          (after w)
  unfolding send_block_recv_wrapper respond_to_send_request
  wrapper-Runs w i l = then_Runs _ _ w _ _ tt _ (write_all-Runs w _ _ l) (
      then_Runs _ _ _ _ _ (content, block) _ (receive-Runs _ i)
        (then_Runs _ _ _ _ _ hash _ hashed (
          then_Runs _ _ _ _ _ powers _ (or_fail-Runs _ _ powers _ has_powers) (
            then_Runs _ _ _ _ _ tt _
              (checked-Runs (env.verify block powers) _ (suc k) good checked refl)
              (then_Runs _ _ _ _ _ tt _ (close-Runs _ k refl) (return-Runs _ _))))))
    where
      hashed : {v : World} → Runs (first_hash env info.block_hashes) v hash v
      hashed {v} = subst (λ z. Runs (first_hash env z) v hash v) (sym named) (return-Runs hash v)

  -- The receiver's world with its storage set aside, and then its message.
  abbrev pub recorded : World → ℕ → World
  recorded w left = record w {
    incoming = [];
    outgoing = (w.outgoing ++ to_u8 accept_block_send ∷ []) ++ to_u8 (verdict good) ∷ [];
    writes_left = k;
    available_storage = left;
    disk = if good then (path, content) ∷ w.disk else w.disk;
    send_file_infos =
        w.send_file_infos
        ++ record {
          file_dir = dir;
          size_of_block = length content;
          file_hash = info.file_hash;
          block_hash = hash;
          peer_id_base_58 = info.peer_id_base_58;
        }
          ∷ [];
  }

  pub chosen-Runs :
      (w : World)
      → length content < w.available_storage
      → Runs
          (choose_response_to_send_request info)
          w
          (accept_block_send, length content)
          (record w { available_storage = w.available_storage - length content })
  unfolding choose_response_to_send_request
  chosen-Runs w h = record { runs = rw (sized, lt→ltb (length content) w.available_storage h) refl }

  finish-Runs :
      (w : World)
      → env.channel_open ≡ true
      → w.incoming ≡ content ++ []
      → w.writes_left ≡ suc (suc (suc k))
      → Runs
          (λ v. recv_and_finish env dir info (accept_block_send, length content) v)
          w
          tt
          (recorded w w.available_storage)
  unfolding recv_and_finish finish
  finish-Runs w open_channel i l = record {
    runs = rw ((wrapper-Runs w i l).runs, open_channel) refl;
  }

  on_size-Runs :
      (n : ℕ) (v v' : World)
      → n ≤ max_pbi_size
      → Runs (recv_info env dir n) v tt v'
      → Runs (on_size env dir n) v tt v'
  on_size-Runs n v v' h r = rw (le→ltb_false n max_pbi_size h) r

  -- The receiver of a well-formed exchange of one named block, which fits the available storage and
  -- which it can read and verify, on a stream and a disk that work and with a list that is kept: it
  -- answers with an acceptance and the verdict on the block, and stores the bytes exactly if the block
  -- is correct. The storage is spent and the message recorded in both cases.
  pub recv_side-stores :
      (w : World) (frame : List ℕ)
      → env.channel_open ≡ true
      → env.from_slice frame ≡ some info
      → length frame ≤ max_pbi_size
      → w.incoming ≡ to_be_bytes (length frame) ++ (frame ++ (content ++ []))
      → w.writes_left ≡ suc (suc (suc k))
      → length content < w.available_storage
      → recv_side env dir w ≡ (ok tt, recorded w (w.available_storage - length content))
  unfolding recv_side
  recv_side-stores w frame open_channel law small i l room = whole.runs
    where
      size : from_be_bytes (to_be_bytes (length frame)) ≡ length frame
      size = from_be_bytes-to_be_bytes (length frame) (omega arith)

      framed :
          Runs
            (recv_info env dir (length frame))
            (record w { incoming = frame ++ (content ++ []) })
            tt
            (recorded w (w.available_storage - length content))
      framed =
          then_Runs _ _ _ _ _ frame _
            (read_exact-Runs _ frame (content ++ []) (length frame) refl refl)
            (then_Runs _ _ _ _ _ info _ (or_fail-Runs _ _ info _ law) (
              then_Runs _ _ _ _ _ (accept_block_send, length content) _ (chosen-Runs _ room)
                (finish-Runs _ open_channel refl l)))

      whole : Runs (recv_side env dir) w tt (recorded w (w.available_storage - length content))
      whole =
          then_Runs _ _ w _ _ (to_be_bytes (length frame)) _
            (read_exact-Runs w (to_be_bytes (length frame)) (frame ++ (content ++ [])) usize_bytes
              (length-to_be_bytes (length frame)) i)
            (subst
              (λ n.
                Runs (on_size env dir n) (record w { incoming = frame ++ (content ++ []) }) tt
                  (recorded w (w.available_storage - length content)))
              (sym size) (on_size-Runs (length frame) _ _ small framed))
