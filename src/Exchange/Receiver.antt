-- ===== src/Exchange/Receiver.antt =====
-- The receiver side: the info, the choice, the block, its check and its storing.
use dragoonfly.Base.{
  ℕ, ◌-◌, String, Bool, true, false, Option, none, some, List, [], ◌∷◌, ◌++◌, ltb, if◌then◌else◌,
}
use dragoonfly.Base.Result.{Result, ok, err}
use dragoonfly.Paths.{FilePath, push, get_block_dir}
use dragoonfly.Exchange.Codes.{
  ExchangeCode, accept_block_send, reject_block_send, block_is_correct, block_is_incorrect, to_u8,
}
use dragoonfly.Exchange.Frame.{usize_bytes, from_be_bytes}
use dragoonfly.Exchange.World.{
  PeerBlockInfo, Env, World, M, ◌>>=◌, ◌>>◌, return, fail, or_fail, read_exact, write_all, close,
  fetch_add, Failure, bad_info, unexpected_code, no_size, empty_sizes, bad_block, no_block_hash,
  no_powers, not_verified, disk_failed, channel_closed, info_too_big,
}

abbrev pub max_pbi_size : ℕ
max_pbi_size = 1024

-- The code and the change of the available storage for the first size of the info, if it has one.
abbrev pub choose : Option (List ℕ) → World → (ExchangeCode × ℕ) × World
choose (some (size ∷ _)) w =
    if ltb size w.available_storage
    then ((accept_block_send, size), record w { available_storage = w.available_storage - size })
    else ((reject_block_send, 0), w)
choose (some []) w = ((reject_block_send, 0), w)
choose none w = ((reject_block_send, 0), w)

unfoldable pub choose_response_to_send_request : PeerBlockInfo → M (ExchangeCode × ℕ)
choose_response_to_send_request info w = let (r, w') = choose info.block_sizes w in (ok r, w')

unfoldable pub respond_to_send_request : ExchangeCode → M (Unit {0})
respond_to_send_request answer = write_all (to_u8 answer ∷ [])

unfoldable pub send_block_status : ExchangeCode → M (Unit {0})
send_block_status block_status = write_all (to_u8 block_status ∷ [])

-- `String::default()` three times.
abbrev pub no_names : String × String × String
no_names = ("", "", "")

module _ (env : Env) where
  abbrev pub receive_sized : Option (List ℕ) → M (List ℕ × env.Block)
  receive_sized (some (size ∷ _)) = do
    ser_block ← read_exact size
    block ← or_fail (env.deserialize ser_block) bad_block
    return (ser_block, block)
  receive_sized (some []) = fail empty_sizes
  receive_sized none = fail no_size

  unfoldable pub receive_block : PeerBlockInfo → M (List ℕ × env.Block)
  receive_block info = receive_sized info.block_sizes

  abbrev pub first_hash : List String → M String
  first_hash [] = fail no_block_hash
  first_hash (h ∷ _) = return h

  -- `create_dir_all`, then `write`, each with its `?`.
  unfoldable pub store_block : FilePath → String → List ℕ → M (Unit {0})
  store_block block_dir block_hash ser_block w =
      let path = push block_dir block_hash in
      if env.create_dir_all block_dir
      then if env.write_file path ser_block
        then (ok tt, record w { disk = (path, ser_block) ∷ w.disk })
        else (err disk_failed, w)
      else (err disk_failed, w)

  abbrev pub check_block : FilePath → String → String → List ℕ → Option Bool → M (Unit {0})
  check_block file_dir file_hash block_hash ser_block (some true) = do
    store_block (get_block_dir file_dir file_hash) block_hash ser_block
    send_block_status block_is_correct
  check_block file_dir file_hash block_hash ser_block (some false) =
      send_block_status block_is_incorrect
  check_block file_dir file_hash block_hash ser_block none = fail not_verified

  -- What `send_block_recv_wrapper` does once the answer is sent.
  abbrev pub after_answer : ExchangeCode → FilePath → PeerBlockInfo → M (String × String × String)
  after_answer accept_block_send file_dir info = do
    (ser_block, block) ← receive_block info
    block_hash ← first_hash info.block_hashes
    powers ← or_fail env.powers no_powers
    check_block file_dir info.file_hash block_hash ser_block (env.verify block powers)
    close
    return (info.file_hash, block_hash, info.peer_id_base_58)
  after_answer reject_block_send file_dir info = do close; return no_names
  after_answer _ file_dir info = fail unexpected_code

  unfoldable pub send_block_recv_wrapper :
      ExchangeCode → FilePath → PeerBlockInfo → M (String × String × String)
  unfolding respond_to_send_request receive_block store_block send_block_status
  send_block_recv_wrapper answer file_dir info = do
    respond_to_send_request answer
    after_answer answer file_dir info

  -- The end of `handle_send_block_exchange_recv_side`: the list of received blocks is told of the block,
  -- or the storage that was set aside is freed.
  unfoldable pub finish : FilePath → ℕ → Result Failure (String × String × String) → M (Unit {0})
  finish file_dir size_change (ok (file_hash, block_hash, peer_id_base_58)) =
      if env.channel_open
      then (λ w. (
        ok tt,
        record w {
          send_file_infos =
              w.send_file_infos
              ++ record {
                file_dir = file_dir;
                size_of_block = size_change;
                file_hash = file_hash;
                block_hash = block_hash;
                peer_id_base_58 = peer_id_base_58;
              }
                ∷ [];
        },
      ))
      else (do close; fail channel_closed)
  finish file_dir size_change (err e) = do fetch_add size_change; close; fail e

  -- `match send_block_recv_wrapper(..).await { Ok(..) => .., Err(e) => .. }`
  unfoldable pub recv_and_finish : FilePath → PeerBlockInfo → ExchangeCode × ℕ → M (Unit {0})
  unfolding send_block_recv_wrapper finish
  recv_and_finish file_dir info (answer, size_change) w =
      let (res, w') = send_block_recv_wrapper answer file_dir info w in
      finish file_dir size_change res w'

  -- What follows the length of the info.
  abbrev pub recv_info : FilePath → ℕ → M (Unit {0})
  recv_info file_dir size = do
    ser_info ← read_exact size
    info ← or_fail (env.from_slice ser_info) bad_info
    choice ← choose_response_to_send_request info
    recv_and_finish file_dir info choice

  abbrev pub refuse_info : ℕ → M (Unit {0})
  refuse_info size = do close; fail (info_too_big size)

  abbrev pub on_size : FilePath → ℕ → M (Unit {0})
  on_size file_dir size =
      if ltb max_pbi_size size then refuse_info size else recv_info file_dir size

  -- `handle_send_block_exchange_recv_side`
  unfoldable pub recv_side : FilePath → M (Unit {0})
  unfolding choose_response_to_send_request recv_and_finish
  recv_side file_dir = do
    ser_size ← read_exact usize_bytes
    on_size file_dir (from_be_bytes ser_size)
