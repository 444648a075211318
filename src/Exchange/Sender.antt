-- ===== src/Exchange/Sender.antt =====
-- The sender side: the info, the answer, the block, the status.
use dragoonfly.Base.{ℕ, String, Bool, true, false, Option, none, some, List, [], ◌∷◌, length}
use dragoonfly.Base.Result.{Result, ok, err}
use dragoonfly.Paths.{FilePath, push, get_block_dir}
use dragoonfly.Strategy.{PeerId, SendId, send_id}
use dragoonfly.Exchange.Codes.{
  ExchangeCode, accept_block_send, reject_block_send, block_is_correct, block_is_incorrect,
  from_repr,
}
use dragoonfly.Exchange.Frame.{to_be_bytes}
use dragoonfly.Exchange.World.{
  PeerBlockInfo, Env, World, M, ◌>>=◌, ◌>>◌, return, fail, or_fail, read_exact, write_all, close,
  no_such_file, unexpected_code, unknown_code, Failure,
}

-- `map_err(|_| SendId { .. })`
abbrev pub label_error {ℓ} :
    {A : Type ℓ} → SendId → Result Failure A × World → Result SendId A × World
label_error id (ok a, w) = (ok a, w)
label_error id (err _, w) = (err id, w)

module _ (env : Env) where
  unfoldable pub build_peer_block_info : PeerId → String → String → FilePath → M PeerBlockInfo
  build_peer_block_info peer_id block_hash file_hash file_dir = do
    content ←
        or_fail (env.read_file (push (get_block_dir file_dir file_hash) block_hash)) no_such_file
    return (record {
      peer_id_base_58 = env.to_base58 peer_id;
      file_hash = file_hash;
      block_hashes = block_hash ∷ [];
      block_sizes = some (length content ∷ []);
    })

  unfoldable pub send_peer_block_info : PeerId → String → String → FilePath → M (Unit {0})
  unfolding build_peer_block_info
  send_peer_block_info own_peer_id block_hash file_hash file_dir = do
    info ← build_peer_block_info own_peer_id block_hash file_hash file_dir
    let ser_info = env.to_vec info
    write_all (to_be_bytes (length ser_info))
    write_all ser_info

  unfoldable pub send_block : String → String → FilePath → M (Unit {0})
  send_block block_hash file_hash file_dir = do
    ser_block ←
        or_fail (env.read_file (push (get_block_dir file_dir file_hash) block_hash)) no_such_file
    write_all ser_block

  -- The answer to the info: go on, or stop with a refusal.
  abbrev pub read_code : List ℕ → Option ExchangeCode
  read_code [] = none
  read_code (b ∷ bs) = from_repr b

  unfoldable pub on_status : SendId → Option ExchangeCode → M (Bool × SendId)
  on_status id (some block_is_correct) = return (true, id)
  on_status id (some block_is_incorrect) = return (false, id)
  on_status id (some _) = do close; fail unexpected_code
  on_status id none = do close; fail unknown_code

  unfoldable pub on_answer : SendId → FilePath → Option ExchangeCode → M (Bool × SendId)
  unfolding send_block on_status
  on_answer id file_dir (some accept_block_send) = do
    send_block id.block_hash id.file_hash file_dir
    ser_block_status ← read_exact 1
    close
    on_status id (read_code ser_block_status)
  on_answer id file_dir (some reject_block_send) = do close; return (false, id)
  on_answer id file_dir (some _) = do close; fail unexpected_code
  on_answer id file_dir none = do close; fail unknown_code

  -- `handle_send_block_exchange_sender_side_inner`
  unfoldable pub sender_side_inner :
      PeerId → PeerId → String → String → FilePath → M (Bool × SendId)
  unfolding send_peer_block_info on_answer
  sender_side_inner own_peer_id recv_peer_id block_hash file_hash file_dir = do
    send_peer_block_info own_peer_id block_hash file_hash file_dir
    ser_answer ← read_exact 1
    on_answer (send_id recv_peer_id (file_hash, block_hash)) file_dir (read_code ser_answer)

  -- `handle_send_block_exchange_sender_side`: an error is the id of the send that failed.
  unfoldable pub sender_side :
      PeerId → PeerId → String → String → FilePath → World → Result SendId (Bool × SendId) × World
  sender_side own_peer_id recv_peer_id block_hash file_hash file_dir w =
      label_error (send_id recv_peer_id (file_hash, block_hash))
        (sender_side_inner own_peer_id recv_peer_id block_hash file_hash file_dir w)
