-- ===== src/Network/Command.antt =====
-- `handle_command`: each branch, with the methods that it calls. The files are those of `Files`.
use dragoonfly.Base.{ℕ, Bool, String, Option, none, some, List, [], ◌∷◌, ◌++◌, nat_eq, string_eq}
use dragoonfly.Base.Result.{Result, ok, err}
use dragoonfly.Errors.{provider_error}
use dragoonfly.Strategy.{PeerId}
use dragoonfly.Paths.{get_file_dir, get_block_dir}
use dragoonfly.Storage.{get_available_storage, change_available_send_storage}
use dragoonfly.Commands.Defs.{
  DragoonCommand, add_peer, bootstrap, change_available_send_storage as change_storage,
  decode_blocks as decode_command, dial_multiple, dial_single, encode_file as encode_command,
  get_available_storage as get_storage, get_block_dir as block_dir_command, get_block_from,
  get_blocks_info_from, get_block_list as list_command, get_connected_peers, get_file,
  get_file_dir as file_dir_command, get_listeners, get_network_info, get_providers, listen,
  node_info, remove_entry_from_send_block_to_set as remove_entry, remove_listener, send_block_list,
  send_block_to, start_provide, stop_provide,
}
use dragoonfly.Network.SendBlockTo.{
  send_block_to_command, remove_entry_from_send_block_to_set, Effect, start_task, reply,
}
use dragoonfly.Network.Table.{lookup, put}
use dragoonfly.Network.Defs.{
  format, Channel, Value, nothing, number, storage_text, strings, addresses, peers, path, node,
  network, sent, NodeError, dragoon, stopped_providing, requested_block, requested_info,
  get_file_task, dial_multiple_task, get_providers_task, send_block_to_task, send_block_list_task,
  Node, sender_send_match, drop_sender, drop_replaced, spawn, act,
}
use dragoonfly.Network.Outside.{Outside}
use dragoonfly.Network.Calls.{
  Answered, listen_on, stop_listener, dial, add_address, start_bootstrap,
}
use dragoonfly.Network.Files.{Written, get_block_list, decode_blocks, encode_file}

-- `sender_send_match` with the result of a method.
abbrev pub answer : Channel → Answered → Node
answer c (res, n) = sender_send_match c res n

-- The insertions into the tables of channels.
abbrev pub await_dial : String → Channel → Node → Node
await_dial multiaddr c n =
    drop_replaced (lookup multiaddr n.pending_dial)
      (record n { pending_dial = put multiaddr c n.pending_dial })

abbrev pub await_start : ℕ → Channel → Node → Node
await_start id c n =
    drop_replaced (lookup id n.pending_start_providing)
      (record n { pending_start_providing = put id c n.pending_start_providing })

abbrev pub await_info : ℕ → Channel → Node → Node
await_info id c n =
    drop_replaced (lookup id n.pending_request_block_info)
      (record n { pending_request_block_info = put id c n.pending_request_block_info })

abbrev pub replaced_block : Option (Bool × Channel) → Option Channel
replaced_block none = none
replaced_block (some (save, c)) = some c

abbrev pub await_block : ℕ → Bool → Channel → Node → Node
await_block id save c n =
    drop_replaced (replaced_block (lookup id n.pending_request_block))
      (record n { pending_request_block = put id (save, c) n.pending_request_block })

-- The stream of a query whose sender is dropped ends, after the messages that it was sent.
abbrev pub close_stream : Option (Channel × List (Option (List PeerId))) → Node → Node
close_stream none n = n
close_stream (some (c, messages)) n = spawn c (get_providers_task messages) n

abbrev pub await_providers : ℕ → Channel → Node → Node
await_providers id c n =
    close_stream (lookup id n.pending_get_providers)
      (record n { pending_get_providers = put id (c, []) n.pending_get_providers })

-- The branch `DialSingle`. Between its two looks at the table nothing else runs here, so that the second
-- one finds what the first one found.
abbrev pub await_dialled : String → Channel → Answered → Node
await_dialled multiaddr c (err x, n) = sender_send_match c (err x) n
await_dialled multiaddr c (ok _, n) = elim (lookup multiaddr n.pending_dial) [
  | none ↦ await_dial multiaddr c n
  | some _ ↦ drop_sender c n
]

unfoldable pub dial_one : Outside → Node → Channel → String → Node
unfolding dial
dial_one w n c multiaddr = elim (lookup multiaddr n.pending_dial) [
  | none ↦ await_dialled multiaddr c (dial w multiaddr n)
  | some _ ↦ drop_sender c n
]

-- The commands that `DialMultiple` sends to the node itself, in order, each with a clone of one sender.
abbrev pub dial_each : Channel → List String → Node → Node
dial_each d [] n = n
dial_each d (multiaddr ∷ list) n =
    dial_each d list (record n { queue = n.queue ++ (multiaddr, d) ∷ []; senders = d ∷ n.senders })

-- What `send_block_to_command` asks for.
abbrev pub after_effect : Channel → Effect → Node → Node
after_effect c (start_task peer_id block_hash file_hash) n =
    spawn c (send_block_to_task peer_id block_hash file_hash) n
after_effect c (reply (ok (b, id))) n = sender_send_match c (ok (sent b id)) n
after_effect c (reply (err e)) n = sender_send_match c (err (dragoon e)) n

-- `DecodeBlocks` and `EncodeFile` answer with what they have made of the disk.
abbrev pub answer_written : Channel → Written → Node → Node
answer_written c (res, done) n = sender_send_match c res (record n { actions = done ++ n.actions })

abbrev pub strings_result : Result NodeError (List String) → Result NodeError Value
strings_result (ok names) = ok (strings names)
strings_result (err x) = err x

abbrev pub start_provide_with : Channel → String → Node → Option ℕ → Node
start_provide_with c key n (some query_id) = await_start query_id c n
start_provide_with c key n none =
    sender_send_match c (err (dragoon (provider_error (format "Could not provide " key "")))) n

-- The branch `SendBlockTo`, and the removal that ends it.
abbrev pub send_one : Channel → Node → PeerId → String → String → Node
send_one c n peer_id file_hash block_hash =
    let (pending, effect) =
      send_block_to_command peer_id file_hash block_hash n.pending_send_block_to in
    after_effect c effect (record n { pending_send_block_to = pending })

-- `handle_command`
unfoldable pub handle_command : Outside → Node → Channel → DragoonCommand → Node
unfolding listen_on stop_listener add_address start_bootstrap dial_one get_block_list decode_blocks
    encode_file get_block_dir get_file_dir send_block_to_command remove_entry_from_send_block_to_set
    get_available_storage change_available_send_storage
handle_command w n c (listen multiaddr) = answer c (listen_on w multiaddr n)
handle_command w n c get_listeners = sender_send_match c (ok (addresses w.listeners)) n
handle_command w n c get_network_info = sender_send_match c (ok (network w.network_info)) n
handle_command w n c (remove_listener listener_id) = answer c (stop_listener w listener_id n)
handle_command w n c get_connected_peers = sender_send_match c (ok (peers w.connected_peers)) n
handle_command w n c (get_file file_hash output_filename) =
    spawn c (get_file_task file_hash output_filename) n
handle_command w n c (dial_single multiaddr) = dial_one w n c multiaddr
handle_command w n c (dial_multiple list_multiaddr) =
    spawn c (dial_multiple_task w.unbounded_channel)
      (dial_each w.unbounded_channel list_multiaddr n)
handle_command w n c (add_peer multiaddr) = answer c (add_address w multiaddr n)
handle_command w n c (start_provide key) = start_provide_with c key n (w.start_providing key)
handle_command w n c (stop_provide key) =
    sender_send_match c (ok nothing) (act (stopped_providing key) n)
handle_command w n c (get_providers key) = await_providers (w.get_providers key) c n
handle_command w n c bootstrap = sender_send_match c (start_bootstrap w) n
handle_command w n c (get_block_from peer_id file_hash block_hash save_to_disk) =
    await_block w.send_request save_to_disk c (act (requested_block peer_id file_hash block_hash) n)
handle_command w n c (get_blocks_info_from peer_id file_hash) =
    await_info w.send_request c (act (requested_info peer_id file_hash) n)
handle_command w n c (list_command file_hash) =
    sender_send_match c (strings_result (get_block_list w n.file_dir file_hash)) n
handle_command w n c (decode_command block_dir block_hashes output_filename) =
    answer_written c (decode_blocks w (block_dir ∷ []) block_hashes output_filename) n
handle_command w n c (encode_command file_path replace_blocks encoding_method k m) =
    answer_written c (encode_file w n.file_dir (file_path ∷ []) replace_blocks encoding_method k m)
      n
handle_command w n c (block_dir_command file_hash) =
    sender_send_match c (ok (path (get_block_dir n.file_dir file_hash))) n
handle_command w n c (file_dir_command file_hash) =
    sender_send_match c (ok (path (get_file_dir n.file_dir file_hash))) n
handle_command w n c node_info = sender_send_match c (ok (node n.local_peer_id n.label)) n
handle_command w n c (send_block_to peer_id file_hash block_hash) =
    send_one c n peer_id file_hash block_hash
handle_command w n c (send_block_list strategy_name file_hash block_list) =
    spawn c (send_block_list_task strategy_name file_hash block_list) n
handle_command w n c (remove_entry peer_id block_hash) =
    sender_send_match c (ok nothing) (record n {
      pending_send_block_to =
          remove_entry_from_send_block_to_set peer_id block_hash n.pending_send_block_to;
    })
handle_command w n c get_storage =
    sender_send_match c (ok (number (get_available_storage n.storage))) n
handle_command w n c (change_storage new_storage_size) =
    let (text, storage) = change_available_send_storage new_storage_size n.storage in
    sender_send_match c (ok (storage_text text)) (record n { storage = storage })
