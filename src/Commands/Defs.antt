-- ===== src/Commands/Defs.antt =====
-- `DragoonCommand` of commands.rs, without the channel that carries the answer back, and its names.
use dragoonfly.Base.{ℕ, Bool, String, List}
use dragoonfly.Strategy.{PeerId, StrategyName}

pub data EncodingMethod : Type 0 where
  vandermonde random : EncodingMethod

pub data DragoonCommand : Type 0 where
  add_peer : (multiaddr : String) → DragoonCommand
  bootstrap : DragoonCommand
  change_available_send_storage : (new_storage_size : ℕ) → DragoonCommand
  decode_blocks :
      (block_dir : String) (block_hashes : List String) (output_filename : String) → DragoonCommand
  dial_multiple : (list_multiaddr : List String) → DragoonCommand
  dial_single : (multiaddr : String) → DragoonCommand
  encode_file :
      (file_path : String) (replace_blocks : Bool) (encoding_method : EncodingMethod)
      (encode_mat_k encode_mat_n : ℕ)
      → DragoonCommand
  get_available_storage : DragoonCommand
  get_block_dir : (file_hash : String) → DragoonCommand
  get_block_from :
      (peer_id : PeerId) (file_hash block_hash : String) (save_to_disk : Bool) → DragoonCommand
  get_blocks_info_from : (peer_id : PeerId) (file_hash : String) → DragoonCommand
  get_block_list : (file_hash : String) → DragoonCommand
  get_connected_peers : DragoonCommand
  get_file : (file_hash output_filename : String) → DragoonCommand
  get_file_dir : (file_hash : String) → DragoonCommand
  get_listeners : DragoonCommand
  get_network_info : DragoonCommand
  get_providers : (key : String) → DragoonCommand
  listen : (multiaddr : String) → DragoonCommand
  node_info : DragoonCommand
  remove_entry_from_send_block_to_set : (peer_id : PeerId) (block_hash : String) → DragoonCommand
  remove_listener : (listener_id : ℕ) → DragoonCommand
  send_block_list :
      (strategy_name : StrategyName) (file_hash : String) (block_list : List String)
      → DragoonCommand
  send_block_to : (peer_id : PeerId) (file_hash block_hash : String) → DragoonCommand
  start_provide : (key : String) → DragoonCommand
  stop_provide : (key : String) → DragoonCommand

-- `Display`.
unfoldable pub to_string : DragoonCommand → String
to_string (add_peer _) = "add-peer"
to_string bootstrap = "bootstrap"
to_string (change_available_send_storage _) = "change-available-send-storage"
to_string (decode_blocks _ _ _) = "decode-blocks"
to_string (dial_multiple _) = "dial-multiple"
to_string (dial_single _) = "dial-single"
to_string (encode_file _ _ _ _ _) = "encode-file"
to_string get_available_storage = "get-available-send-storage"
to_string (get_block_dir _) = "get-block-dir"
to_string (get_block_from _ _ _ _) = "get-block-from"
to_string (get_blocks_info_from _ _) = "get-blocks-info-from"
to_string (get_block_list _) = "get-block-list"
to_string get_connected_peers = "get-connected-peers"
to_string (get_file _ _) = "get-file"
to_string (get_file_dir _) = "get-file-dir"
to_string get_listeners = "get-listener"
to_string get_network_info = "get-network-info"
to_string (get_providers _) = "get-providers"
to_string (listen _) = "listen"
to_string node_info = "node-info"
to_string (remove_entry_from_send_block_to_set _ _) = "remove-entry-from-send-block-to-set"
to_string (remove_listener _) = "remove-listener"
to_string (send_block_list _ _ _) = "send-block-list"
to_string (send_block_to _ _ _) = "send-block-to"
to_string (start_provide _) = "start-provide"
to_string (stop_provide _) = "stop-provide"
