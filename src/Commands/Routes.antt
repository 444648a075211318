-- ===== src/Commands/Routes.antt =====
-- The router of main.rs: under which method and path each handler is reached.
use dragoonfly.Base.{◌≡◌, String, List, [], ◌∷◌, Option, some, ◌⊎◌, inl, inr, Option-cases, arith}
use dragoonfly.Strategy.{PeerId}
use dragoonfly.Commands.Defs.{DragoonCommand, to_string, get_listeners}
use dragoonfly.Commands.Handlers.{
  Request, create_cmd, create_cmd_add_peer, create_cmd_bootstrap,
  create_cmd_change_available_send_storage, create_cmd_decode_blocks, create_cmd_dial_multiple,
  create_cmd_dial_single, create_cmd_encode_file, create_cmd_get_available_storage,
  create_cmd_get_block_from, create_cmd_get_blocks_info_from, create_cmd_get_block_list,
  create_cmd_get_connected_peers, create_cmd_get_file, create_cmd_get_listeners,
  create_cmd_get_providers, create_cmd_get_network_info, create_cmd_listen, create_cmd_node_info,
  create_cmd_remove_listener, create_cmd_send_block_list, create_cmd_send_block_to,
  create_cmd_start_provide, create_cmd_stop_provide,
}

pub data Method : Type 0 where
  get post : Method

-- The first segment of the path, and the names of the segments that follow it.
pub record Route : Type 0 where
  pub method : Method
  pub name : String
  pub segments : List String

abbrev pub route : Method → String → List String → Route
route m n s = record { method = m; name = n; segments = s }

unfoldable pub router : Request → Route
router (create_cmd_listen _) = route get "listen" ("multiaddr" ∷ [])
router create_cmd_get_listeners = route get "get-listeners" []
router create_cmd_get_network_info = route get "get-network-info" []
router (create_cmd_remove_listener _) = route post "remove-listener" []
router create_cmd_get_connected_peers = route get "get-connected-peers" []
router (create_cmd_dial_single _) = route post "dial-single" []
router (create_cmd_dial_multiple _) = route post "dial-multiple" []
router (create_cmd_add_peer _) = route post "add-peer" []
router (create_cmd_start_provide _) = route post "start-provide" []
router (create_cmd_stop_provide _) = route post "stop-provide" []
router (create_cmd_get_providers _) = route post "get-providers" []
router create_cmd_bootstrap = route get "bootstrap" []
router (create_cmd_decode_blocks _ _ _) = route post "decode-blocks" []
router (create_cmd_encode_file _ _ _ _ _) = route post "encode-file" []
router (create_cmd_get_block_from _ _ _ _) =
    route get "get-block-from"
      ("peer_id_base_58" ∷ "file_hash" ∷ "block_hash" ∷ "save_to_disk" ∷ [])
router (create_cmd_get_file _ _) = route get "get-file" ("file_hash" ∷ "output_filename" ∷ [])
router (create_cmd_get_block_list _) = route get "get-block-list" ("file_hash" ∷ [])
router (create_cmd_get_blocks_info_from _ _) =
    route get "get-blocks-info-from" ("peer_id_base_58" ∷ "file_hash" ∷ [])
router create_cmd_node_info = route get "node-info" []
router (create_cmd_send_block_to _ _ _) = route post "send-block-to" []
router create_cmd_get_available_storage = route get "get-available-send-storage" []
router (create_cmd_send_block_list _ _ _) = route post "send-block-list" []
router (create_cmd_change_available_send_storage _) = route post "change-available-send-storage" []

-- The names by which a request is known outside and its command inside: the same, but for the command
-- that lists the listeners.
abbrev pub SameName : String → DragoonCommand → Type 0
SameName n c = (to_string c ≡ n) ⊎ ((c ≡ get_listeners) × (n ≡ "get-listeners"))

module _ (from_base_58 : String → Option PeerId) where
  -- The command that a handler builds carries the name of the route that the handler is reached under,
  -- but for `get_listeners`, whose route is "get-listeners" and whose name is "get-listener".
  pub create_cmd-router :
      (req : Request) (cmd : DragoonCommand)
      → create_cmd from_base_58 req ≡ some cmd
      → SameName (router req).name cmd
  unfolding create_cmd router to_string
  create_cmd-router (create_cmd_listen a) cmd h = ground arith
  create_cmd-router create_cmd_get_listeners cmd h = ground arith
  create_cmd-router create_cmd_get_network_info cmd h = ground arith
  create_cmd-router (create_cmd_remove_listener a) cmd h = ground arith
  create_cmd-router create_cmd_get_connected_peers cmd h = ground arith
  create_cmd-router (create_cmd_dial_single a) cmd h = ground arith
  create_cmd-router (create_cmd_dial_multiple a) cmd h = ground arith
  create_cmd-router (create_cmd_add_peer a) cmd h = ground arith
  create_cmd-router (create_cmd_start_provide a) cmd h = ground arith
  create_cmd-router (create_cmd_stop_provide a) cmd h = ground arith
  create_cmd-router (create_cmd_get_providers a) cmd h = ground arith
  create_cmd-router create_cmd_bootstrap cmd h = ground arith
  create_cmd-router (create_cmd_decode_blocks a b c) cmd h = ground arith
  create_cmd-router (create_cmd_encode_file a b c d e) cmd h = ground arith
  create_cmd-router (create_cmd_get_block_from a b c d) cmd h =
      elim (Option-cases (from_base_58 a)) [
        | inl unread ↦ ground arith
        | inr (p, read) ↦ ground arith
      ]
  create_cmd-router (create_cmd_get_file a b) cmd h = ground arith
  create_cmd-router (create_cmd_get_block_list a) cmd h = ground arith
  create_cmd-router (create_cmd_get_blocks_info_from a b) cmd h =
      elim (Option-cases (from_base_58 a)) [
        | inl unread ↦ ground arith
        | inr (p, read) ↦ ground arith
      ]
  create_cmd-router create_cmd_node_info cmd h = ground arith
  create_cmd-router (create_cmd_send_block_to a b c) cmd h = elim (Option-cases (from_base_58 a)) [
    | inl unread ↦ ground arith
    | inr (p, read) ↦ ground arith
  ]
  create_cmd-router create_cmd_get_available_storage cmd h = ground arith
  create_cmd-router (create_cmd_send_block_list a b c) cmd h = ground arith
  create_cmd-router (create_cmd_change_available_send_storage a) cmd h = ground arith
