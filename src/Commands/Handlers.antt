-- ===== src/Commands/Handlers.antt =====
-- The handlers `create_cmd_*` of commands.rs: what the request carries, the command made of it, and the
-- response made of the command's answer. A peer id in base 58 is read by bs58 and libp2p, a parameter;
-- an id that does not read makes the handler panic, which is `none`.
use Prim.Native.String.{◌++◌ as str_append}
use dragoonfly.Base.{
  ℕ, ◌≡◌, refl, Bool, String, List, Option, none, some, arith, inl, inr, ◌⊎◌, ◌∙◌, true, false,
}
use dragoonfly.Base.Result.{Result, ok, err}
use dragoonfly.Errors.{
  DragoonError, unexpected_error, StatusCode, ok_status, internal_server_error, into_response,
}
use dragoonfly.Strategy.{PeerId, StrategyName}
use dragoonfly.Commands.Defs.{
  DragoonCommand, EncodingMethod, to_string, add_peer, bootstrap, change_available_send_storage,
  decode_blocks, dial_multiple, dial_single, encode_file, get_available_storage, get_block_from,
  get_blocks_info_from, get_block_list, get_connected_peers, get_file, get_listeners,
  get_network_info, get_providers, listen, node_info, remove_listener, send_block_list,
  send_block_to, start_provide, stop_provide,
}

-- A request that axum has routed and whose path and body it has read: one constructor per handler.
pub data Request : Type 0 where
  create_cmd_add_peer : (multiaddr : String) → Request
  create_cmd_bootstrap : Request
  create_cmd_change_available_send_storage : (new_storage_size : ℕ) → Request
  create_cmd_decode_blocks :
      (block_dir : String) (block_hashes : List String) (output_filename : String) → Request
  create_cmd_dial_multiple : (list_multiaddr : List String) → Request
  create_cmd_dial_single : (multiaddr : String) → Request
  create_cmd_encode_file :
      (file_path : String) (replace_blocks : Bool) (encoding_method : EncodingMethod)
      (encode_mat_k encode_mat_n : ℕ)
      → Request
  create_cmd_get_available_storage : Request
  create_cmd_get_block_from :
      (peer_id_base_58 file_hash block_hash : String) (save_to_disk : Bool) → Request
  create_cmd_get_blocks_info_from : (peer_id_base_58 file_hash : String) → Request
  create_cmd_get_block_list : (file_hash : String) → Request
  create_cmd_get_connected_peers : Request
  create_cmd_get_file : (file_hash output_filename : String) → Request
  create_cmd_get_listeners : Request
  create_cmd_get_providers : (key : String) → Request
  create_cmd_get_network_info : Request
  create_cmd_listen : (multiaddr : String) → Request
  create_cmd_node_info : Request
  create_cmd_remove_listener : (listener_id : ℕ) → Request
  create_cmd_send_block_list :
      (strategy_name : StrategyName) (file_hash : String) (block_list : List String) → Request
  create_cmd_send_block_to : (peer_id_base_58 file_hash block_hash : String) → Request
  create_cmd_start_provide : (key : String) → Request
  create_cmd_stop_provide : (key : String) → Request

-- What is answered: a value with status 200, or an error with the status of its `into_response`.
pub record Response (T : Type 0) : Type 0 where
  pub status : StatusCode
  pub body : Result DragoonError T

abbrev pub error_response : {T : Type 0} → DragoonError → Response T
error_response e = record { status = into_response e; body = err e }

infixl 5 ◌>>=◌
abbrev pub ◌>>=◌ : {A B : Type 0} → Option A → (A → Option B) → Option B
none >>= f = none
some a >>= f = f a

module _ (from_base_58 : String → Option PeerId) where
  -- The command that the handler builds.
  unfoldable pub create_cmd : Request → Option DragoonCommand
  create_cmd (create_cmd_add_peer multiaddr) = some (add_peer multiaddr)
  create_cmd create_cmd_bootstrap = some bootstrap
  create_cmd (create_cmd_change_available_send_storage n) = some (change_available_send_storage n)
  create_cmd (create_cmd_decode_blocks dir hashes name) = some (decode_blocks dir hashes name)
  create_cmd (create_cmd_dial_multiple addrs) = some (dial_multiple addrs)
  create_cmd (create_cmd_dial_single addr) = some (dial_single addr)
  create_cmd (create_cmd_encode_file path replace m k n) = some (encode_file path replace m k n)
  create_cmd create_cmd_get_available_storage = some get_available_storage
  create_cmd (create_cmd_get_block_from id f h save) = do
    peer_id ← from_base_58 id
    some (get_block_from peer_id f h save)
  create_cmd (create_cmd_get_blocks_info_from id f) = do
    peer_id ← from_base_58 id
    some (get_blocks_info_from peer_id f)
  create_cmd (create_cmd_get_block_list f) = some (get_block_list f)
  create_cmd create_cmd_get_connected_peers = some get_connected_peers
  create_cmd (create_cmd_get_file f name) = some (get_file f name)
  create_cmd create_cmd_get_listeners = some get_listeners
  create_cmd (create_cmd_get_providers key) = some (get_providers key)
  create_cmd create_cmd_get_network_info = some get_network_info
  create_cmd (create_cmd_listen multiaddr) = some (listen multiaddr)
  create_cmd create_cmd_node_info = some node_info
  create_cmd (create_cmd_remove_listener id) = some (remove_listener id)
  create_cmd (create_cmd_send_block_list s f blocks) = some (send_block_list s f blocks)
  create_cmd (create_cmd_send_block_to id f h) = do
    peer_id ← from_base_58 id
    some (send_block_to peer_id f h)
  create_cmd (create_cmd_start_provide key) = some (start_provide key)
  create_cmd (create_cmd_stop_provide key) = some (stop_provide key)

abbrev pub success : {T : Type 0} → T → Response T
success a = record { status = ok_status; body = ok a }

-- What the receiver of an answer sees: nothing yet, which may be so for ever; that the answering side was
-- dropped; or the answer.
pub data Awaited (E T : Type 0) : Type 0 where
  pending dropped : Awaited E T
  answered : Result E T → Awaited E T

-- What becomes of a request: the handler panics, it waits for an answer, or it responds.
pub data Handled (T : Type 0) : Type 0 where
  panics waits : Handled T
  responds : Response T → Handled T

-- Whether a value came back.
abbrev pub succeeds : {E T : Type 0} → Bool → Awaited E T → Bool
succeeds true (answered (ok a)) = true
succeeds _ _ = false

-- `debug` and `debug_unsent` are the texts that an error and the error of a channel with no receiver are
-- printed with.
module _ {E T : Type 0} (debug : E → String) (debug_unsent : DragoonCommand → String) where
  unfoldable pub handle_dragoon_error : E → String → Response T
  handle_dragoon_error e command = error_response (
      unexpected_error
        (str_append "Got error from command `" (str_append command (str_append "`: " (debug e)))))

  unfoldable pub handle_canceled : String → Response T
  handle_canceled command = error_response (unexpected_error "Command was canceled")

  unfoldable pub command_res_match : Awaited E T → String → Handled T
  command_res_match pending cmd_name = waits
  command_res_match dropped cmd_name = responds (handle_canceled cmd_name)
  command_res_match (answered (err e)) cmd_name = responds (handle_dragoon_error e cmd_name)
  command_res_match (answered (ok a)) cmd_name = responds (success a)

  -- The response, if the command could not be sent to the network task.
  unfoldable pub send_command : Bool → DragoonCommand → Option (Response T)
  send_command true command = none
  send_command false command = some (
      error_response (
        unexpected_error (
          str_append "Could not send command `"
            (str_append (to_string command) (str_append "`: " (debug_unsent command))))))

  -- The receiver of a command that was not sent is told that its sender is gone.
  abbrev pub received : Option (Response T) → Awaited E T → Awaited E T
  received none answer = answer
  received (some _) answer = dropped

  -- The macro: the answer of a command that could not be sent is that of one that was dropped, since
  -- the result of `send_command` is not looked at.
  unfoldable pub dragoon_command :
      Bool → (DragoonCommand → Awaited E T) → DragoonCommand → Handled T
  unfolding send_command command_res_match
  dragoon_command can_send serve cmd =
      let cmd_name = to_string cmd in
      command_res_match (received (send_command can_send cmd) (serve cmd)) cmd_name

  module _ (from_base_58 : String → Option PeerId) where
    unfoldable pub handle : Bool → (DragoonCommand → Awaited E T) → Request → Handled T
    unfolding dragoon_command create_cmd
    handle can_send serve req = elim (create_cmd from_base_58 req) [
      | none ↦ panics
      | some cmd ↦ dragoon_command can_send serve cmd
    ]

    answer-status :
        (serve : DragoonCommand → Awaited E T) (cmd : DragoonCommand) (answer : Awaited E T)
        → serve cmd ≡ answer
        → ((serve cmd ≡ pending) × (dragoon_command true serve cmd ≡ waits))
          ⊎ ((r : Response T) × (dragoon_command true serve cmd ≡ responds r)
              × (((a : T) × (serve cmd ≡ answered (ok a)) × (r ≡ success a))
                  ⊎ ((succeeds true (serve cmd) ≡ false) × (r.status ≡ internal_server_error))))
    unfolding dragoon_command command_res_match handle_dragoon_error handle_canceled into_response
    answer-status serve cmd pending e = inl (e, ground (arith, e))
    answer-status serve cmd dropped e =
        inr (handle_canceled (to_string cmd), ground (arith, e), inr (ground (arith, e), refl))
    answer-status serve cmd (answered (ok a)) e =
        inr (success a, ground (arith, e), inl (a, e, refl))
    answer-status serve cmd (answered (err x)) e =
        inr
          (handle_dragoon_error x (to_string cmd), ground (arith, e), inr (ground (arith, e), refl))

    -- A request whose command can be made waits exactly as long as its command could be sent and the network
    -- neither answers it nor drops it. Otherwise it is answered, with status 200 exactly if the
    -- command could be sent and the network answered it with a value, which is then the body; with
    -- status 500 otherwise.
    pub handle-status :
        (can_send : Bool) (serve : DragoonCommand → Awaited E T) (req : Request)
        (cmd : DragoonCommand)
        → create_cmd from_base_58 req ≡ some cmd
        → ((can_send ≡ true) × (serve cmd ≡ pending) × (handle can_send serve req ≡ waits))
          ⊎ ((r : Response T) × (handle can_send serve req ≡ responds r)
              × (((a : T) × (can_send ≡ true) × (serve cmd ≡ answered (ok a)) × (r ≡ success a))
                  ⊎ ((succeeds can_send (serve cmd) ≡ false) × (r.status ≡ internal_server_error))))
    unfolding handle dragoon_command command_res_match handle_canceled into_response
    handle-status true serve req cmd h =
        let made : handle true serve req ≡ dragoon_command true serve cmd = ground (arith, h) in
        elim (answer-status serve cmd (serve cmd) refl) [
          | inl (e, w) ↦ inl (refl, e, made ∙ w)
          | inr (r, w, inl (a, e, q)) ↦ inr (r, made ∙ w, inl (a, refl, e, q))
          | inr (r, w, inr bad) ↦ inr (r, made ∙ w, inr bad)
        ]
    handle-status false serve req cmd h =
        inr (handle_canceled (to_string cmd), ground (arith, h), inr (refl, refl))
