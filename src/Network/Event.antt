-- ===== src/Network/Event.antt =====
-- `handle_event` and `handle_query_result`: what the swarm tells the node.
use dragoonfly.Base.{
  ℕ, Bool, true, false, String, Option, none, some, List, [], ◌∷◌, ◌++◌, ◌==◌, if◌then◌else◌,
  nat_eq, string_eq,
}
use dragoonfly.Base.Sets.{insert}
use dragoonfly.Base.Result.{Result, ok, err, ◌>>=◌}
use dragoonfly.Errors.{could_not_send_block_response, could_not_send_info_response}
use dragoonfly.Strategy.{PeerId}
use dragoonfly.Paths.{FilePath, push, get_block_dir}
use dragoonfly.Exchange.World.{PeerBlockInfo}
use dragoonfly.Network.Table.{lookup, erase}
use dragoonfly.Network.Defs.{
  Channel, Multiaddr, BlockResponse, nothing, info, block, NodeError, dragoon, other_error, Value,
  added_address, finished_query, responded_block, responded_info, created_dir, wrote, Node,
  sender_send_match, act,
}
use dragoonfly.Network.Outside.{Outside}
use dragoonfly.Network.Files.{Written, try, get_block_list}
use dragoonfly.Network.Command.{close_stream, answer_written}

-- `kad::QueryResult`. An answer to `start_providing` is good or not; `Ok` of `get_providers` is
-- `found_providers` or `finished_with_no_additional_record`.
pub data QueryResult : Type 0 where
  start_providing : Bool → QueryResult
  found_providers : List PeerId → QueryResult
  finished_with_no_additional_record : QueryResult
  get_providers_failed : QueryResult
  other_result : QueryResult

pub data ConnectedPoint : Type 0 where
  dialer : Multiaddr → ConnectedPoint
  listener : ConnectedPoint

-- `SwarmEvent`. `logged` stands for the events that are only logged. The channel of a request has
-- `shown` as its text.
pub data Event : Type 0 where
  logged : Event
  outbound_query_progressed : ℕ → QueryResult → Event
  identify_received : PeerId → (listen_addrs : List Multiaddr) → Event
  block_request : (shown file_hash block_hash : String) → Event
  block_response : (request_id : ℕ) → BlockResponse → Event
  info_request : (shown file_hash : String) → Event
  info_response : (request_id : ℕ) → PeerBlockInfo → Event
  connection_established : PeerId → ConnectedPoint → Event

-- A sender that was in a table, if one was, answers.
abbrev pub answer_removed : Option Channel → Result NodeError Value → Node → Node
answer_removed none res n = n
answer_removed (some c) res n = sender_send_match c res n

-- A message to the stream of a query, which stays.
abbrev pub tell :
    Option (List PeerId)
    → ℕ
    → List (ℕ × (Channel × List (Option (List PeerId))))
    → List (ℕ × (Channel × List (Option (List PeerId))))
tell message id [] = []
tell message id ((j, (c, messages)) ∷ t) =
    if j == id
    then (j, (c, messages ++ message ∷ [])) ∷ t
    else (j, (c, messages)) ∷ tell message id t

abbrev pub close_providers : ℕ → Node → Node
close_providers id n =
    close_stream (lookup id n.pending_get_providers)
      (record n { pending_get_providers = erase id n.pending_get_providers })

abbrev pub tell_providers : Option (List PeerId) → ℕ → Node → Node
tell_providers message id n = record n {
  pending_get_providers = tell message id n.pending_get_providers;
}

-- The last message of a query that failed: no providers if the query can be finished, or else an error.
abbrev pub fail_providers : Outside → ℕ → Node → Node
fail_providers w id n = elim (lookup id n.pending_get_providers) [
  | none ↦ n
  | some _ ↦
      if w.query_mut id
      then act (finished_query id) (close_providers id (tell_providers (some []) id n))
      else close_providers id (tell_providers none id n)
]

-- `handle_query_result`
unfoldable pub handle_query_result : Outside → Node → ℕ → QueryResult → Node
handle_query_result w n id (start_providing true) =
    answer_removed (lookup id n.pending_start_providing) (ok nothing)
      (record n { pending_start_providing = erase id n.pending_start_providing })
handle_query_result w n id (start_providing false) = n
handle_query_result w n id (found_providers providers) = tell_providers (some providers) id n
handle_query_result w n id finished_with_no_additional_record = close_providers id n
handle_query_result w n id get_providers_failed = fail_providers w id n
handle_query_result w n id other_result = n

abbrev pub sent_response {ℓ} : {A : Type ℓ} → Bool → NodeError → A → Result NodeError A
sent_response true x a = ok a
sent_response false x a = err x

-- `message_request`, with `read_block_from_disk`: the response that goes out.
unfoldable pub message_request :
    Outside → Node → String → String → String → Result NodeError BlockResponse
unfolding get_block_dir push
message_request w n shown file_hash block_hash =
    try (w.read_file (push (get_block_dir n.file_dir file_hash) block_hash)) >>= λ ser_block.
    sent_response w.send_response
      (dragoon (could_not_send_block_response block_hash file_hash shown))
      (record { file_hash = file_hash; block_hash = block_hash; block_data = ser_block })

-- `info_request`
unfoldable pub info_request_answer :
    Outside → Node → String → String → Result NodeError PeerBlockInfo
unfolding get_block_list
info_request_answer w n shown file_hash = get_block_list w n.file_dir file_hash >>= λ block_hashes.
    sent_response w.send_response (dragoon (could_not_send_info_response file_hash shown)) (record {
      peer_id_base_58 = w.to_base58 n.local_peer_id;
      file_hash = file_hash;
      block_hashes = block_hashes;
      block_sizes = none;
    })

-- An error is only logged.
abbrev pub respond_block : Result NodeError BlockResponse → Node → Node
respond_block (ok r) n = act (responded_block r) n
respond_block (err x) n = n

abbrev pub respond_info : Result NodeError PeerBlockInfo → Node → Node
respond_info (ok r) n = act (responded_info r) n
respond_info (err x) n = n

-- A block that a peer has sent is written as it came.
unfoldable pub save_block : Outside → FilePath → BlockResponse → Written
unfolding get_block_dir push
save_block w file_dir r =
    let save_path = get_block_dir file_dir r.file_hash in
    if w.create_dir_all save_path
    then (let file_path = push save_path r.block_hash in
        if w.write_all file_path r.block_data
        then (ok (block none), wrote file_path r.block_data ∷ created_dir save_path ∷ [])
        else (err other_error, created_dir save_path ∷ []))
    else (err other_error, [])

abbrev pub on_block_response : Outside → Option (Bool × Channel) → BlockResponse → Node → Node
on_block_response w none r n = n
on_block_response w (some (true, c)) r n = answer_written c (save_block w n.file_dir r) n
on_block_response w (some (false, c)) r n = sender_send_match c (ok (block (some r))) n

-- `handle_event`
unfoldable pub handle_event : Outside → Node → Event → Node
unfolding handle_query_result message_request info_request_answer insert save_block
handle_event w n logged = n
handle_event w n (outbound_query_progressed id result) = handle_query_result w n id result
handle_event w n (identify_received peer_id []) = n
handle_event w n (identify_received peer_id (addr ∷ _)) =
    act (added_address peer_id addr) (record n { known_peer_id = insert peer_id n.known_peer_id })
handle_event w n (block_request shown file_hash block_hash) =
    respond_block (message_request w n shown file_hash block_hash) n
handle_event w n (block_response request_id response) =
    on_block_response w (lookup request_id n.pending_request_block) response
      (record n { pending_request_block = erase request_id n.pending_request_block })
handle_event w n (info_request shown file_hash) =
    respond_info (info_request_answer w n shown file_hash) n
handle_event w n (info_response request_id response) =
    answer_removed (lookup request_id n.pending_request_block_info) (ok (info response))
      (record n { pending_request_block_info = erase request_id n.pending_request_block_info })
handle_event w n (connection_established peer_id (dialer address)) =
    answer_removed (lookup (w.to_string address) n.pending_dial) (ok nothing)
      (record n { pending_dial = erase (w.to_string address) n.pending_dial })
handle_event w n (connection_established peer_id listener) = n
