-- ===== src/Errors/Texts.antt =====
-- error.rs: what an error is printed as, and the text that it is answered with.
use Prim.Native.String.{◌++◌ as push_str}
use dragoonfly.Base.{ℕ, ◌≡◌, refl, String, List, [], ◌∷◌}
use dragoonfly.Strategy.{PeerId, SendId}
use dragoonfly.Errors.{
  Context, more_blocks_than_expected, no_more_peers, invalid_index, not_all_blocks_sent,
  DragoonError, bad_listener, dial_error, unexpected_error, provider_error, bootstrap_error,
  no_parent_directory, could_not_send_block_response, could_not_send_info_response,
  send_block_to_error, send_block_to_already_started, send_block_list_failed,
}

-- How libp2p and the standard library print a peer id, a list of sends and a number.
pub record Formats : Type 0 where
  pub display_peer : PeerId → String
  pub debug_peer : PeerId → String
  pub debug_distribution : List SendId → String
  pub display_number : ℕ → String

-- The pieces of a `format!`, one after the other.
unfoldable pub format : List String → String
format [] = ""
format (s ∷ more) = push_str s (format more)

abbrev not_sent : String
not_sent = " could not be sent (channel closed due to a timeout or the connection was closed)"

module _ (p : Formats) where
  -- The texts that `send_block_list` gives for its failure.
  unfoldable pub show_context : Context → String
  unfolding format
  show_context (more_blocks_than_expected file_hash) = format (
      "There were more blocks to be sent than the expected number to send for file " ∷ file_hash
      ∷ [])
  show_context no_more_peers = "No more peers to send but blocks are left"
  show_context (invalid_index remaining_peer_number accepted_peers_index) = format (
      "Invalid get index on the list of accepted peers: remaining peer number is "
      ∷ p.display_number remaining_peer_number
      ∷ " but the get index was "
      ∷ p.display_number accepted_peers_index
      ∷ [])
  show_context not_all_blocks_sent =
      "The rejected block list is empty but not all blocks have been sent, unknown configuration"

  -- What `#[error(..)]` makes of each error.
  unfoldable pub to_string : DragoonError → String
  unfolding format show_context
  to_string (bad_listener _) = "Bad listener given"
  to_string (dial_error _) = "Could not dial a peer"
  to_string (unexpected_error _) = "unexpected error from Dragoon"
  to_string (provider_error _) = "Could not provide"
  to_string (bootstrap_error _) = "Bootstrap error"
  to_string (no_parent_directory block_dir) = format (
      "The parent directory of the block directory (block_dir: " ∷ block_dir
      ∷ ") either doesn't exist, or permissions are insufficient to write" ∷ [])
  to_string (could_not_send_block_response block_hash file_hash channel) = format (
      "The block response of block " ∷ block_hash ∷ " for file " ∷ file_hash ∷ " through channel "
      ∷ channel ∷ not_sent ∷ [])
  to_string (could_not_send_info_response file_hash channel) = format (
      "The peer block info response for file " ∷ file_hash ∷ " through channel " ∷ channel
      ∷ not_sent ∷ [])
  to_string (send_block_to_error id) = format (
      "The block "
      ∷ id.block_hash
      ∷ " of file "
      ∷ id.file_hash
      ∷ " could not be sent to "
      ∷ p.display_peer id.peer_id
      ∷ [])
  to_string (send_block_to_already_started id) = format (
      "This SendBlockTo request to "
      ∷ p.debug_peer id.peer_id
      ∷ " for file hash "
      ∷ id.file_hash
      ∷ " / block hash "
      ∷ id.block_hash
      ∷ " is already being handled"
      ∷ [])
  to_string (send_block_list_failed final_block_distribution context) = format (
      "Send block list failed with a final block distribution of "
      ∷ p.debug_distribution final_block_distribution
      ∷ ", due to "
      ∷ show_context context
      ∷ [])

  -- `format!("{}: {}", self, msg)`
  abbrev with_message : DragoonError → String → String
  with_message e msg = push_str (to_string e) (push_str ": " msg)

  -- The text half of `into_response`: six errors add their message, which the others have printed already.
  unfoldable pub err_msg : DragoonError → String
  unfolding to_string
  err_msg (unexpected_error msg) = with_message (unexpected_error msg) msg
  err_msg (bad_listener msg) = with_message (bad_listener msg) msg
  err_msg (dial_error msg) = with_message (dial_error msg) msg
  err_msg (provider_error msg) = with_message (provider_error msg) msg
  err_msg (bootstrap_error msg) = with_message (bootstrap_error msg) msg
  err_msg (no_parent_directory msg) = with_message (no_parent_directory msg) msg
  err_msg (could_not_send_block_response block_hash file_hash channel_string) = format (
      "The block response of block " ∷ block_hash ∷ " for file " ∷ file_hash ∷ " through channel "
      ∷ channel_string ∷ not_sent ∷ [])
  err_msg (could_not_send_info_response file_hash channel_string) = format (
      "The peer block info response for file " ∷ file_hash ∷ " through channel " ∷ channel_string
      ∷ not_sent ∷ [])
  err_msg (send_block_to_error id) = format (
      "The block "
      ∷ id.block_hash
      ∷ " of file "
      ∷ id.file_hash
      ∷ " could not be sent to "
      ∷ p.display_peer id.peer_id
      ∷ [])
  err_msg (send_block_to_already_started id) = format (
      "This SendBlockTo request to "
      ∷ p.debug_peer id.peer_id
      ∷ " for file hash "
      ∷ id.file_hash
      ∷ " / block hash "
      ∷ id.block_hash
      ∷ " is already being handled"
      ∷ [])
  err_msg (send_block_list_failed final_block_distribution context) = format (
      "Send block list failed with a final block distribution of "
      ∷ p.debug_distribution final_block_distribution
      ∷ ", due to "
      ∷ show_context context
      ∷ [])

  -- A text with the message of the error, for the six errors whose answer adds it.
  abbrev extended : DragoonError → String → String
  extended (unexpected_error msg) s = push_str s (push_str ": " msg)
  extended (bad_listener msg) s = push_str s (push_str ": " msg)
  extended (dial_error msg) s = push_str s (push_str ": " msg)
  extended (provider_error msg) s = push_str s (push_str ": " msg)
  extended (bootstrap_error msg) s = push_str s (push_str ": " msg)
  extended (no_parent_directory msg) s = push_str s (push_str ": " msg)
  extended _ s = s

  -- The answer to an error is what the error is printed as, extended by its message where it has one of
  -- the six that `into_response` adds.
  pub err_msg-to_string : (e : DragoonError) → err_msg e ≡ extended e (to_string e)
  unfolding err_msg to_string
  err_msg-to_string (unexpected_error msg) = refl
  err_msg-to_string (bad_listener msg) = refl
  err_msg-to_string (dial_error msg) = refl
  err_msg-to_string (provider_error msg) = refl
  err_msg-to_string (bootstrap_error msg) = refl
  err_msg-to_string (no_parent_directory msg) = refl
  err_msg-to_string (could_not_send_block_response b f c) = refl
  err_msg-to_string (could_not_send_info_response f c) = refl
  err_msg-to_string (send_block_to_error id) = refl
  err_msg-to_string (send_block_to_already_started id) = refl
  err_msg-to_string (send_block_list_failed sent context) = refl
