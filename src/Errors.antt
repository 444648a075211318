-- ===== src/Errors.antt =====
-- error.rs: the errors of the node, and the HTTP status that each is answered with.
pub mod Texts
use dragoonfly.Base.{ℕ, String, List}
use dragoonfly.Strategy.{SendId}

-- The text of a failed SendBlockList, as the data that it is formatted from.
pub data Context : Type 0 where
  more_blocks_than_expected : String → Context
  no_more_peers : Context
  invalid_index : ℕ → ℕ → Context
  not_all_blocks_sent : Context

pub data DragoonError : Type 0 where
  bad_listener dial_error unexpected_error provider_error bootstrap_error no_parent_directory :
      String → DragoonError
  could_not_send_block_response : String → String → String → DragoonError
  could_not_send_info_response : String → String → DragoonError
  send_block_to_error send_block_to_already_started : SendId → DragoonError
  send_block_list_failed : List SendId → Context → DragoonError

-- The HTTP status codes that `into_response` chooses from.
pub data StatusCode : Type 0 where
  ok_status bad_request request_timeout too_many_requests internal_server_error : StatusCode

-- The status half of `into_response`.
unfoldable pub into_response : DragoonError → StatusCode
into_response (unexpected_error _) = internal_server_error
into_response (bad_listener _) = bad_request
into_response (dial_error _) = bad_request
into_response (provider_error _) = bad_request
into_response (bootstrap_error _) = bad_request
into_response (no_parent_directory _) = bad_request
into_response (could_not_send_block_response _ _ _) = request_timeout
into_response (could_not_send_info_response _ _) = request_timeout
into_response (send_block_to_error _) = internal_server_error
into_response (send_block_to_already_started _) = too_many_requests
into_response (send_block_list_failed _ _) = internal_server_error
