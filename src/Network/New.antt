-- ===== src/Network/New.antt =====
-- `DragoonNetwork::new` and `create_block_dir`: the state of a node that starts.
use dragoonfly.Base.{ℕ, Bool, String, Option, none, some, List, [], ◌∷◌, if◌then◌else◌}
use dragoonfly.Base.Result.{Result, ok, err}
use dragoonfly.Strategy.{PeerId}
use dragoonfly.Paths.{FilePath}
use dragoonfly.Network.Defs.{format, NodeError, other_error, Action, created_dir, removed_dir, Node}
use dragoonfly.Network.Outside.{Outside}

abbrev pub base_path : Outside → PeerId → FilePath
base_path w peer_id = w.resolve (format "~/.share/dragoonfly/" (w.to_base58 peer_id) "/files")

-- What becomes of the directory of an earlier start; an error is ignored.
abbrev pub replace_base : Outside → Bool → FilePath → List Action
replace_base w replace base =
    if replace then (if w.remove_dir_all base then removed_dir base ∷ [] else []) else []

-- `create_block_dir`: the base path, with the calls that have changed the disk, newest first.
unfoldable pub create_block_dir : Outside → PeerId → Bool → Result NodeError FilePath × List Action
create_block_dir w peer_id replace =
    let base = base_path w peer_id in
    let done = replace_base w replace base in
    if w.metadata base
    then (ok base, done)
    else (if w.create_dir_all base
        then (ok base, created_dir base ∷ done)
        else (err other_error, done))

abbrev pub label_or_id : Outside → PeerId → Option String → String
label_or_id w peer_id (some label) = label
label_or_id w peer_id none = w.to_base58 peer_id

abbrev pub fresh_node : PeerId → String → ℕ → List Action → FilePath → Node
fresh_node peer_id label total_available_storage done file_dir = record {
  local_peer_id = peer_id;
  label = label;
  file_dir = file_dir;
  listeners = [];
  storage = record { available = total_available_storage; used = 0; reserved = 0 };
  known_peer_id = [];
  pending_dial = [];
  pending_send_block_to = [];
  pending_start_providing = [];
  pending_get_providers = [];
  pending_request_block_info = [];
  pending_request_block = [];
  tasks = [];
  queue = [];
  actions = done;
  senders = [];
  answered = [];
  dropped = [];
}

abbrev pub in_dir : PeerId → String → ℕ → Result NodeError FilePath × List Action → Option Node
in_dir peer_id label total_available_storage (err x, done) = none
in_dir peer_id label total_available_storage (ok file_dir, done) =
    some (fresh_node peer_id label total_available_storage done file_dir)

-- `new`, which panics when there is no directory.
unfoldable pub new : Outside → PeerId → Option String → ℕ → Bool → Option Node
unfolding create_block_dir
new w peer_id maybe_label total_available_storage replace =
    in_dir peer_id (label_or_id w peer_id maybe_label) total_available_storage
      (create_block_dir w peer_id replace)
