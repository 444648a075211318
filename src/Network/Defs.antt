-- ===== src/Network/Defs.antt =====
-- The state of `DragoonNetwork`, and what goes back through the channels of its commands.
use Prim.Native.String.{◌++◌ as push_str}
use dragoonfly.Base.{ℕ, Bool, String, Option, none, some, List, ◌∷◌}
use dragoonfly.Base.Result.{Result}
use dragoonfly.Errors.{DragoonError}
use dragoonfly.Paths.{FilePath}
use dragoonfly.Strategy.{PeerId, SendId, StrategyName}
use dragoonfly.Exchange.World.{PeerBlockInfo}
use dragoonfly.Storage.Ledger.{Ledger, StorageAnswer}
use dragoonfly.Network.SendBlockTo.{Entry}

-- The two ends of `format!` with one hole.
abbrev pub format : String → String → String → String
format before text after = push_str before (push_str text after)

-- The sending end of a channel on which a command is to be answered; its clones have the same number.
abbrev pub Channel : Type 0
Channel = ℕ

-- `Multiaddr`, as the list that its `iter` runs over.
pub data Protocol : Type 0 where
  p2p : PeerId → Protocol
  other_protocol : String → Protocol

abbrev pub Multiaddr : Type 0
Multiaddr = List Protocol

-- `BlockResponse`
pub record BlockResponse : Type 0 where
  pub file_hash : String
  pub block_hash : String
  pub block_data : List ℕ

-- The counters of `NetworkInfo` that `SerNetworkInfo` copies.
pub record NetworkInfo : Type 0 where
  pub peers : ℕ
  pub pending : ℕ
  pub connections : ℕ
  pub established : ℕ
  pub pending_incoming : ℕ
  pub pending_outgoing : ℕ
  pub established_incoming : ℕ
  pub established_outgoing : ℕ

-- What a command is answered with.
pub data Value : Type 0 where
  nothing : Value
  number : ℕ → Value
  flag : Bool → Value
  storage_text : StorageAnswer → Value
  strings : List String → Value
  addresses : List Multiaddr → Value
  peers : List PeerId → Value
  path : FilePath → Value
  info : PeerBlockInfo → Value
  block : Option BlockResponse → Value
  node : PeerId → String → Value
  network : NetworkInfo → Value
  hashes : String → String → Value
  distribution : List SendId → Value
  sent : Bool → SendId → Value

-- `anyhow::Error`: one of the node's own errors, or one of the file system or of another crate.
pub data NodeError : Type 0 where
  dragoon : DragoonError → NodeError
  dials_failed : ℕ → NodeError
  other_error : NodeError

-- A call into the swarm or the file system that changes something there.
pub data Action : Type 0 where
  listened dialled : Multiaddr → Action
  removed_listener : ℕ → Action
  added_address : PeerId → Multiaddr → Action
  stopped_providing : String → Action
  finished_query : ℕ → Action
  requested_block : PeerId → (file_hash block_hash : String) → Action
  requested_info : PeerId → (file_hash : String) → Action
  responded_block : BlockResponse → Action
  responded_info : PeerBlockInfo → Action
  created_dir removed_dir : FilePath → Action
  wrote : FilePath → List ℕ → Action
  dumped_blocks : FilePath → List (List ℕ) → Action

-- The tasks that `handle_command` spawns, each of which answers one command when it ends.
-- `get_providers_task` has the messages that its stream still reads, after which the channel is closed.
pub data Task : Type 0 where
  get_file_task : (file_hash output_filename : String) → Task
  dial_multiple_task : (dial_recv : Channel) → Task
  get_providers_task : List (Option (List PeerId)) → Task
  send_block_to_task : (peer_id : PeerId) (block_hash file_hash : String) → Task
  send_block_list_task :
      (strategy_name : StrategyName) (file_hash : String) (block_list : List String) → Task

-- A command that the node has put into its own queue: `DialSingle`, from `DialMultiple`.
abbrev pub Queued : Type 0
Queued = String × Channel

-- The fields of `DragoonNetwork`. A query for providers is kept with the command that waits for it and
-- the messages that were sent to its stream, in order; `none` is an error. The fields from `tasks` on
-- are outside of the structure: the tasks that run, the commands that the node has sent to itself, the
-- calls it has made, newest first, the senders that it was given or has cloned, the answers that have
-- gone through one, and those that were dropped with no answer.
pub record Node : Type 0 where
  pub local_peer_id : PeerId
  pub label : String
  pub file_dir : FilePath
  pub listeners : List (ℕ × ℕ)
  pub storage : Ledger
  pub known_peer_id : List PeerId
  pub pending_dial : List (String × Channel)
  pub pending_send_block_to : List Entry
  pub pending_start_providing : List (ℕ × Channel)
  pub pending_get_providers : List (ℕ × (Channel × List (Option (List PeerId))))
  pub pending_request_block_info : List (ℕ × Channel)
  pub pending_request_block : List (ℕ × (Bool × Channel))
  pub tasks : List (Channel × Task)
  pub queue : List Queued
  pub actions : List Action
  pub senders : List Channel
  pub answered : List (Channel × Result NodeError Value)
  pub dropped : List Channel

-- `sender_send_match`: an answer to a receiver that is gone is only logged.
abbrev pub sender_send_match : Channel → Result NodeError Value → Node → Node
sender_send_match c res n = record n { answered = (c, res) ∷ n.answered }

-- A sender goes out of scope.
abbrev pub drop_sender : Channel → Node → Node
drop_sender c n = record n { dropped = c ∷ n.dropped }

-- `insert` drops the sender that it replaces.
abbrev pub drop_replaced : Option Channel → Node → Node
drop_replaced none n = n
drop_replaced (some c) n = drop_sender c n

abbrev pub spawn : Channel → Task → Node → Node
spawn c task n = record n { tasks = (c, task) ∷ n.tasks }

abbrev pub act : Action → Node → Node
act a n = record n { actions = a ∷ n.actions }
