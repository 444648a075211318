-- ===== src/Network/Outside.antt =====
-- What one step of the node is told by the code that is not its own: the swarm of libp2p, komodo, the
-- file system. The answers may differ from one step to the next.
use dragoonfly.Base.{ℕ, Bool, String, Option, List}
use dragoonfly.Base.Result.{Result}
use dragoonfly.Paths.{FilePath}
use dragoonfly.Strategy.{PeerId}
use dragoonfly.Network.Defs.{Multiaddr, NetworkInfo, Channel}

-- libp2p's error of `listen_on`
pub data TransportError : Type 0 where
  multiaddr_not_supported : Multiaddr → TransportError
  other : String → TransportError

-- `listener_number` is the number that the node reads in the text of a `ListenerId`.
-- `start_providing`, `get_providers` and `send_request` answer with the number of a query or a
-- request, `dial` and `bootstrap` with the text of their error, if any. `read_dir` is the list of what
-- `next_entry` answers: an error, or a name, which may not be a valid text.
pub record Outside : Type 1 where
  pub parse : String → Option Multiaddr
  pub to_string : Multiaddr → String
  pub to_base58 : PeerId → String
  pub show_number : ℕ → String
  pub listen_on : Multiaddr → Result TransportError ℕ
  pub listener_number : ℕ → ℕ
  pub remove_listener : ℕ → Bool
  pub listeners : List Multiaddr
  pub network_info : NetworkInfo
  pub connected_peers : List PeerId
  pub dial : Multiaddr → Option String
  pub start_providing : String → Option ℕ
  pub get_providers : String → ℕ
  pub bootstrap : Option String
  pub send_request : ℕ
  pub query_mut : ℕ → Bool
  pub send_response : Bool
  pub unbounded_channel : Channel
  pub resolve : String → FilePath
  pub metadata : FilePath → Bool
  pub show_path : FilePath → String
  pub parent : FilePath → Option FilePath
  pub read_dir : FilePath → Option (List (Option (Option String)))
  pub read_file : FilePath → Option (List ℕ)
  pub try_exists : FilePath → Option Bool
  pub create_dir_all : FilePath → Bool
  pub remove_dir_all : FilePath → Bool
  pub create_file : FilePath → Bool
  pub write_all : FilePath → List ℕ → Bool
  pub sha256 : List ℕ → List ℕ
  -- komodo
  pub Shard : Type 0
  pub Block : Type 0
  pub Matrix : Type 0
  pub Powers : Type 0
  pub Proof : Type 0
  pub shard : Block → Shard
  pub read_blocks : List String → FilePath → Option (List Block)
  pub decode : List Shard → Option (List ℕ)
  pub vandermonde : (points : List ℕ) → ℕ → Option Matrix
  pub random : ℕ → ℕ → Matrix
  pub encode : List ℕ → Matrix → Option (List Shard)
  pub powers : Option Powers
  pub prove : List ℕ → Powers → ℕ → Option Proof
  pub build : List Shard → Proof → List Block
  pub serialize : Block → List ℕ
  pub dump_blocks : List Block → FilePath → Option String
