-- ===== src/Strategy/Defs.antt =====
-- send_strategy.rs: `SendId`, the trait `SendStrategy` and its stream.
use dragoonfly.Base.{ℕ, String, Option, List, [], ◌∷◌, head?, tail}
use dragoonfly.Base.Result.{Result, ok, err}

abbrev pub PeerId : Type 0
PeerId = ℕ

pub record SendId : Type 0 where
  pub peer_id : PeerId
  pub file_hash : String
  pub block_hash : String

-- The file hash and the block hash of one block, which is `BlockInput` of both strategies.
abbrev pub BlockInput : Type 0
BlockInput = String × String

pub data StrategyName : Type 0 where
  random round_robin : StrategyName

-- The one failure of `choose_next_peer_block`: the stream of peers was empty.
pub data StrategyError : Type 0 where
  no_peers : StrategyError

abbrev pub send_id : PeerId → BlockInput → SendId
send_id p (file_hash, block_hash) = record {
  peer_id = p;
  file_hash = file_hash;
  block_hash = block_hash;
}

abbrev pub block_of : SendId → BlockInput
block_of s = (s.file_hash, s.block_hash)

-- A `&mut self` method returns the strategy as the call leaves it, with the call's result.
abbrev pub Chooser {ℓ} : Type ℓ → Type ℓ
Chooser S = S → Option PeerId → BlockInput → S × Result StrategyError SendId

-- The trait's stream: each round takes a block, then a peer if one is left; a failure ends it.
unfoldable pub get_send_stream {ℓ} :
    {S : Type ℓ} → Chooser S → S → List PeerId → List BlockInput → List SendId
get_send_stream choose s peers [] = []
get_send_stream choose s peers (block ∷ blocks) =
    let (s', res) = choose s (head? peers) block in
    let rest = get_send_stream choose s' (tail peers) blocks in
    elim res [ ok id ↦ id ∷ rest | err _ ↦ [] ]
