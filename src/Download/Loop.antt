-- ===== src/Download/Loop.antt =====
-- `download_first_k_blocks`, once the powers are read. ark_serialize and komodo are
-- parameters, as is the reading of a peer id by bs58 and libp2p.
use dragoonfly.Base.{
  ℕ, ◌+◌, ◌%◌, ◌^◌, String, Bool, true, false, Option, none, some, List, [], ◌∷◌, ◌++◌, leb,
  if◌then◌else◌, string_eq,
}
use dragoonfly.Base.Sets.{contains}
use dragoonfly.Strategy.{PeerId}
use dragoonfly.Exchange.World.{PeerBlockInfo}

-- The other crates: `verify` and `dump` have no answer where they return an error.
pub record Codec : Type 1 where
  pub Block : Type 0
  pub deserialize : List ℕ → Option Block
  pub k : Block → ℕ
  pub verify : Block → Option Bool
  pub dump : Block → Option (Unit {0})
  pub from_base_58 : String → Option PeerId

-- The fields of `BlockResponse` that the loop reads.
pub record BlockResponse : Type 0 where
  pub block_hash : String
  pub block_data : List ℕ

-- What the select reads: an answer about the blocks of a peer, or an answer to GetBlockFrom, where `none`
-- is an error, and for a block `some none` says that it was saved to disk.
pub data Received : Type 0 where
  info : Option PeerBlockInfo → Received
  block : Option (Option BlockResponse) → Received

-- The variables of the loop, and the GetBlockFrom commands sent so far.
pub record Download : Type 0 where
  pub already_request_block : List String
  pub requests : List (PeerId × String)
  pub number_of_blocks_written : ℕ
  pub block_hashes_on_disk : List String

abbrev pub start : Download
start = record {
  already_request_block = [];
  requests = [];
  number_of_blocks_written = 0;
  block_hashes_on_disk = [];
}

-- How a round of the loop ends: with another one, by `break`, by `?`, or by a panic.
pub data Turn : Type 0 where
  continues breaks fails : Download → Turn
  panics : Turn

-- `filter(|x| !already_request_block.contains(x))`
unfoldable pub blocks_to_request : List String → List String → List String
blocks_to_request already [] = []
blocks_to_request already (h ∷ hs) =
    let rest = blocks_to_request already hs in if contains already h then rest else h ∷ rest

-- A request is sent for each of them and noted, while the network task takes commands.
unfoldable pub request_blocks : Bool → PeerId → List String → Download → Download
request_blocks can_send peer_id [] d = d
request_blocks can_send peer_id (h ∷ hs) d = request_blocks can_send peer_id hs (
    if can_send
    then record d {
      already_request_block = d.already_request_block ++ h ∷ [];
      requests = d.requests ++ (peer_id, h) ∷ [];
    }
    else d)

module _ (c : Codec) where
  -- The peer id of an answer is read, and what is new of its blocks is requested.
  abbrev pub on_peer : Bool → Download → List String → Option PeerId → Turn
  on_peer can_send d hashes none = panics
  on_peer can_send d hashes (some peer_id) =
      continues
        (request_blocks can_send peer_id (blocks_to_request d.already_request_block hashes) d)

  unfoldable pub on_info : Bool → Download → Option PeerBlockInfo → Turn
  unfolding blocks_to_request request_blocks
  on_info can_send d none = fails d
  on_info can_send d (some i) = on_peer can_send d i.block_hashes (c.from_base_58 i.peer_id_base_58)

  -- A verified block that is on disk.
  unfoldable pub on_written : Download → String → c.Block → Turn
  on_written d hash b =
      let n = (d.number_of_blocks_written + 1) % 2 ^ 32 in
      let d' = record d {
        number_of_blocks_written = n;
        block_hashes_on_disk = d.block_hashes_on_disk ++ hash ∷ [];
      } in
      if leb (c.k b) n then breaks d' else continues d'

  abbrev pub on_dumped : Download → String → c.Block → Option (Unit {0}) → Turn
  on_dumped d hash b none = fails d
  on_dumped d hash b (some _) = on_written d hash b

  abbrev pub on_verified : Download → String → c.Block → Option Bool → Turn
  on_verified d hash b none = fails d
  on_verified d hash b (some false) = panics
  on_verified d hash b (some true) = on_dumped d hash b (c.dump b)

  abbrev pub on_parsed : Download → String → Option c.Block → Turn
  on_parsed d hash none = continues d
  on_parsed d hash (some b) = on_verified d hash b (c.verify b)

  unfoldable pub on_block : Download → Option (Option BlockResponse) → Turn
  unfolding on_written
  on_block d none = panics
  on_block d (some none) = continues d
  on_block d (some (some r)) = on_parsed d r.block_hash (c.deserialize r.block_data)

  unfoldable pub on_received : Bool → Download → Received → Turn
  unfolding on_info on_block
  on_received can_send d (info i) = on_info can_send d i
  on_received can_send d (block b) = on_block d b

  -- The loop over what is received until the time-out of ten seconds. `waits` is the time-out.
  pub data Outcome : Type 0 where
    downloads errors waits : Download → Outcome
    panicked : Outcome

  unfoldable pub download_first_k_blocks : Bool → List Received → Download → Outcome
  unfolding on_received
  download_first_k_blocks can_send [] d = waits d
  download_first_k_blocks can_send (r ∷ rs) d = elim (on_received can_send d r) [
    | continues d' ↦ download_first_k_blocks can_send rs d'
    | breaks d' ↦ downloads d'
    | fails d' ↦ errors d'
    | panics ↦ panicked
  ]
