-- ===== src/Strategy/RoundRobin.antt =====
-- send_strategy_impl/round_robin.rs: new peers in the order in which they come, then a cycle over
-- the peers already seen.
pub mod Cycle
pub mod Blocks
use dragoonfly.Base.{ℕ, ◌+◌, none, some, List, [], ◌∷◌, ◌++◌, length, get_elem?, leb, if◌then◌else◌}
use dragoonfly.Base.Result.{ok, err}
use dragoonfly.Strategy.{
  PeerId, BlockInput, SendId, Chooser, StrategyError, no_peers, send_id, get_send_stream,
}

pub record RobinDistribution : Type 0 where
  pub already_seen_peers : List PeerId
  pub round_index : ℕ

-- `RobinDistribution::default()`.
abbrev pub default : RobinDistribution
default = record { already_seen_peers = []; round_index = 0 }

abbrev pub next_index : ℕ → ℕ → ℕ
next_index index len = if leb len (index + 1) then 0 else index + 1

unfoldable pub choose_next_peer_block : Chooser RobinDistribution
choose_next_peer_block s (some p) block =
    (record s { already_seen_peers = s.already_seen_peers ++ p ∷ [] }, ok (send_id p block))
choose_next_peer_block s none block = elim (get_elem? s.already_seen_peers s.round_index) [
  | some p ↦ (
    record s { round_index = next_index s.round_index (length s.already_seen_peers) },
    ok (send_id p block),
  )
  | none ↦ (s, err no_peers)
]

unfoldable pub robin_stream : List PeerId → List BlockInput → List SendId
unfolding get_send_stream choose_next_peer_block
robin_stream peers blocks = get_send_stream choose_next_peer_block default peers blocks
