-- ===== src/Strategy/RoundRobin/Blocks.antt =====
-- The blocks that the round robin sends.
use dragoonfly.Base.{
  ◌<◌, ◌≡◌, refl, none, some, List, [], ◌∷◌, map, length, get_elem?, arith, inl, inr, ◌⊎◌,
  get_elem?-some, length-append,
}
use dragoonfly.Strategy.{PeerId, BlockInput, block_of, send_id}
use dragoonfly.Base.Result.{ok}
use dragoonfly.Strategy.Laws.{Serves, Served, stream-blocks}
use dragoonfly.Strategy.RoundRobin.{
  RobinDistribution, default, choose_next_peer_block, robin_stream, next_index,
}

-- The index is in range, or it is still 0 and a peer comes before it is used.
abbrev Ready : RobinDistribution → List PeerId → Type 0
Ready s peers =
    (s.round_index < length s.already_seen_peers) ⊎ ((s.round_index ≡ 0) × (0 < length peers))

choose_cycles :
    (s : RobinDistribution) (b : BlockInput) (p : PeerId)
    → get_elem? s.already_seen_peers s.round_index ≡ some p
    → choose_next_peer_block s none b ≡ (
      record s { round_index = next_index s.round_index (length s.already_seen_peers) },
      ok (send_id p b),
    )
unfolding choose_next_peer_block
choose_cycles s b p e = ground arith

robin_serves :
    (s : RobinDistribution) (peers : List PeerId) (b : BlockInput)
    → Ready s peers
    → Served choose_next_peer_block Ready (λ _. Unit {0}) s peers b
unfolding choose_next_peer_block
robin_serves s [] b (inl h) =
    let (p, e) = get_elem?-some s.already_seen_peers s.round_index h in
    (p, _, choose_cycles s b p e, tt, inl (ground arith))
robin_serves s [] b (inr (_, h)) = absurd (omega arith)
robin_serves s (p ∷ ps) b h =
    (p, _, refl, tt, inl (ground (arith, length-append s.already_seen_peers (p ∷ []))))

robin-Serves : Serves choose_next_peer_block Ready (λ _. Unit {0})
robin-Serves = record { serves = robin_serves }

-- Round robin: if any peer is known, the stream yields each block of the list once, in its order.
pub robin_stream-blocks :
    (peers : List PeerId) (blocks : List BlockInput)
    → 0 < length peers
    → map block_of (robin_stream peers blocks) ≡ blocks
unfolding robin_stream
robin_stream-blocks peers blocks h = stream-blocks robin-Serves default peers blocks (inr (refl, h))
