-- ===== src/SendList/Resend.antt =====
-- To whom a refused block is sent again.
use dragoonfly.Base.{
  ℕ, ◌<◌, ◌≤◌, ◌≡◌, ◌≢◌, ◌∙◌, subst, some, get_elem?, arith, Option-cases, inl, inr, nat_eq,
}
use dragoonfly.Base.Result.{ok, Result-cases}
use dragoonfly.Strategy.{PeerId, SendId, BlockInput, block_of}
use dragoonfly.SendList.Recovery.{Peers, drop_peer, take_peer, handle_rejected_block}
use dragoonfly.SendList.Vectors.{count, position, position-none, count-remove_at, count-get_elem?}

abbrev pub times : PeerId → Peers → ℕ
times p s = count p s.accepted_peers

drop_peer-times-le : (s : Peers) (p q : PeerId) → times q (drop_peer s (some p)) ≤ times q s
unfolding drop_peer
drop_peer-times-le s p q = elim (Option-cases (position p s.accepted_peers)) [
  | inl e ↦ ground arith
  | inr (i, e) ↦ ground (arith, count-remove_at p q s.accepted_peers i e)
]

drop_peer-times_self : (s : Peers) (p : PeerId) → times p s ≤ 1 → times p (drop_peer s (some p)) ≡ 0
unfolding drop_peer
drop_peer-times_self s p h = elim (Option-cases (position p s.accepted_peers)) [
  | inl e ↦ ground (arith, position-none p s.accepted_peers e)
  | inr (i, e) ↦ ground (arith, count-remove_at p p s.accepted_peers i e)
]

pub take_peer-times : (s s' : Peers) (p : PeerId) → take_peer s ≡ ok (p, s') → 0 < times p s
unfolding take_peer
take_peer-times s s' p h = elim (Option-cases (get_elem? s.accepted_peers s.accepted_peers_index)) [
  | inl e ↦ absurd (ground arith)
  | inr (q, e) ↦ ground (arith, count-get_elem? q s.accepted_peers s.accepted_peers_index e)
]

pub take_peer-accepted :
    (s s' : Peers) (p : PeerId) → take_peer s ≡ ok (p, s') → s'.accepted_peers ≡ s.accepted_peers
unfolding take_peer
take_peer-accepted s s' p h =
    elim (Option-cases (get_elem? s.accepted_peers s.accepted_peers_index)) [
      | inl e ↦ absurd (ground arith)
      | inr (q, e) ↦ ground arith
    ]

-- If `handle_rejected_block` succeeds after a refusal by a peer that is at most once in the list, then the
-- block goes, unchanged, to another peer of the list, and the peer that refused is not in it any more.
pub handle_rejected_block-other_peer :
    (p : PeerId) (b : BlockInput) (s s' : Peers) (cmd : SendId)
    → times p s ≤ 1
    → handle_rejected_block (some p) b s ≡ ok (cmd, s')
    → (block_of cmd ≡ b) × (cmd.peer_id ≢ p) × (0 < times cmd.peer_id s) × (times p s' ≡ 0)
unfolding handle_rejected_block
handle_rejected_block-other_peer p b s s' cmd once h =
    let t = drop_peer s (some p) in
    elim (Result-cases (take_peer t)) [
      | inr (c, q) ↦ absurd (ground arith)
      | inl ((x, t'), q) ↦
          let same : x ≡ cmd.peer_id = ground arith in
          let kept : t' ≡ s' = ground arith in
          let gone = drop_peer-times_self s p once in
          let some_x = take_peer-times t t' x q in
          (
            ground arith,
            λ e. omega (arith, subst (λ z. 0 < times z t) (same ∙ e) some_x, gone),
            ground (arith, drop_peer-times-le s p x),
            ground (arith, take_peer-accepted t t' x q),
          )
    ]
