-- ===== src/SendList/Pending.antt =====
-- The pending sends of the recuperation, and a retry.
use dragoonfly.Base.{
  ℕ, zero, suc, ◌+◌, ◌≤◌, ◌<◌, ◌≡◌, refl, sym, ◌∙◌, subst, some, List, [], ◌∷◌, ◌++◌, length,
  get_elem?, nat_beq, if◌then◌else◌, arith, inl, inr, Option-cases, nat_eq, string_eq, pair_eq,
}
use dragoonfly.Base.Sets.{beq_refl}
use dragoonfly.Base.Result.{ok, Result-cases, ok-injective}
use dragoonfly.Strategy.{PeerId, SendId, BlockInput, block_of, send_id}
use dragoonfly.SendList.Recovery.{
  Peers, Recovery, drop_peer, take_peer, handle_rejected_block, retry,
}
use dragoonfly.SendList.Vectors.{
  count, position, remove_at, position-none, position-lt, length-remove_at, count-remove_at,
}
use dragoonfly.SendList.Answers.{blocks_of}
use dragoonfly.SendList.Resend.{times, take_peer-accepted, take_peer-times}

-- A send that is removed from the pending ones.
pub get_remove-count :
    (b : BlockInput) (cs : List SendId) (i : ℕ) (c : SendId)
    → get_elem? cs i ≡ some c
    → count b (blocks_of cs) ≡ count b (block_of c ∷ []) + count b (blocks_of (remove_at i cs))
unfolding remove_at
get_remove-count b [] i c h = cc
get_remove-count b (x ∷ xs) zero c h = ground arith
get_remove-count b (x ∷ xs) (suc i) c h = ground (arith, get_remove-count b xs i c h)

-- Sends to peers that are not in the list any more.
abbrev pub stray : List PeerId → SendId → ℕ
stray ps c = if nat_beq (count c.peer_id ps) 0 then 1 else 0

abbrev pub strays : List PeerId → List SendId → ℕ
strays ps [] = 0
strays ps (c ∷ cs) = stray ps c + strays ps cs

pub strays-le : (ps : List PeerId) (cs : List SendId) → strays ps cs ≤ length cs
strays-le ps [] = omega arith
strays-le ps (c ∷ cs) = ground (arith, strays-le ps cs)

pub strays-append :
    (ps : List PeerId) (xs ys : List SendId) → strays ps (xs ++ ys) ≡ strays ps xs + strays ps ys
strays-append ps [] ys = omega arith
strays-append ps (x ∷ xs) ys = ground (arith, strays-append ps xs ys)

pub get_remove-strays :
    (ps : List PeerId) (cs : List SendId) (i : ℕ) (c : SendId)
    → get_elem? cs i ≡ some c
    → strays ps cs ≡ stray ps c + strays ps (remove_at i cs)
unfolding remove_at
get_remove-strays ps [] i c h = cc
get_remove-strays ps (x ∷ xs) zero c h = ground arith
get_remove-strays ps (x ∷ xs) (suc i) c h = ground (arith, get_remove-strays ps xs i c h)

pub get_remove-length :
    (cs : List SendId) (i : ℕ) (c : SendId)
    → get_elem? cs i ≡ some c
    → length (remove_at i cs) + 1 ≡ length cs
unfolding remove_at
get_remove-length [] i c h = cc
get_remove-length (x ∷ xs) zero c h = omega arith
get_remove-length (x ∷ xs) (suc i) c h = omega (arith, get_remove-length xs i c h)

-- A peer in the list leaves it; any other leaves the list as it is.
pub drop_peer-length :
    (s : Peers) (p : PeerId)
    → 0 < times p s
    → length (drop_peer s (some p)).accepted_peers + 1 ≡ length s.accepted_peers
unfolding drop_peer
drop_peer-length s p h = elim (Option-cases (position p s.accepted_peers)) [
  | inl e ↦ absurd (omega (arith, position-none p s.accepted_peers e))
  | inr (i, e) ↦
      ground (arith, length-remove_at i s.accepted_peers, position-lt p s.accepted_peers i e)
]

pub drop_peer-absent : (s : Peers) (p : PeerId) → times p s ≡ 0 → drop_peer s (some p) ≡ s
unfolding drop_peer
drop_peer-absent s p h = elim (Option-cases (position p s.accepted_peers)) [
  | inl e ↦ ground arith
  | inr (i, e) ↦ absurd (ground (arith, count-remove_at p p s.accepted_peers i e, beq_refl p))
]

-- A retry sends one command, for the same block and to a peer of the list.
pub record Retried (r r' : Recovery) (id cmd : SendId) : Type 0 where
  pub commands : r'.commands ≡ r.commands ++ cmd ∷ []
  pub same_block : block_of cmd ≡ block_of id
  pub listed : 0 < times cmd.peer_id r'.peers
  pub peers : r'.peers.accepted_peers ≡ (drop_peer r.peers (some id.peer_id)).accepted_peers
  pub rejected : r'.rejected_blocks ≡ r.rejected_blocks

pub retry-Retried :
    (r r' : Recovery) (id : SendId) → retry r id ≡ ok r' → (cmd : SendId) × Retried r r' id cmd
unfolding retry handle_rejected_block
retry-Retried r r' id h =
    let s = drop_peer r.peers (some id.peer_id) in
    elim (Result-cases (take_peer s)) [
      | inr (c, q) ↦ absurd (ground arith)
      | inl ((p, s'), q) ↦
          let cmd = send_id p (block_of id) in
          let moved = record r { peers = s'; commands = r.commands ++ cmd ∷ [] } in
          let runs : retry r id ≡ ok moved = ground arith in
          let same = take_peer-accepted s s' p q in
          (
            cmd,
            subst (λ z. Retried r z id cmd) (ok-injective (sym runs ∙ h))
                (record {
                  commands = refl;
                  same_block = refl;
                  listed = ground (arith, same, take_peer-times s s' p q);
                  peers = same;
                  rejected = refl;
                }),
          )
    ]
