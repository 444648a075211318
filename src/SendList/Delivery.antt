-- ===== src/SendList/Delivery.antt =====
-- The stream of a SendBlockList, and when `send_block_list` returns.
use dragoonfly.Base.{
  ℕ, String, ◌+◌, ◌<◌, ◌≡◌, refl, sym, ap, ◌∙◌, subst, true, List, [], ◌∷◌, ◌++◌, map, append_assoc,
  length, arith, inl, inr, Option-cases, Bool-cases, nat_eq, string_eq, pair_eq, if◌then◌else◌,
  nat_beq, get_elem?, leb, le_of_get_elem?-none,
}
use dragoonfly.Base.Result.{ok}
use dragoonfly.Errors.{not_all_blocks_sent}
use dragoonfly.Strategy.{
  PeerId, SendId, BlockInput, StrategyName, random, round_robin, block_of, send_id,
}
use dragoonfly.Strategy.Sort.{sort, length-sort}
use dragoonfly.Strategy.Random.{SliceRandom, random_stream-blocks}
use dragoonfly.Strategy.RoundRobin.Blocks.{robin_stream-blocks}
use dragoonfly.SendList.Defs.{Answer, zip, block_inputs, send_stream}
use dragoonfly.SendList.Optimistic.{Lists, no_lists, collect, send_all, optimistic_loop}
use dragoonfly.SendList.Recovery.{
  Peers, Recovery, drop_peer, take_peer, handle_rejected_block, resend_all, returned, settle,
  on_retry_answer, recuperation, first_peers, after_first_loop, send_block_list, failed,
}
use dragoonfly.SendList.Vectors.{count, position, count-swap_remove, position-none}
use dragoonfly.SendList.Blocks.{Nil-cases}
use dragoonfly.Base.Sets.{beq_refl}
use dragoonfly.SendList.Answers.{acks, refusals, blocks_of, collect-acks, collect-refusals}

block_inputs-map : (f : String) (bs : List String) → block_inputs f bs ≡ map (λ h. (f, h)) bs
unfolding zip
block_inputs-map f [] = refl
block_inputs-map f (b ∷ bs) = ap (◌∷◌ (f, b)) (block_inputs-map f bs)

-- If any peer is known, the stream of either strategy sends every block of the list once, in the order
-- of the list, under the file's hash.
pub send_stream-blocks :
    (r : SliceRandom) (g : r.Rng) (s : StrategyName) (known_peers : List PeerId)
    (file_hash : String) (block_list : List String)
    → 0 < length known_peers
    → blocks_of (send_stream r g s known_peers file_hash block_list)
      ≡ map (λ h. (file_hash, h)) block_list
unfolding send_stream
send_stream-blocks r g random ps f bs h =
    (random_stream-blocks r g ps (block_inputs f bs) h).0 ∙ block_inputs-map f bs
send_stream-blocks r g round_robin ps f bs h =
    robin_stream-blocks (sort ps) (block_inputs f bs) (omega (arith, length-sort ps))
    ∙ block_inputs-map f bs

send_all-enough : (ids : List SendId) → send_all (length ids) ids ≡ ok ids
unfolding send_all
send_all-enough [] = refl
send_all-enough (id ∷ ids) = rw (send_all-enough ids) refl

-- With a peer in the list and the index in range there is always a next peer.
IsReady : Peers → Type 0
IsReady s = s.accepted_peers_index < length s.accepted_peers

take_peer-IsReady :
    (s : Peers) → IsReady s → (p : PeerId) × (t : Peers) × (take_peer s ≡ ok (p, t)) × IsReady t
unfolding take_peer IsReady
take_peer-IsReady s h = elim (Option-cases (get_elem? s.accepted_peers s.accepted_peers_index)) [
  | inl e ↦ absurd (omega (arith, le_of_get_elem?-none s.accepted_peers s.accepted_peers_index e))
  | inr (p, e) ↦ elim (Bool-cases (leb (length s.accepted_peers) (s.accepted_peers_index + 1))) [
    | inl wraps ↦ (p, record s { accepted_peers_index = 0 }, ground arith, omega arith)
    | inr next ↦ (
      p,
      record s { accepted_peers_index = s.accepted_peers_index + 1 },
      ground arith,
      ground arith,
    )
  ]
]

-- Every rejected block is sent again, in order, to some peer.
resend_all-IsReady :
    (s : Peers) (bs : List BlockInput)
    → IsReady s
    → (cmds : List SendId) × (t : Peers) × (resend_all s bs ≡ ok (cmds, t)) × (blocks_of cmds ≡ bs)
unfolding resend_all handle_rejected_block drop_peer
resend_all-IsReady s [] h = ([], s, refl, refl)
resend_all-IsReady s (b ∷ bs) h =
    let (p, t, e, h') = take_peer-IsReady s h in
    let (cmds, u, e', f) = resend_all-IsReady t bs h' in
    (send_id p b ∷ cmds, u, rw (e, e') refl, ap (◌∷◌ b) f)

ack : SendId → Answer
ack c = ok (true, c)

count_all_zero : (bs : List BlockInput) → ((b : BlockInput) → count b bs ≡ 0) → bs ≡ []
count_all_zero [] h = refl
count_all_zero (b ∷ bs) h = absurd (ground (arith, h b, beq_refl b))

pub settle-same :
    (c : SendId) (cmds : List SendId) (blocks : List BlockInput)
    → ((b : BlockInput) → count b blocks ≡ count b (blocks_of (c ∷ cmds)))
    → (b : BlockInput) → count b (settle (block_of c) blocks) ≡ count b (blocks_of cmds)
settle-same c cmds blocks same b = elim (Option-cases (position (block_of c) blocks)) [
  | inl e ↦ absurd (
      ground (arith, position-none (block_of c) blocks e, same (block_of c), beq_refl (block_of c)))
  | inr (i, e) ↦ ground (arith, same b, count-swap_remove (block_of c) b blocks i e)
]

-- While the commands and the rejected blocks tell of the same blocks, acknowledging all commands ends the
-- loop, with the last of them.
recuperation-delivers :
    (r : Recovery) (c : SendId) (cmds : List SendId)
    → ((b : BlockInput) → count b r.rejected_blocks ≡ count b (blocks_of (c ∷ cmds)))
    → recuperation r (map ack (c ∷ cmds)) ≡ returned (ok (r.final_block_distribution ++ c ∷ cmds))
unfolding recuperation on_retry_answer ack
recuperation-delivers r c [] same =
    rw
      (count_all_zero (settle (block_of c) r.rejected_blocks)
        (settle-same c [] r.rejected_blocks same))
      refl
recuperation-delivers r c (d ∷ ds) same =
    let rest = settle-same c (d ∷ ds) r.rejected_blocks same in
    elim (Nil-cases (settle (block_of c) r.rejected_blocks)) [
      | inl e ↦ absurd (ground (arith, e, rest (block_of d), beq_refl (block_of d)))
      | inr (b, bs, e) ↦ rw e (
          recuperation-delivers
            (record r {
              rejected_blocks = b ∷ bs;
              final_block_distribution = r.final_block_distribution ++ c ∷ [];
            })
            d ds (subst (λ l. (x : BlockInput) → count x l ≡ count x (blocks_of (d ∷ ds))) e rest)
          ∙ ap (λ l. returned (ok l)) (append_assoc r.final_block_distribution (c ∷ []) (d ∷ ds)))
    ]

after_first_loop-delivers :
    (number : ℕ) (l : Lists) (b : BlockInput) (bs : List BlockInput)
    → l.rejected_blocks ≡ b ∷ bs
    → 0 < length l.accepted_peers
    → (cmds : List SendId) × (s : Peers) × (resend_all (first_peers l) l.rejected_blocks
        ≡ ok (cmds, s))
      × (blocks_of cmds ≡ l.rejected_blocks)
      × (after_first_loop number l (map ack cmds)
          ≡ returned (ok (l.final_block_distribution ++ cmds)))
unfolding after_first_loop IsReady
after_first_loop-delivers number l b bs e h =
    let (cmds, s, q, f) =
      resend_all-IsReady (first_peers l) l.rejected_blocks
        (omega (arith, length-sort l.accepted_peers)) in
    (cmds, s, q, f, go cmds s q (f ∙ e))
  where
    go :
        (cmds : List SendId) (s : Peers)
        → resend_all (first_peers l) l.rejected_blocks ≡ ok (cmds, s)
        → blocks_of cmds ≡ b ∷ bs
        → after_first_loop number l (map ack cmds)
          ≡ returned (ok (l.final_block_distribution ++ cmds))
    go [] s q f = cc
    go (c ∷ cs) s q f =
        rw (q, e)
          (recuperation-delivers
            (record {
              peers = s;
              rejected_blocks = b ∷ bs;
              final_block_distribution = l.final_block_distribution;
              commands = c ∷ cs;
            })
            c cs (λ x. ap (count x) (sym f)))

send_block_list-first :
    (stream : List SendId) (first second : List Answer)
    → send_block_list (length stream) stream first second
      ≡ after_first_loop (length stream) (collect no_lists first) second
unfolding send_block_list optimistic_loop
send_block_list-first stream first second = ground (arith, send_all-enough stream)

-- If blocks were refused and some accepted peer is left, then every refused block is asked for once
-- more, in the order of the refusals; and if the answers acknowledge these sends, then `send_block_list`
-- returns, with what the first loop got acknowledged and after it these sends.
pub send_block_list-delivers :
    (stream : List SendId) (first : List Answer) (b : BlockInput) (bs : List BlockInput)
    → refusals first ≡ b ∷ bs
    → 0 < length (collect no_lists first).accepted_peers
    → (cmds : List SendId) × (s : Peers) × (resend_all
          (first_peers (collect no_lists first))
          (refusals first)
        ≡ ok (cmds, s))
      × (blocks_of cmds ≡ refusals first)
      × (send_block_list (length stream) stream first (map (λ c. ok (true, c)) cmds)
          ≡ returned (ok (acks first ++ cmds)))
unfolding ack
send_block_list-delivers stream first b bs e h =
    let l = collect no_lists first in
    let acked = collect-acks no_lists first in
    let refused : l.rejected_blocks ≡ refusals first = collect-refusals no_lists first in
    let (cmds, s, q, f, r) = after_first_loop-delivers (length stream) l b bs (refused ∙ e) h in
    (
      cmds,
      s,
      ap (resend_all (first_peers l)) (sym refused) ∙ q,
      f ∙ refused,
      send_block_list-first stream first (map (λ c. ok (true, c)) cmds)
          ∙ r
          ∙ ap (λ d. returned (ok (d ++ cmds))) acked,
    )

-- If nothing was refused and as many sends are acknowledged as the list has blocks, `send_block_list`
-- returns the acknowledged sends; if fewer or more are, it fails with these sends.
pub send_block_list-unrefused :
    (stream : List SendId) (first second : List Answer)
    → refusals first ≡ []
    → send_block_list (length stream) stream first second ≡ (
        if nat_beq (length (acks first)) (length stream)
        then returned (ok (acks first))
        else failed (acks first) not_all_blocks_sent)
unfolding after_first_loop
send_block_list-unrefused stream first second e =
    let refused = collect-refusals no_lists first ∙ e in
    let acked = collect-acks no_lists first in
    send_block_list-first stream first second ∙ ground (arith, refused, acked)
