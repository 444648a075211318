-- ===== src/SendList/Termination.antt =====
-- The end of the recuperation.
use dragoonfly.Base.{
  ℕ, ◌+◌, ◌*◌, ◌%◌, ◌≤◌, ◌<◌, ◌≡◌, ◌≢◌, true, All, sym, ap, ◌∙◌, List, [], ◌∷◌, length, length-map,
  get_elem?-some, arith, inl, inr, nat_eq, string_eq, pair_eq,
}
use dragoonfly.Base.Sets.{beq_refl}
use dragoonfly.Base.Result.{ok, Result-cases}
use dragoonfly.Strategy.{SendId, BlockInput, block_of}
use dragoonfly.SendList.Recovery.{
  Peers, Recovery, drop_peer, take_peer, handle_rejected_block, on_retry_answer, waiting,
  recuperation, resend_all, first_peers, after_first_loop, send_block_list,
}
use dragoonfly.SendList.Vectors.{count}
use dragoonfly.Strategy.Sort.{length-sort}
use dragoonfly.SendList.Defs.{Answer}
use dragoonfly.SendList.Optimistic.{Lists, no_lists, collect, send_all, optimistic_loop}
use dragoonfly.SendList.Answers.{blocks_of, refusals, collect-refusals}
use dragoonfly.SendList.Blocks.{Nil-cases}
use dragoonfly.SendList.Resend.{take_peer-accepted}
use dragoonfly.SendList.Schedule.{Verdict, goes_on, reply, Running, after, answers}
use dragoonfly.SendList.Pending.{strays-le}
use dragoonfly.SendList.Rounds.{SameBlocks, weight, round-Falls}

count-blocks_of-le : (b : BlockInput) (cs : List SendId) → count b (blocks_of cs) ≤ length cs
count-blocks_of-le b [] = omega arith
count-blocks_of-le b (c ∷ cs) = ground (arith, count-blocks_of-le b cs)

-- While a block is rejected, a send is pending: the loop waits for an answer that can come.
some_pending :
    (s : Running) (b : BlockInput) (bs : List BlockInput)
    → s.recovery.rejected_blocks ≡ b ∷ bs
    → SameBlocks s
    → 0 < length s.pending
some_pending s b bs left same =
    ground (arith, same b, ap (count b) left, beq_refl b, count-blocks_of-le b s.pending)

abbrev pub Settles : ℕ × Verdict → Type 0
Settles (n, v) = goes_on v ≡ true

recuperation_ends :
    (n : ℕ) (sched : List (ℕ × Verdict)) (s : Running) (b : BlockInput) (bs : List BlockInput)
    → s.recovery.rejected_blocks ≡ b ∷ bs
    → SameBlocks s
    → length s.pending ≤ n
    → weight n s ≤ length sched
    → All Settles sched
    → (r : Recovery) → recuperation s.recovery (answers sched s) ≢ waiting r
unfolding recuperation answers
recuperation_ends n [] s b bs left same few enough settle r e =
    omega (arith, some_pending s b bs left same)
recuperation_ends n ((k, v) ∷ more) s b bs left same few enough (onward, settle) r e =
    let i = k % length s.pending in
    let some_left = some_pending s b bs left same in
    let (c, found) = get_elem?-some s.pending i (grind arith) in
    elim (Result-cases (on_retry_answer s.recovery (reply v c))) [
      | inr (x, q) ↦ ground (arith, found, q)
      | inl (r', q) ↦
          let f = round-Falls n s i c v r' found same few onward q in
          elim (Nil-cases r'.rejected_blocks) [
            | inl done ↦ ground (arith, found, q, done)
            | inr (b', bs', still) ↦
                recuperation_ends n more (after s i r') b' bs' still f.same f.bounded
                  (omega (arith, f.less)) settle r (ground (arith, found, q, still, e))
          ]
    ]

-- What the first commands of the recuperation are.
resend_all-kept :
    (s t : Peers) (bs : List BlockInput) (cmds : List SendId)
    → resend_all s bs ≡ ok (cmds, t)
    → (blocks_of cmds ≡ bs) × (t.accepted_peers ≡ s.accepted_peers)
unfolding resend_all handle_rejected_block drop_peer
resend_all-kept s t [] cmds h = ground arith
resend_all-kept s t (b ∷ bs) cmds h = elim (Result-cases (take_peer s)) [
  | inr (x, q) ↦ absurd (ground arith)
  | inl ((p, u), q) ↦ elim (Result-cases (resend_all u bs)) [
    | inr (x, q') ↦ absurd (ground arith)
    | inl ((more, v), q') ↦
        let (same, kept) = resend_all-kept u v bs more q' in
        ground (arith, same, kept, take_peer-accepted s u p q)
  ]
]

-- The recuperation as it starts, with all of its first commands pending.
abbrev pub launched : Lists → List SendId → Peers → Running
launched l cmds s = record {
  recovery = record {
    peers = s;
    rejected_blocks = l.rejected_blocks;
    final_block_distribution = l.final_block_distribution;
    commands = cmds;
  };
  pending = cmds;
}

after_first_loop_ends :
    (number : ℕ) (l : Lists) (sched : List (ℕ × Verdict)) (cmds : List SendId) (s : Peers)
    → resend_all (first_peers l) l.rejected_blocks ≡ ok (cmds, s)
    → length l.accepted_peers * (length l.rejected_blocks + 1) + 2 * length l.rejected_blocks
      ≤ length sched
    → All Settles sched
    → (r : Recovery) → after_first_loop number l (answers sched (launched l cmds s)) ≢ waiting r
unfolding after_first_loop
after_first_loop_ends number l sched cmds s q enough settle r e =
    elim (Nil-cases l.rejected_blocks) [
      | inl done ↦ ground (arith, done)
      | inr (b, bs, left) ↦
          let (same, kept) = resend_all-kept (first_peers l) s l.rejected_blocks cmds q in
          let many : length cmds ≡ length l.rejected_blocks =
            sym (length-map block_of cmds) ∙ ap length same in
          let peers : length s.accepted_peers ≡ length l.accepted_peers =
            ap length kept ∙ length-sort l.accepted_peers in
          recuperation_ends (length cmds) sched (launched l cmds s) b bs left
            (λ x. ap (count x) (sym same)) (omega arith)
            (omega (
              arith,
              strays-le s.accepted_peers cmds,
              many,
              ap (λ a. a * (length cmds + 1)) peers,
              ap (λ n. length l.accepted_peers * (n + 1)) many,
            ))
            settle r (ground (arith, left, q, e))
    ]

-- The recuperation terminates. Let the network answer its sends in any order, each at most once, by
-- taking the block, refusing it or failing (and never with `SendBlockToAlreadyStarted`), and let `n` blocks be refused in the first loop, of which
-- `a` accepted peers are left: after `a * (n + 1) + 2 * n` answers at most, `send_block_list` does not
-- wait any more.
pub send_block_list_terminates :
    (number : ℕ) (stream : List SendId) (first : List Answer) (sched : List (ℕ × Verdict))
    (cmds : List SendId) (s : Peers) (r : Recovery)
    → resend_all (first_peers (collect no_lists first)) (refusals first) ≡ ok (cmds, s)
    → length (collect no_lists first).accepted_peers * (length (refusals first) + 1)
        + 2 * length (refusals first)
      ≤ length sched
    → All Settles sched
    → send_block_list number stream first (answers sched (launched (collect no_lists first) cmds s))
      ≢ waiting r
unfolding send_block_list optimistic_loop
send_block_list_terminates number stream first sched cmds s r q enough settle e =
    let l = collect no_lists first in
    let same : l.rejected_blocks ≡ refusals first = collect-refusals no_lists first in
    elim (Result-cases (send_all number stream)) [
      | inr (x, k) ↦ ground arith
      | inl (sent, k) ↦
          after_first_loop_ends number l sched cmds s (ap (resend_all (first_peers l)) same ∙ q)
            (omega (
              arith,
              ap length same,
              ap (λ bs. length l.accepted_peers * (length bs + 1)) same,
              enough,
            ))
            settle r (ground (arith, k, e))
    ]
