-- ===== src/SendList/Recovery.antt =====
-- `handle_rejected_block`, the recuperation loop, and `send_block_list` as a whole.
use dragoonfly.Base.{
  ℕ, ◌+◌, ◌-◌, Bool, true, false, Option, none, some, List, [], ◌∷◌, ◌++◌, if◌then◌else◌, length,
  get_elem?, leb, nat_beq, nat_eq, string_eq, pair_eq,
}
use dragoonfly.Base.Result.{Result, ok, err, ◌>>=◌}
use dragoonfly.Errors.{
  DragoonError, send_block_to_error, send_block_list_failed, Context, no_more_peers, invalid_index,
  not_all_blocks_sent,
}
use dragoonfly.Strategy.{PeerId, SendId, BlockInput, block_of, send_id}
use dragoonfly.Strategy.Sort.{sort}
use dragoonfly.SendList.Defs.{Answer}
use dragoonfly.SendList.Optimistic.{Lists, no_lists, optimistic_loop}
use dragoonfly.SendList.Vectors.{position, remove_at, swap_remove}

-- `accepted_peers` and `accepted_peers_index` of the recuperation.
pub record Peers : Type 0 where
  pub accepted_peers : List PeerId
  pub accepted_peers_index : ℕ

-- The peer that has just refused leaves the list, and the index goes down by one if it can.
unfoldable pub drop_peer : Peers → Option PeerId → Peers
drop_peer s none = s
drop_peer s (some peer_id) = elim (position peer_id s.accepted_peers) [
  | some index ↦ record {
    accepted_peers = remove_at index s.accepted_peers;
    accepted_peers_index = s.accepted_peers_index - 1;
  }
  | none ↦ s
]

-- The next peer to send to, with the index moved on round the list.
unfoldable pub take_peer : Peers → Result Context (PeerId × Peers)
take_peer s = elim (get_elem? s.accepted_peers s.accepted_peers_index) [
  | some peer_id ↦
      let index = s.accepted_peers_index + 1 in
      let next = if leb (length s.accepted_peers) index then 0 else index in
      ok (peer_id, record s { accepted_peers_index = next })
  | none ↦
      if nat_beq (length s.accepted_peers) 0
      then err no_more_peers
      else err (invalid_index (length s.accepted_peers) s.accepted_peers_index)
]

-- The command that is sent, and the peers as the call leaves them.
unfoldable pub handle_rejected_block :
    Option PeerId → BlockInput → Peers → Result Context (SendId × Peers)
unfolding drop_peer take_peer
handle_rejected_block maybe_peer_id block s = do
  (peer_id, s') ← take_peer (drop_peer s maybe_peer_id)
  ok (send_id peer_id block, s')

-- `for (file_hash, block_hash) in rejected_blocks.clone()`
unfoldable pub resend_all : Peers → List BlockInput → Result Context (List SendId × Peers)
unfolding handle_rejected_block
resend_all s [] = ok ([], s)
resend_all s (b ∷ bs) = do
  (cmd, s') ← handle_rejected_block none b s
  (cmds, s'') ← resend_all s' bs
  ok (cmd ∷ cmds, s'')

-- The variables of the recuperation loop; `commands` are all the sends that it asked for.
pub record Recovery : Type 0 where
  pub peers : Peers
  pub rejected_blocks : List BlockInput
  pub final_block_distribution : List SendId
  pub commands : List SendId

abbrev pub settle : BlockInput → List BlockInput → List BlockInput
settle block blocks = elim (position block blocks) [
  | some index ↦ swap_remove index blocks
  | none ↦ blocks
]

unfoldable pub retry : Recovery → SendId → Result Context Recovery
unfolding handle_rejected_block
retry r id = do
  (cmd, s) ← handle_rejected_block (some id.peer_id) (block_of id) r.peers
  ok (record r { peers = s; commands = r.commands ++ cmd ∷ [] })

-- One round of `while let Some(send_res) = res_recv.recv().await`.
unfoldable pub on_retry_answer : Recovery → Answer → Result Context Recovery
unfolding retry position swap_remove
on_retry_answer r (ok (true, id)) = ok (record r {
  final_block_distribution = r.final_block_distribution ++ id ∷ [];
  rejected_blocks = settle (block_of id) r.rejected_blocks;
})
on_retry_answer r (ok (false, id)) = retry r id
on_retry_answer r (err (send_block_to_error id)) = retry r id
on_retry_answer r (err _) = ok r

abbrev is_empty {ℓ} : {A : Type ℓ} → List A → Bool
is_empty [] = true
is_empty (x ∷ xs) = false

-- The function returns, or it still waits for an answer: `res_sender` lives as long as the loop, so
-- `recv` never says that no answer can come.
pub data Outcome : Type 0 where
  returned : Result DragoonError (List SendId) → Outcome
  waiting : Recovery → Outcome

abbrev pub failed : List SendId → Context → Outcome
failed sent c = returned (err (send_block_list_failed sent c))

unfoldable pub recuperation : Recovery → List Answer → Outcome
unfolding on_retry_answer
recuperation r [] = waiting r
recuperation r (a ∷ more) = elim (on_retry_answer r a) [
  | err c ↦ failed r.final_block_distribution c
  | ok r' ↦
      if is_empty r'.rejected_blocks
      then returned (ok r'.final_block_distribution)
      else recuperation r' more
]

-- The accepted peers in sorted order, and the index at the first of them.
abbrev pub first_peers : Lists → Peers
first_peers l = record { accepted_peers = sort l.accepted_peers; accepted_peers_index = 0 }

-- What follows the first loop.
unfoldable pub after_first_loop : ℕ → Lists → List Answer → Outcome
unfolding resend_all recuperation
after_first_loop number_of_blocks_to_send l answers =
    if is_empty l.rejected_blocks
    then if nat_beq (length l.final_block_distribution) number_of_blocks_to_send
      then returned (ok l.final_block_distribution)
      else failed l.final_block_distribution not_all_blocks_sent
    else elim (resend_all (first_peers l) l.rejected_blocks) [
      | err c ↦ failed l.final_block_distribution c
      | ok (cmds, s) ↦
          recuperation
            (record {
              peers = s;
              rejected_blocks = l.rejected_blocks;
              final_block_distribution = l.final_block_distribution;
              commands = cmds;
            })
            answers
    ]

-- `first` are the answers until the first loop ends, by its own test or by the time-out; `second` are
-- the answers to the recuperation.
unfoldable pub send_block_list : ℕ → List SendId → List Answer → List Answer → Outcome
unfolding optimistic_loop after_first_loop
send_block_list number_of_blocks_to_send send_stream first second =
    elim (optimistic_loop number_of_blocks_to_send send_stream first no_lists) [
      | err c ↦ failed [] c
      | ok l ↦ after_first_loop number_of_blocks_to_send l second
    ]
