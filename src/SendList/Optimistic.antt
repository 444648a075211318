-- ===== src/SendList/Optimistic.antt =====
-- `optimistic_loop`: every block of the stream is sent once, and the answers are collected.
use dragoonfly.Base.{ℕ, zero, suc, true, false, List, [], ◌∷◌, ◌++◌, if◌then◌else◌}
use dragoonfly.Base.Sets.{contains, insert, remove}
use dragoonfly.Base.Result.{Result, ok, err}
use dragoonfly.Base.{nat_eq}
use dragoonfly.Errors.{send_block_to_error, Context, more_blocks_than_expected}
use dragoonfly.Strategy.{PeerId, SendId, BlockInput, block_of}
use dragoonfly.SendList.Defs.{Answer}

-- The four variables of `send_block_list` that the loop is handed by `&mut`.
pub record Lists : Type 0 where
  pub accepted_peers : List PeerId
  pub rejected_peers : List PeerId
  pub rejected_blocks : List BlockInput
  pub final_block_distribution : List SendId

abbrev pub no_lists : Lists
no_lists = record {
  accepted_peers = [];
  rejected_peers = [];
  rejected_blocks = [];
  final_block_distribution = [];
}

-- The select is biased and the stream is always ready: all blocks are sent before an answer is read.
-- Each send takes a sender out of `res_sender_vec`, and one too many is an error.
unfoldable pub send_all : ℕ → List SendId → Result Context (List SendId)
send_all senders [] = ok []
send_all zero (id ∷ ids) = err (more_blocks_than_expected id.file_hash)
send_all (suc senders) (id ∷ ids) =
    let rest = send_all senders ids in elim rest [ ok cmds ↦ ok (id ∷ cmds) | err c ↦ err c ]

-- The branch of the select that reads an answer.
unfoldable pub on_answer : Lists → Answer → Lists
on_answer l (ok (true, id)) = record l {
  accepted_peers =
      if contains l.rejected_peers id.peer_id
      then l.accepted_peers
      else insert id.peer_id l.accepted_peers;
  final_block_distribution = l.final_block_distribution ++ id ∷ [];
}
on_answer l (ok (false, id)) = record l {
  accepted_peers = remove id.peer_id l.accepted_peers;
  rejected_peers = insert id.peer_id l.rejected_peers;
  rejected_blocks = l.rejected_blocks ++ block_of id ∷ [];
}
on_answer l (err (send_block_to_error id)) = record l {
  rejected_blocks = l.rejected_blocks ++ block_of id ∷ [];
}
on_answer l (err _) = l

unfoldable pub collect : Lists → List Answer → Lists
unfolding on_answer
collect l [] = l
collect l (a ∷ more) = collect (on_answer l a) more

-- The loop ends when every sender is gone, or by the time-out of ten seconds around it: `answers` is
-- what was read until then. Only a send too many is an error.
unfoldable pub optimistic_loop : ℕ → List SendId → List Answer → Lists → Result Context Lists
unfolding send_all collect
optimistic_loop number_of_blocks_to_send send_stream answers l =
    elim (send_all number_of_blocks_to_send send_stream) [
      | ok _ ↦ ok (collect l answers)
      | err c ↦ err c
    ]
