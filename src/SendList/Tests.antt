-- ===== src/SendList/Tests.antt =====
-- Two peers, of which the second refuses its block.
use dragoonfly.Base.{
  All, ℕ, ◌+◌, ◌*◌, ◌≤◌, ◌<◌, ◌≡◌, ◌≢◌, refl, not, ◌&&◌, true, false, some, List, [], ◌∷◌, ◌++◌,
  map, length, arith, nat_eq, string_eq, pair_eq,
}
use dragoonfly.Base.Sets.{contains, insert, remove}
use dragoonfly.Base.Result.{ok}
use dragoonfly.Errors.{invalid_index}
use dragoonfly.Strategy.{SendId, send_id, block_of, round_robin}
use dragoonfly.Strategy.Tests.{first_drawn}
use dragoonfly.Strategy.Sort.{sort}
use dragoonfly.SendList.Defs.{Answer, send_stream}
use dragoonfly.SendList.Optimistic.{no_lists, collect}
use dragoonfly.SendList.Recovery.{
  Peers, handle_rejected_block, resend_all, first_peers, send_block_list, returned, failed, waiting,
  recuperation,
}
use dragoonfly.SendList.Vectors.{count, position, remove_at}
use dragoonfly.SendList.Answers.{acks, refusals, blocks_of}
use dragoonfly.SendList.Index.{send_block_list-ne-invalid_index}
use dragoonfly.SendList.Blocks.{send_block_list_complete}
use dragoonfly.SendList.Peers.{took, refused, any, collect-accepted}
use dragoonfly.SendList.Resend.{times, handle_rejected_block-other_peer}
use dragoonfly.SendList.Schedule.{Verdict, taken, already, Running, answers}
use dragoonfly.SendList.Ignored.{recuperation-already}
use dragoonfly.SendList.Termination.{Settles, launched, send_block_list_terminates}
use dragoonfly.SendList.Delivery.{send_stream-blocks, send_block_list-delivers}

abbrev a_to_1 : SendId
a_to_1 = send_id 1 ("f", "a")

abbrev b_to_1 : SendId
b_to_1 = send_id 1 ("f", "b")

abbrev b_to_2 : SendId
b_to_2 = send_id 2 ("f", "b")

abbrev stream : List SendId
stream = a_to_1 ∷ b_to_2 ∷ []

abbrev first : List Answer
first = ok (true, a_to_1) ∷ ok (false, b_to_2) ∷ []

abbrev second : List Answer
second = ok (true, b_to_1) ∷ []

run : send_block_list 2 stream first second ≡ returned (ok (a_to_1 ∷ b_to_1 ∷ []))
unfolding send_block_list sort contains insert remove
run = refl

send_block_list_complete_example :
    count ("f", "b") (blocks_of stream) ≤ count ("f", "b") (blocks_of (a_to_1 ∷ b_to_1 ∷ []))
send_block_list_complete_example =
    send_block_list_complete 2 stream first second (a_to_1 ∷ b_to_1 ∷ []) (λ b. ground arith) run
      ("f", "b")

send_block_list-ne-invalid_index_example :
    send_block_list 2 stream first second ≢ failed (a_to_1 ∷ []) (invalid_index 1 1)
send_block_list-ne-invalid_index_example =
    send_block_list-ne-invalid_index 2 stream first second (a_to_1 ∷ []) 1 1

one_accepted : 0 < length (collect no_lists first).accepted_peers
unfolding collect contains insert remove
one_accepted = omega arith

send_block_list-delivers_example :
    (cmds : List SendId) × (s : Peers) × (resend_all
        (first_peers (collect no_lists first))
        (refusals first)
      ≡ ok (cmds, s))
    × (blocks_of cmds ≡ refusals first)
    × (send_block_list (length stream) stream first (map (λ c. ok (true, c)) cmds)
        ≡ returned (ok (acks first ++ cmds)))
send_block_list-delivers_example =
    send_block_list-delivers stream first ("f", "b") [] refl one_accepted

send_stream-blocks_example :
    blocks_of (send_stream first_drawn tt round_robin (2 ∷ 1 ∷ []) "f" ("a" ∷ "b" ∷ []))
    ≡ map (λ h. ("f", h)) ("a" ∷ "b" ∷ [])
send_stream-blocks_example =
    send_stream-blocks first_drawn tt round_robin (2 ∷ 1 ∷ []) "f" ("a" ∷ "b" ∷ []) (omega arith)

collect-accepted_example :
    let l = collect no_lists first in
    (contains l.accepted_peers 2 ≡ (any (took 2) first && not (any (refused 2) first)))
    × (contains l.rejected_peers 2 ≡ any (refused 2) first)
collect-accepted_example = collect-accepted first 2

abbrev two_peers : Peers
two_peers = record { accepted_peers = 1 ∷ 2 ∷ []; accepted_peers_index = 1 }

abbrev one_peer : Peers
one_peer = record { accepted_peers = 1 ∷ []; accepted_peers_index = 0 }

resend_run : handle_rejected_block (some 2) ("f", "b") two_peers ≡ ok (b_to_1, one_peer)
unfolding handle_rejected_block position remove_at
resend_run = refl

handle_rejected_block-other_peer_example :
    (block_of b_to_1 ≡ ("f", "b"))
    × (b_to_1.peer_id ≢ 2)
    × (0 < times b_to_1.peer_id two_peers)
    × (times 2 one_peer ≡ 0)
handle_rejected_block-other_peer_example =
    handle_rejected_block-other_peer 2 ("f", "b") two_peers one_peer b_to_1 (omega arith) resend_run

abbrev launch : Running
launch = launched (collect no_lists first) (b_to_1 ∷ []) one_peer

abbrev four_answers : List (ℕ × Verdict)
four_answers = (0, taken) ∷ (0, taken) ∷ (0, taken) ∷ (0, taken) ∷ []

relaunched :
    resend_all (first_peers (collect no_lists first)) (refusals first) ≡ ok (b_to_1 ∷ [], one_peer)
unfolding resend_all handle_rejected_block sort contains insert remove collect
relaunched = refl

enough_answers :
    length (collect no_lists first).accepted_peers * (length (refusals first) + 1)
      + 2 * length (refusals first)
    ≤ length four_answers
unfolding contains insert remove collect
enough_answers = omega arith

four_answers-Settles : All Settles four_answers
four_answers-Settles = (refl, (refl, (refl, (refl, tt))))

send_block_list_terminates_example :
    send_block_list 2 stream first (answers four_answers launch)
    ≢ waiting (record launch.recovery { rejected_blocks = ("f", "b") ∷ [] })
send_block_list_terminates_example =
    send_block_list_terminates 2 stream first four_answers (b_to_1 ∷ []) one_peer
      (record launch.recovery { rejected_blocks = ("f", "b") ∷ [] }) relaunched enough_answers
      four_answers-Settles

recuperation-already_example :
    recuperation
      (record launch.recovery { rejected_blocks = ("f", "b") ∷ [] })
      (answers ((0, already) ∷ four_answers) (record {
        recovery = record launch.recovery { rejected_blocks = ("f", "b") ∷ [] };
        pending = b_to_1 ∷ [];
      }))
    ≡ waiting (record launch.recovery { rejected_blocks = ("f", "b") ∷ [] })
recuperation-already_example =
    recuperation-already (record launch.recovery { rejected_blocks = ("f", "b") ∷ [] }) b_to_1
      ("f", "b") [] 0 four_answers refl
