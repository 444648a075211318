-- ===== src/Network/Known.antt =====
-- What leaves the peers alone that a node knows: every command.
pub mod Run
use dragoonfly.Base.{
  ℕ, ◌≡◌, refl, ap, ◌∙◌, Bool, true, false, Bool-cases, inl, inr, String, Option, none, some,
  Option-cases, List, [], ◌∷◌, ◌==◌, ◌||◌, nat_eq, string_eq, pair_eq, arith,
}
use dragoonfly.Base.Sets.{contains, contains-insert}
use dragoonfly.Base.Result.{Result, ok, err, Result-cases}
use dragoonfly.Strategy.{PeerId}
use dragoonfly.Commands.Defs
use dragoonfly.Commands.Defs.{DragoonCommand}
use dragoonfly.Network.SendBlockTo.{Effect, start_task, reply}
use dragoonfly.Network.Table.{lookup, erase, put}
use dragoonfly.Network.Defs.{
  Channel, BlockResponse, info, nothing, Node, NodeError, Value, Action, drop_replaced, p2p,
  other_protocol,
}
use dragoonfly.Exchange.World.{PeerBlockInfo}
use dragoonfly.Network.Outside.{Outside}
use dragoonfly.Paths.{FilePath}
use dragoonfly.Network.New.{new, in_dir, label_or_id, create_block_dir}
use dragoonfly.Network.Calls.{listen_on, stop_listener, add_address, last, dial}
use dragoonfly.Network.Command.{handle_command, dial_one, dial_each, close_stream, after_effect}
use dragoonfly.Network.Event.{
  Event, handle_event, handle_query_result, answer_removed, close_providers, fail_providers,
  on_block_response, respond_block, respond_info, logged, outbound_query_progressed,
  identify_received, block_request, block_response, info_request, info_response,
  connection_established, dialer, listener, QueryResult, start_providing, found_providers,
  finished_with_no_additional_record, get_providers_failed, other_result, message_request,
  info_request_answer, tell_providers,
}
use dragoonfly.Network.Steps.{
  Step, commanded, dequeued, reported, ended, Reach, here, next, receive,
}

-- What a call leaves alone.
abbrev pub SameKnown : Node → Node → Type 0
SameKnown n m = m.known_peer_id ≡ n.known_peer_id

drop_replaced-SameKnown : (o : Option Channel) (n : Node) → SameKnown n (drop_replaced o n)
drop_replaced-SameKnown none n = refl
drop_replaced-SameKnown (some c) n = refl

pub answer_removed-SameKnown :
    (o : Option Channel) (res : Result NodeError Value) (n : Node)
    → SameKnown n (answer_removed o res n)
answer_removed-SameKnown none res n = refl
answer_removed-SameKnown (some c) res n = refl

pub close_stream-SameKnown :
    (o : Option (Channel × List (Option (List PeerId)))) (n : Node) → SameKnown n (close_stream o n)
close_stream-SameKnown none n = refl
close_stream-SameKnown (some (c, ms)) n = refl

pub dial_one-SameKnown :
    (w : Outside) (n : Node) (c : Channel) (m : String) → SameKnown n (dial_one w n c m)
unfolding dial_one dial
dial_one-SameKnown w n c m = elim (Option-cases (lookup m n.pending_dial)) [
  | inr (d, e) ↦ ground (arith, e)
  | inl e ↦ elim (Option-cases (w.parse m)) [
    | inl q ↦ ground (arith, e, q)
    | inr (addr, q) ↦ elim (Option-cases (w.dial addr)) [
      | inl r ↦ ground (arith, e, q, r)
      | inr (text, r) ↦ ground (arith, e, q, r)
    ]
  ]
]

dial_each-SameKnown :
    (d : Channel) (list : List String) (n : Node) → SameKnown n (dial_each d list n)
dial_each-SameKnown d [] n = refl
dial_each-SameKnown d (m ∷ list) n = dial_each-SameKnown d list _

after_effect-SameKnown : (c : Channel) (x : Effect) (n : Node) → SameKnown n (after_effect c x n)
after_effect-SameKnown c (start_task p h f) n = refl
after_effect-SameKnown c (reply (ok (b, id))) n = refl
after_effect-SameKnown c (reply (err e)) n = refl

listen-SameKnown :
    (w : Outside) (n : Node) (c : Channel) (m : String)
    → SameKnown n (handle_command w n c (Defs.listen m))
unfolding handle_command listen_on
listen-SameKnown w n c m = elim (Option-cases (w.parse m)) [
  | inl q ↦ ground (arith, q)
  | inr (addr, q) ↦ elim (Result-cases (w.listen_on addr)) [
    | inl (l, r) ↦ ground (arith, q, r)
    | inr (te, r) ↦ ground (arith, q, r)
  ]
]

remove_listener-SameKnown :
    (w : Outside) (n : Node) (c : Channel) (id : ℕ)
    → SameKnown n (handle_command w n c (Defs.remove_listener id))
unfolding handle_command stop_listener
remove_listener-SameKnown w n c id = elim (Option-cases (lookup id n.listeners)) [
  | inl q ↦ ground (arith, q)
  | inr (l, q) ↦ ground (arith, q)
]

add_peer-SameKnown :
    (w : Outside) (n : Node) (c : Channel) (m : String)
    → SameKnown n (handle_command w n c (Defs.add_peer m))
unfolding handle_command add_address
add_peer-SameKnown w n c m = elim (Option-cases (w.parse m)) [
  | inl q ↦ ground (arith, q)
  | inr (addr, q) ↦ elim (Option-cases (last addr)) [
    | inl r ↦ ground (arith, q, r)
    | inr (p2p p, r) ↦ ground (arith, q, r)
    | inr (other_protocol p, r) ↦ ground (arith, q, r)
  ]
]

pub handle_command-SameKnown :
    (w : Outside) (n : Node) (c : Channel) (cmd : DragoonCommand)
    → SameKnown n (handle_command w n c cmd)
unfolding handle_command
handle_command-SameKnown w n c (Defs.listen m) = listen-SameKnown w n c m
handle_command-SameKnown w n c (Defs.remove_listener id) = remove_listener-SameKnown w n c id
handle_command-SameKnown w n c (Defs.add_peer m) = add_peer-SameKnown w n c m
handle_command-SameKnown w n c (Defs.dial_single m) = dial_one-SameKnown w n c m
handle_command-SameKnown w n c (Defs.dial_multiple ms) =
    dial_each-SameKnown w.unbounded_channel ms n
handle_command-SameKnown w n c (Defs.start_provide key) =
    elim (Option-cases (w.start_providing key)) [
      | inl e ↦ ground (arith, e)
      | inr (id, e) ↦ ground (
        arith,
        e,
        drop_replaced-SameKnown (lookup id n.pending_start_providing)
            (record n { pending_start_providing = put id c n.pending_start_providing }),
      )
    ]
handle_command-SameKnown w n c (Defs.get_providers key) = close_stream-SameKnown _ _
handle_command-SameKnown w n c (Defs.get_block_from p f h save) = drop_replaced-SameKnown _ _
handle_command-SameKnown w n c (Defs.get_blocks_info_from p f) = drop_replaced-SameKnown _ _
handle_command-SameKnown w n c (Defs.send_block_to p f h) = after_effect-SameKnown c _ _
handle_command-SameKnown w n c cmd = refl
