-- ===== src/Network/Dials.antt =====
-- The dials that wait for a connection.
use dragoonfly.Base.{
  ℕ, ◌<◌, ◌≡◌, refl, ap, ◌∙◌, Bool, true, false, Bool-cases, inl, inr, String, Option, none, some,
  List, [], ◌∷◌, ◌==◌, arith, nat_eq, string_eq, pair_eq,
}
use dragoonfly.Base.Sets.{beq_refl}
use dragoonfly.Base.Result.{Result, ok}
use dragoonfly.SendList.Vectors.{count}
use dragoonfly.Commands.Defs
use dragoonfly.Commands.Defs.{DragoonCommand}
use dragoonfly.Network.SendBlockTo.{send_block_to_command}
use dragoonfly.Network.Table.{lookup, channels, lookup-erase_ne}
use dragoonfly.Network.Defs.{
  Channel, dial_multiple_task, BlockResponse, NodeError, Value, nothing, Node, drop_sender,
}
use dragoonfly.Network.Outside.{Outside}
use dragoonfly.Network.Command.{handle_command, dial_each, dial_one}
use dragoonfly.Network.Calls.{listen_on, stop_listener, add_address, dial}
use dragoonfly.Network.Event.{
  Event, logged, outbound_query_progressed, identify_received, block_request, block_response,
  info_request, info_response, connection_established, dialer, listener, QueryResult,
  start_providing, found_providers, finished_with_no_additional_record, get_providers_failed,
  other_result, handle_query_result, handle_event, on_block_response, answer_removed,
}
use dragoonfly.Network.Steps.{
  receive, Step, commanded, dequeued, reported, ended, Ends, dials_ended,
}

dial_each-pending_dial :
    (d : Channel) (list : List String) (n : Node)
    → (dial_each d list n).pending_dial ≡ n.pending_dial
dial_each-pending_dial d [] n = refl
dial_each-pending_dial d (m ∷ list) n = dial_each-pending_dial d list _

-- A dial of another address, or of this one again.
dial_one-lookup :
    (a : String) (d : Channel) (w : Outside) (n : Node) (c : Channel) (m : String)
    → lookup a n.pending_dial ≡ some d
    → lookup a (dial_one w n c m).pending_dial ≡ some d
unfolding dial_one dial
dial_one-lookup a d w n c m h = elim (Bool-cases (m == a)) [
  | inl same ↦ ground (arith, string_eq.eq_iff m a)
  | inr other ↦ ground (arith, other, lookup-erase_ne m a n.pending_dial other)
]

handle_command-lookup :
    (a : String) (d : Channel) (w : Outside) (n : Node) (c : Channel) (cmd : DragoonCommand)
    → lookup a n.pending_dial ≡ some d
    → lookup a (handle_command w n c cmd).pending_dial ≡ some d
unfolding handle_command listen_on stop_listener add_address send_block_to_command
handle_command-lookup a d w n c (Defs.dial_single m) h = dial_one-lookup a d w n c m h
handle_command-lookup a d w n c (Defs.dial_multiple l) h =
    ap (lookup a) (dial_each-pending_dial w.unbounded_channel l n) ∙ h
handle_command-lookup a d w n c (Defs.listen m) h = ground arith
handle_command-lookup a d w n c (Defs.remove_listener m) h = ground arith
handle_command-lookup a d w n c (Defs.add_peer m) h = ground arith
handle_command-lookup a d w n c (Defs.send_block_to p f b) h = ground arith
handle_command-lookup a d w n c (Defs.start_provide k) h = ground arith
handle_command-lookup a d w n c (Defs.get_providers k) h = ground arith
handle_command-lookup a d w n c (Defs.get_block_from p f b s) h = ground arith
handle_command-lookup a d w n c (Defs.get_blocks_info_from p f) h = ground arith
handle_command-lookup a d w n c _ h = h

handle_query_result-pending_dial :
    (w : Outside) (n : Node) (id : ℕ) (res : QueryResult)
    → (handle_query_result w n id res).pending_dial ≡ n.pending_dial
unfolding handle_query_result
handle_query_result-pending_dial w n id (start_providing true) = ground arith
handle_query_result-pending_dial w n id finished_with_no_additional_record = ground arith
handle_query_result-pending_dial w n id get_providers_failed = ground arith
handle_query_result-pending_dial w n id (start_providing false) = refl
handle_query_result-pending_dial w n id (found_providers ps) = refl
handle_query_result-pending_dial w n id other_result = refl

on_block_response-pending_dial :
    (w : Outside) (o : Option (Bool × Channel)) (r : BlockResponse) (n : Node)
    → (on_block_response w o r n).pending_dial ≡ n.pending_dial
on_block_response-pending_dial w none r n = refl
on_block_response-pending_dial w (some (false, c)) r n = refl
on_block_response-pending_dial w (some (true, c)) r n = refl

answer_removed-pending_dial :
    (o : Option Channel) (res : Result NodeError Value) (n : Node)
    → (answer_removed o res n).pending_dial ≡ n.pending_dial
answer_removed-pending_dial none res n = refl
answer_removed-pending_dial (some c) res n = refl

-- The event that a dial waits for.
abbrev pub Connects : String → Outside → Event → Type 0
Connects a w (connection_established p (dialer address)) = w.to_string address ≡ a
Connects a w _ = ⊥

handle_event-lookup :
    (a : String) (d : Channel) (w : Outside) (n : Node) (e : Event)
    → ¬ Connects a w e
    → lookup a n.pending_dial ≡ some d
    → lookup a (handle_event w n e).pending_dial ≡ some d
unfolding handle_event
handle_event-lookup a d w n logged q h = h
handle_event-lookup a d w n (outbound_query_progressed id res) q h =
    ap (lookup a) (handle_query_result-pending_dial w n id res) ∙ h
handle_event-lookup a d w n (identify_received p []) q h = h
handle_event-lookup a d w n (identify_received p (x ∷ xs)) q h = h
handle_event-lookup a d w n (block_request s f b) q h = ground arith
handle_event-lookup a d w n (block_response id r) q h =
    ap (lookup a) (on_block_response-pending_dial w (lookup id n.pending_request_block) r _) ∙ h
handle_event-lookup a d w n (info_request s f) q h = ground arith
handle_event-lookup a d w n (info_response id r) q h = ground arith
handle_event-lookup a d w n (connection_established p (dialer address)) q h =
    elim (Bool-cases (w.to_string address == a)) [
      | inl same ↦ absurd (q ((string_eq.eq_iff (w.to_string address) a).0 same))
      | inr other ↦
          ap (lookup a) (
            answer_removed-pending_dial (lookup (w.to_string address) n.pending_dial) (ok nothing)
              _)
          ∙ lookup-erase_ne (w.to_string address) a n.pending_dial other
          ∙ h
    ]
handle_event-lookup a d w n (connection_established p listener) q h = h

-- Whether a step reports the connection that a dial waits for.
abbrev pub StepConnects : String → {n m : Node} → Step n m → Type 0
StepConnects a (commanded w c cmd) = ⊥
StepConnects a (dequeued w m c rest e) = ⊥
StepConnects a (reported w e) = Connects a w e
StepConnects a (ended c task res before after e q) = ⊥

-- Steps none of which reports the connection to an address.
pub data Unconnected (a : String) (n : Node) : Node → Type 1 where
  here : Unconnected a n n
  next : {m o : Node} → Unconnected a n m → (s : Step m o) → ¬ StepConnects a s → Unconnected a n o

Step-lookup :
    (a : String) (d : Channel) {n m : Node} (s : Step n m)
    → ¬ StepConnects a s
    → lookup a n.pending_dial ≡ some d
    → lookup a m.pending_dial ≡ some d
Step-lookup a d {n} (commanded w c cmd) q h = handle_command-lookup a d w (receive c n) c cmd h
Step-lookup a d {n} (dequeued w m c rest e) q h =
    dial_one-lookup a d w (record n { queue = rest }) c m h
Step-lookup a d {n} (reported w e) q h = handle_event-lookup a d w n e q h
Step-lookup a d {n} (ended c task none before after e _) q h = h
Step-lookup a d {n} (ended c task (some res) before after e _) q h = h

Unconnected-lookup :
    (a : String) (d : Channel) {n m : Node}
    → Unconnected a n m
    → lookup a n.pending_dial ≡ some d
    → lookup a m.pending_dial ≡ some d
Unconnected-lookup a d here h = h
Unconnected-lookup a d (next r s q) h = Step-lookup a d s q (Unconnected-lookup a d r h)

lookup-count :
    (a : String) (d : Channel) (t : List (String × Channel))
    → lookup a t ≡ some d
    → 0 < count d (channels (λ c. c) t)
lookup-count a d [] h = absurd cc
lookup-count a d ((b, c) ∷ t) h = ground (arith, lookup-count a d t, beq_refl d)

pending_dial-ne-Ends :
    (a : String) (d : Channel) (m : Node) (res : Option (Result NodeError Value))
    → lookup a m.pending_dial ≡ some d
    → ¬ Ends m (dial_multiple_task d) res
pending_dial-ne-Ends a d m res h (dials_ended d' e f) =
    omega (arith, f, lookup-count a d m.pending_dial h)

-- While a dial waits, and no connection that this node has dialled is reported with its address,
-- whatever else happens (other commands, a report that the dial has failed among the other events):
-- each later dial of the address is dropped with no answer and without dialling, and a `DialMultiple`
-- that waits for this dial does not end.
pub Unconnected-pending :
    (a : String) (d : Channel) (n m : Node) (w : Outside) (c : Channel)
    (res : Option (Result NodeError Value))
    → lookup a n.pending_dial ≡ some d
    → Unconnected a n m
    → (handle_command w m c (Defs.dial_single a) ≡ drop_sender c m)
      × ¬ Ends m (dial_multiple_task d) res
unfolding handle_command dial_one
Unconnected-pending a d n m w c res h r =
    let kept = Unconnected-lookup a d r h in
    (ground (arith, kept), pending_dial-ne-Ends a d m res kept)
