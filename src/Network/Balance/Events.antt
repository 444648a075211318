-- ===== src/Network/Balance/Events.antt =====
-- An event moves senders, and loses none.
use dragoonfly.Base.{
  ℕ, ◌+◌, ◌≡◌, refl, Bool, true, false, Bool-cases, inl, inr, Option, none, some, Option-cases,
  List, [], ◌∷◌, arith, nat_eq, string_eq, ap,
}
use dragoonfly.Base.Result.{Result, ok, Result-cases}
use dragoonfly.Strategy.{PeerId}
use dragoonfly.SendList.Vectors.{count}
use dragoonfly.Network.Table.{lookup, erase, in_entry, channels, count-erase}
use dragoonfly.Network.Defs.{Channel, NodeError, Value, nothing, info, Node, BlockResponse}
use dragoonfly.Network.Outside.{Outside}
use dragoonfly.Network.Event.{
  Event, logged, outbound_query_progressed, identify_received, block_request, block_response,
  info_request, info_response, connection_established, dialer, listener, QueryResult,
  start_providing, found_providers, finished_with_no_additional_record, get_providers_failed,
  other_result, handle_query_result, handle_event, answer_removed, tell, tell_providers,
  close_providers, message_request, info_request_answer,
}
use dragoonfly.Network.Balance.{held, Balanced}

-- The table of the queries, as its type is long.
abbrev Queries : Type 0
Queries = List (ℕ × (Channel × List (Option (List PeerId))))

abbrev waiting : Channel × List (Option (List PeerId)) → Channel
waiting p = p.0

channels-tell :
    (message : Option (List PeerId)) (id : ℕ) (t : Queries)
    → channels waiting (tell message id t) ≡ channels waiting t
channels-tell message id [] = refl
channels-tell message id ((j, (c, ms)) ∷ t) = ground (arith, channels-tell message id t)

tell_providers-Balanced :
    (x : Channel) (message : Option (List PeerId)) (id : ℕ) (n : Node)
    → Balanced x n
    → Balanced x (tell_providers message id n)
tell_providers-Balanced x message id n b =
    ground (arith, channels-tell message id n.pending_get_providers)

close_providers-Balanced :
    (x : Channel) (id : ℕ) (n : Node) → Balanced x n → Balanced x (close_providers id n)
close_providers-Balanced x id n b =
    let erased = count-erase waiting x id n.pending_get_providers in
    elim (Option-cases (lookup id n.pending_get_providers)) [
      | inl e ↦ ground (arith, e, erased)
      | inr ((d, ms), e) ↦ ground (arith, e, erased)
    ]

fail_providers-Balanced :
    (x : Channel) (w : Outside) (id : ℕ) (n : Node)
    → Balanced x n
    → Balanced x (handle_query_result w n id get_providers_failed)
unfolding handle_query_result
fail_providers-Balanced x w id n b = elim (Option-cases (lookup id n.pending_get_providers)) [
  | inl e ↦ ground (arith, e)
  | inr (d, e) ↦ elim (Bool-cases (w.query_mut id)) [
    | inl q ↦ ground (
      arith,
      e,
      q,
      close_providers-Balanced x id (tell_providers (some []) id n)
          (tell_providers-Balanced x (some []) id n b),
    )
    | inr q ↦ ground (
      arith,
      e,
      q,
      close_providers-Balanced x id (tell_providers none id n)
          (tell_providers-Balanced x none id n b),
    )
  ]
]

answer_removed-held :
    (x : Channel) (o : Option Channel) (res : Result NodeError Value) (n : Node)
    → (held x (answer_removed o res n) ≡ in_entry (λ (c : Channel). c) x o + held x n)
      × (count x (answer_removed o res n).senders ≡ count x n.senders)
answer_removed-held x none res n = (omega arith, refl)
answer_removed-held x (some c) res n = (omega arith, refl)

-- A sender that was taken out of a table answers.
removed-Balanced :
    (x : Channel) (o : Option Channel) (res : Result NodeError Value) (n m : Node)
    → in_entry (λ (c : Channel). c) x o + held x m ≡ held x n
    → m.senders ≡ n.senders
    → Balanced x n
    → Balanced x (answer_removed o res m)
removed-Balanced x o res n m less same b =
    omega (arith, less, b, answer_removed-held x o res m, ap (count x) same)

handle_query_result-Balanced :
    (x : Channel) (w : Outside) (n : Node) (id : ℕ) (res : QueryResult)
    → Balanced x n
    → Balanced x (handle_query_result w n id res)
unfolding handle_query_result
handle_query_result-Balanced x w n id (start_providing true) b =
    removed-Balanced x (lookup id n.pending_start_providing) (ok nothing) n
      (record n { pending_start_providing = erase id n.pending_start_providing })
      (omega (arith, count-erase (λ (c : Channel). c) x id n.pending_start_providing)) refl b
handle_query_result-Balanced x w n id (start_providing false) b = b
handle_query_result-Balanced x w n id (found_providers ps) b =
    tell_providers-Balanced x (some ps) id n b
handle_query_result-Balanced x w n id finished_with_no_additional_record b =
    close_providers-Balanced x id n b
handle_query_result-Balanced x w n id get_providers_failed b = fail_providers-Balanced x w id n b
handle_query_result-Balanced x w n id other_result b = b

block_response-Balanced :
    (x : Channel) (w : Outside) (n : Node) (id : ℕ) (r : BlockResponse)
    → Balanced x n
    → Balanced x (handle_event w n (block_response id r))
unfolding handle_event
block_response-Balanced x w n id r b =
    let erased = count-erase (λ (p : Bool × Channel). p.1) x id n.pending_request_block in
    elim (Option-cases (lookup id n.pending_request_block)) [
      | inl e ↦ ground (arith, e, erased)
      | inr ((save, d), e) ↦ ground (arith, e, erased)
    ]

pub handle_event-Balanced :
    (x : Channel) (w : Outside) (n : Node) (e : Event)
    → Balanced x n
    → Balanced x (handle_event w n e)
unfolding handle_event
handle_event-Balanced x w n logged b = b
handle_event-Balanced x w n (outbound_query_progressed id res) b =
    handle_query_result-Balanced x w n id res b
handle_event-Balanced x w n (identify_received p []) b = b
handle_event-Balanced x w n (identify_received p (a ∷ more)) b = b
handle_event-Balanced x w n (block_request s f h) b =
    elim (Result-cases (message_request w n s f h)) [
      | inl (r, q) ↦ ground (arith, q)
      | inr (r, q) ↦ ground (arith, q)
    ]
handle_event-Balanced x w n (block_response id r) b = block_response-Balanced x w n id r b
handle_event-Balanced x w n (info_request s f) b =
    elim (Result-cases (info_request_answer w n s f)) [
      | inl (r, q) ↦ ground (arith, q)
      | inr (r, q) ↦ ground (arith, q)
    ]
handle_event-Balanced x w n (info_response id r) b =
    removed-Balanced x (lookup id n.pending_request_block_info) (ok (info r)) n
      (record n { pending_request_block_info = erase id n.pending_request_block_info })
      (omega (arith, count-erase (λ (c : Channel). c) x id n.pending_request_block_info)) refl b
handle_event-Balanced x w n (connection_established p (dialer a)) b =
    removed-Balanced x (lookup (w.to_string a) n.pending_dial) (ok nothing) n
      (record n { pending_dial = erase (w.to_string a) n.pending_dial })
      (omega (arith, count-erase (λ (c : Channel). c) x (w.to_string a) n.pending_dial)) refl b
handle_event-Balanced x w n (connection_established p listener) b = b
