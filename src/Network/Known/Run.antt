-- ===== src/Network/Known/Run.antt =====
-- The peers that a running node knows.
use dragoonfly.Base.{
  ℕ, ◌≡◌, refl, ap, ◌∙◌, Bool, true, false, Bool-cases, inl, inr, String, Option, none, some,
  Option-cases, List, [], ◌∷◌, ◌==◌, ◌||◌, nat_eq, string_eq, pair_eq, arith,
}
use dragoonfly.Base.Sets.{contains, contains-insert}
use dragoonfly.Base.Result.{Result, ok, err}
use dragoonfly.Strategy.{PeerId}
use dragoonfly.Network.Table.{lookup, erase}
use dragoonfly.Network.Defs.{Channel, BlockResponse, info, nothing, Node, NodeError, Action}
use dragoonfly.Exchange.World.{PeerBlockInfo}
use dragoonfly.Network.Outside.{Outside}
use dragoonfly.Paths.{FilePath}
use dragoonfly.Network.New.{new, in_dir, label_or_id, create_block_dir}
use dragoonfly.Network.Event.{
  Event, handle_event, handle_query_result, close_providers, fail_providers, on_block_response,
  respond_block, respond_info, logged, outbound_query_progressed, identify_received, block_request,
  block_response, info_request, info_response, connection_established, dialer, listener,
  QueryResult, start_providing, found_providers, finished_with_no_additional_record,
  get_providers_failed, other_result, message_request, info_request_answer, tell_providers,
}
use dragoonfly.Network.Steps.{
  Step, commanded, dequeued, reported, ended, Reach, here, next, receive,
}
use dragoonfly.Network.Known.{
  SameKnown, answer_removed-SameKnown, close_stream-SameKnown, dial_one-SameKnown,
  handle_command-SameKnown,
}

close_providers-SameKnown : (id : ℕ) (n : Node) → SameKnown n (close_providers id n)
close_providers-SameKnown id n = close_stream-SameKnown _ _

fail_providers-SameKnown : (w : Outside) (id : ℕ) (n : Node) → SameKnown n (fail_providers w id n)
fail_providers-SameKnown w id n = elim (Option-cases (lookup id n.pending_get_providers)) [
  | inl e ↦ ground (arith, e)
  | inr (x, e) ↦ elim (Bool-cases (w.query_mut id)) [
    | inl q ↦ ground (arith, e, q, close_providers-SameKnown id (tell_providers (some []) id n))
    | inr q ↦ ground (arith, e, q, close_providers-SameKnown id (tell_providers none id n))
  ]
]

handle_query_result-SameKnown :
    (w : Outside) (n : Node) (id : ℕ) (r : QueryResult) → SameKnown n (handle_query_result w n id r)
unfolding handle_query_result
handle_query_result-SameKnown w n id (start_providing true) = answer_removed-SameKnown _ _ _
handle_query_result-SameKnown w n id (start_providing false) = refl
handle_query_result-SameKnown w n id (found_providers providers) = refl
handle_query_result-SameKnown w n id finished_with_no_additional_record = close_stream-SameKnown _ _
handle_query_result-SameKnown w n id get_providers_failed = fail_providers-SameKnown w id n
handle_query_result-SameKnown w n id other_result = refl

on_block_response-SameKnown :
    (w : Outside) (o : Option (Bool × Channel)) (r : BlockResponse) (n : Node)
    → SameKnown n (on_block_response w o r n)
on_block_response-SameKnown w none r n = refl
on_block_response-SameKnown w (some (true, c)) r n = refl
on_block_response-SameKnown w (some (false, c)) r n = refl

respond_block-SameKnown :
    (r : Result NodeError BlockResponse) (n : Node) → SameKnown n (respond_block r n)
respond_block-SameKnown (ok r) n = refl
respond_block-SameKnown (err x) n = refl

respond_info-SameKnown :
    (r : Result NodeError PeerBlockInfo) (n : Node) → SameKnown n (respond_info r n)
respond_info-SameKnown (ok r) n = refl
respond_info-SameKnown (err x) n = refl

-- Whether an event tells of the peer and of an address of it.
abbrev pub tells_of : Event → PeerId → Bool
tells_of (identify_received q (addr ∷ _)) p = q == p
tells_of _ p = false

handle_event-known :
    (w : Outside) (n : Node) (e : Event) (p : PeerId)
    → contains (handle_event w n e).known_peer_id p ≡ (tells_of e p || contains n.known_peer_id p)
unfolding handle_event
handle_event-known w n logged p = refl
handle_event-known w n (outbound_query_progressed id r) p =
    ap (λ l. contains l p) (handle_query_result-SameKnown w n id r)
handle_event-known w n (identify_received q []) p = refl
handle_event-known w n (identify_received q (addr ∷ more)) p = contains-insert q p n.known_peer_id
handle_event-known w n (block_request shown f h) p =
    ap (λ l. contains l p) (respond_block-SameKnown (message_request w n shown f h) n)
handle_event-known w n (block_response id r) p =
    ap (λ l. contains l p)
      (on_block_response-SameKnown w (lookup id n.pending_request_block) r
        (record n { pending_request_block = erase id n.pending_request_block }))
handle_event-known w n (info_request shown f) p =
    ap (λ l. contains l p) (respond_info-SameKnown (info_request_answer w n shown f) n)
handle_event-known w n (info_response id r) p =
    ap (λ l. contains l p)
      (answer_removed-SameKnown (lookup id n.pending_request_block_info) (ok (info r))
        (record n { pending_request_block_info = erase id n.pending_request_block_info }))
handle_event-known w n (connection_established q (dialer a)) p =
    ap (λ l. contains l p)
      (answer_removed-SameKnown (lookup (w.to_string a) n.pending_dial) (ok nothing)
        (record n { pending_dial = erase (w.to_string a) n.pending_dial }))
handle_event-known w n (connection_established q listener) p = refl

-- Whether one of the steps was told of the peer.
abbrev heard : {n m : Node} → Step n m → PeerId → Bool
heard (reported w e) p = tells_of e p
heard _ p = false

abbrev pub was_heard : {n m : Node} → Reach n m → PeerId → Bool
was_heard here p = false
was_heard (next r s) p = heard s p || was_heard r p

Step-known :
    {n m : Node} (s : Step n m) (p : PeerId)
    → contains m.known_peer_id p ≡ (heard s p || contains n.known_peer_id p)
Step-known {n} (commanded w c cmd) p =
    ap (λ l. contains l p) (handle_command-SameKnown w (receive c n) c cmd)
Step-known {n} (dequeued w m c rest e) p =
    ap (λ l. contains l p) (dial_one-SameKnown w (record n { queue = rest }) c m)
Step-known {n} (reported w e) p = handle_event-known w n e p
Step-known {n} (ended c task none before after e k) p = refl
Step-known {n} (ended c task (some res) before after e k) p = refl

Reach-known :
    {n m : Node} (r : Reach n m) (p : PeerId)
    → contains m.known_peer_id p ≡ (was_heard r p || contains n.known_peer_id p)
Reach-known here p = refl
Reach-known {n} (next r s) p =
    Step-known s p
    ∙ ap (λ b. heard s p || b) (Reach-known r p)
    ∙ or_assoc (heard s p) (was_heard r p) (contains n.known_peer_id p)
  where
    or_assoc : (a b c : Bool) → (a || (b || c)) ≡ ((a || b) || c)
    or_assoc true b c = refl
    or_assoc false b c = refl

in_dir-known :
    (p : PeerId) (label : String) (total : ℕ) (dir : Result NodeError FilePath × List Action)
    (n : Node)
    → in_dir p label total dir ≡ some n
    → n.known_peer_id ≡ []
in_dir-known p label total (err e, done) n h = absurd cc
in_dir-known p label total (ok file_dir, done) n h = ground (arith, h)

-- Whatever commands a node is given from its start on, whatever the swarm reports and in whatever order
-- tasks end: the peers that it knows, to which it sends the blocks of a list, are exactly those of which an
-- identification with at least one address was reported, and it never forgets one.
pub Reach-knows_heard :
    (w : Outside) (p : PeerId) (label : Option String) (total : ℕ) (replace : Bool) (n m : Node)
    → new w p label total replace ≡ some n
    → (r : Reach n m) (q : PeerId) → contains m.known_peer_id q ≡ was_heard r q
unfolding new contains
Reach-knows_heard w p label total replace n m start r q =
    let none_yet =
      in_dir-known p (label_or_id w p label) total (create_block_dir w p replace) n start in
    Reach-known r q ∙ ap (λ l. was_heard r q || contains l q) none_yet ∙ or_false (was_heard r q)
  where
    or_false : (b : Bool) → (b || contains [] q) ≡ b
    or_false true = refl
    or_false false = refl
