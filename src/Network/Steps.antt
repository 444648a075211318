-- ===== src/Network/Steps.antt =====
-- The node as it runs: commands arrive, the swarm reports events, the commands that the node has sent
-- to itself are taken from its queue, and tasks end, in any order.
use dragoonfly.Base.{
  ◌≡◌, String, Option, none, some, List, [], ◌∷◌, ◌++◌, length, ◌==◌, if◌then◌else◌, nat_eq,
}
use dragoonfly.Base.Sets.{contains, insert}
use dragoonfly.Base.Result.{Result, ok, err}
use dragoonfly.Strategy.{PeerId, StrategyName}
use dragoonfly.SendList.Vectors.{count}
use dragoonfly.Commands.Defs.{DragoonCommand}
use dragoonfly.Network.Table.{channels}
use dragoonfly.Network.Defs.{
  Channel, Value, nothing, peers, NodeError, dials_failed, Task, get_file_task, dial_multiple_task,
  get_providers_task, send_block_to_task, send_block_list_task, Node, sender_send_match,
  drop_sender,
}
use dragoonfly.Network.Outside.{Outside}
use dragoonfly.Network.Command.{handle_command, dial_one}
use dragoonfly.Network.Event.{Event, handle_event}

-- The inner loop of the stream of `get_providers`: the peers that are new, in order.
unfoldable pub yield_new : List PeerId → List PeerId → List PeerId × List PeerId
unfolding insert contains
yield_new current [] = (current, [])
yield_new current (prov ∷ hash_set) =
    if contains current prov
    then yield_new current hash_set
    else (let (after, yielded) = yield_new (insert prov current) hash_set in
        (after, prov ∷ yielded))

-- The stream, and the loop of `GetProviders` that collects it: it ends with the channel, or at an error.
unfoldable pub provider_stream : List PeerId → List (Option (List PeerId)) → List PeerId
unfolding yield_new
provider_stream current [] = []
provider_stream current (none ∷ messages) = []
provider_stream current (some hash_set ∷ messages) =
    let (after, yielded) = yield_new current hash_set in yielded ++ provider_stream after messages

-- The errors among what was sent to a channel.
abbrev pub errors_of : Channel → List (Channel × Result NodeError Value) → List NodeError
errors_of d [] = []
errors_of d ((c, ok _) ∷ t) = errors_of d t
errors_of d ((c, err x) ∷ t) = if c == d then x ∷ errors_of d t else errors_of d t

-- `final_res` of `DialMultiple`.
unfoldable pub final_res : List NodeError → Result NodeError Value
final_res [] = ok nothing
final_res (x ∷ err_list) = err (dials_failed (length (x ∷ err_list)))

abbrev pub queued : Node → List Channel
queued n = channels (λ c. c) n.queue

abbrev pub dialling : Node → List Channel
dialling n = channels (λ c. c) n.pending_dial

-- How a task ends. `DialMultiple` reads until each clone of its sender is gone; a send that could not
-- open a stream ends with no answer; what the other tasks answer is not said here.
pub data Ends (n : Node) : Task → Option (Result NodeError Value) → Type 0 where
  file_ended : (f o : String) (res : Result NodeError Value) → Ends n (get_file_task f o) (some res)
  list_ended :
      (s : StrategyName) (f : String) (bs : List String) (res : Result NodeError Value)
      → Ends n (send_block_list_task s f bs) (some res)
  send_ended :
      (p : PeerId) (h f : String) (res : Result NodeError Value)
      → Ends n (send_block_to_task p h f) (some res)
  send_unopened : (p : PeerId) (h f : String) → Ends n (send_block_to_task p h f) none
  providers_ended :
      (messages : List (Option (List PeerId)))
      → Ends n (get_providers_task messages) (some (ok (peers (provider_stream [] messages))))
  dials_ended :
      (d : Channel)
      → count d (queued n) ≡ 0
      → count d (dialling n) ≡ 0
      → Ends n (dial_multiple_task d) (some (final_res (errors_of d n.answered)))

abbrev pub receive : Channel → Node → Node
receive c n = record n { senders = c ∷ n.senders }

abbrev pub after_task : Channel → Option (Result NodeError Value) → Node → Node
after_task c none n = drop_sender c n
after_task c (some res) n = sender_send_match c res n

pub data Step (n : Node) : Node → Type 1 where
  commanded :
      (w : Outside) (c : Channel) (cmd : DragoonCommand)
      → Step n (handle_command w (receive c n) c cmd)
  dequeued :
      (w : Outside) (multiaddr : String) (c : Channel) (rest : List (String × Channel))
      → n.queue ≡ (multiaddr, c) ∷ rest
      → Step n (dial_one w (record n { queue = rest }) c multiaddr)
  reported : (w : Outside) (e : Event) → Step n (handle_event w n e)
  ended :
      (c : Channel) (task : Task) (res : Option (Result NodeError Value))
      (before after : List (Channel × Task))
      → n.tasks ≡ before ++ (c, task) ∷ after
      → Ends n task res
      → Step n (after_task c res (record n { tasks = before ++ after }))

pub data Reach (n : Node) : Node → Type 1 where
  here : Reach n n
  next : {m o : Node} → Reach n m → Step m o → Reach n o
