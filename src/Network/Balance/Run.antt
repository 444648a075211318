-- ===== src/Network/Balance/Run.antt =====
-- The senders of a node that runs.
use dragoonfly.Base.{
  ℕ, ◌+◌, ◌≡◌, ap, subst, Bool, String, Option, none, some, List, [], ◌∷◌, ◌++◌, arith, nat_eq,
}
use dragoonfly.Base.Result.{Result, ok, err}
use dragoonfly.Strategy.{PeerId}
use dragoonfly.Paths.{FilePath}
use dragoonfly.SendList.Vectors.{count}
use dragoonfly.Network.Defs.{Channel, Node, Action, Task, NodeError, Value}
use dragoonfly.Network.Outside.{Outside}
use dragoonfly.Network.New.{new, create_block_dir, in_dir, label_or_id, fresh_node}
use dragoonfly.Network.Steps.{
  Step, commanded, dequeued, reported, ended, Reach, here, next, after_task, queued,
}
use dragoonfly.Network.Table.{channels}
use dragoonfly.Network.Balance.{in_tables, firsts, Balanced, dial_one-Takes}
use dragoonfly.Network.Balance.Commands.{handle_command-Balanced}
use dragoonfly.Network.Balance.Events.{handle_event-Balanced}

count-firsts-append {ℓ} :
    {A : Type ℓ} (x : Channel) (s t : List (Channel × A))
    → count x (firsts (s ++ t)) ≡ count x (firsts s) + count x (firsts t)
count-firsts-append x [] t = omega arith
count-firsts-append x ((c, a) ∷ s) t = omega (arith, count-firsts-append x s t)

ended-Balanced :
    (x c : Channel) (task : Task) (res : Option (Result NodeError Value)) (n : Node)
    (before after : List (Channel × Task))
    → n.tasks ≡ before ++ (c, task) ∷ after
    → Balanced x n
    → Balanced x (after_task c res (record n { tasks = before ++ after }))
ended-Balanced x c task none n before after e b = omega (
  arith,
  b,
  ap (λ ts. count x (firsts ts)) e,
  count-firsts-append x before after,
  count-firsts-append x before ((c, task) ∷ after),
)
ended-Balanced x c task (some res) n before after e b = omega (
  arith,
  b,
  ap (λ ts. count x (firsts ts)) e,
  count-firsts-append x before after,
  count-firsts-append x before ((c, task) ∷ after),
)

Step-Balanced : (x : Channel) {n m : Node} → Step n m → Balanced x n → Balanced x m
Step-Balanced x {n} (commanded w c cmd) b = handle_command-Balanced x w n c cmd b
Step-Balanced x {n} (dequeued w m c rest e) b = omega (
  arith,
  b,
  ap (λ q. count x (channels (λ (d : Channel). d) q)) e,
  dial_one-Takes x w (record n { queue = rest }) c m,
)
Step-Balanced x {n} (reported w e) b = handle_event-Balanced x w n e b
Step-Balanced x {n} (ended c task res before after e _) b =
    ended-Balanced x c task res n before after e b

Reach-Balanced : (x : Channel) {n m : Node} → Reach n m → Balanced x n → Balanced x m
Reach-Balanced x here b = b
Reach-Balanced x (next r st) b = Step-Balanced x st (Reach-Balanced x r b)

in_dir-Balanced :
    (x : Channel) (p : PeerId) (label : String) (total : ℕ)
    (dir : Result NodeError FilePath × List Action) (n : Node)
    → in_dir p label total dir ≡ some n
    → Balanced x n
in_dir-Balanced x p label total (err e, done) n h = absurd cc
in_dir-Balanced x p label total (ok file_dir, done) n h =
    let same : fresh_node p label total done file_dir ≡ n = cc in
    subst (Balanced x) same (omega arith)

-- Whatever commands a node is given from its start on, whatever the swarm reports, whatever other code
-- answers and in whatever order tasks end: each sender that the node was given or has cloned is in
-- exactly one place. It waits in one table, is held by one task or is in the queue, has answered, or was
-- dropped; so a command is never answered twice, and none is lost without its channel being closed.
pub Reach-senders :
    (x : Channel) (w : Outside) (p : PeerId) (label : Option String) (total : ℕ) (replace : Bool)
    (n m : Node)
    → new w p label total replace ≡ some n
    → Reach n m
    → in_tables x m
        + count x (firsts m.tasks)
        + count x (queued m)
        + count x (firsts m.answered)
        + count x m.dropped
      ≡ count x m.senders
unfolding new
Reach-senders x w p label total replace n m start r =
    Reach-Balanced x r
      (in_dir-Balanced x p (label_or_id w p label) total (create_block_dir w p replace) n start)
