-- ===== src/Network/SendBlockTo.antt =====
-- The command `SendBlockTo`: the set of running sends, and the task that each of them starts.
use dragoonfly.Base.{
  ℕ, ◌+◌, ◌<◌, ◌≤◌, ◌≡◌, String, Bool, true, false, List, [], ◌∷◌, arith, if◌then◌else◌, ◌==◌,
  nat_eq, string_eq, pair_eq, pair_beq_iff, Bool-cases, inl, inr, Option, none, some,
}
use dragoonfly.Base.Sets.{contains, insert, remove, contains-insert, contains-remove, beq_refl}
use dragoonfly.Base.Result.{Result, ok, err}
use dragoonfly.Errors.{send_block_to_error, send_block_to_already_started}
use dragoonfly.Strategy.{PeerId, SendId, send_id}
use dragoonfly.SendList.{Answer}
use dragoonfly.SendList.Vectors.{count}

-- An entry of `pending_send_block_to`: the peer and the block hash, without the file hash.
abbrev pub Entry : Type 0
Entry = PeerId × String

-- What handling a command does besides changing the set.
pub data Effect : Type 0 where
  start_task : PeerId → String → String → Effect
  reply : Answer → Effect

-- The branch `SendBlockTo` of `handle_command`.
unfoldable pub send_block_to_command : PeerId → String → String → List Entry → List Entry × Effect
send_block_to_command peer_id file_hash block_hash pending =
    if contains pending (peer_id, block_hash)
    then (
      pending,
      reply (err (send_block_to_already_started (send_id peer_id (file_hash, block_hash)))),
    )
    else (insert (peer_id, block_hash) pending, start_task peer_id block_hash file_hash)

-- The branch `RemoveEntryFromSendBlockToSet`.
unfoldable pub remove_entry_from_send_block_to_set : PeerId → String → List Entry → List Entry
remove_entry_from_send_block_to_set peer_id block_hash pending =
    remove (peer_id, block_hash) pending

-- What the task of `send_block_to` asks for: nothing if no stream could be opened, and otherwise the
-- removal of its entry and then the answer.
pub data Report : Type 0 where
  nothing : Report
  remove_then_answer : Entry → Answer → Report

unfoldable pub send_block_to : PeerId → String → Option (Result SendId (Bool × SendId)) → Report
send_block_to peer_id block_hash none = nothing
send_block_to peer_id block_hash (some (ok r)) = remove_then_answer (peer_id, block_hash) (ok r)
send_block_to peer_id block_hash (some (err id)) =
    remove_then_answer (peer_id, block_hash) (err (send_block_to_error id))

-- The set with the tasks that run and the removals that are on their way.
pub record Sends : Type 0 where
  pub pending : List Entry
  pub running : List Entry
  pub removals : List Entry

abbrev pub after_effect : Sends → Entry → Effect → Sends
after_effect s e (start_task _ _ _) = record s { running = e ∷ s.running }
after_effect s e (reply _) = s

unfoldable pub request : Sends → PeerId → String → String → Sends
request s p f h =
    let (pending, effect) = send_block_to_command p f h s.pending in
    after_effect (record s { pending = pending }) (p, h) effect

abbrev pub after_report : Sends → Report → Sends
after_report s nothing = s
after_report s (remove_then_answer e _) = record s { removals = e ∷ s.removals }

abbrev pub drop_first : Entry → List Entry → List Entry
drop_first e [] = []
drop_first e (x ∷ xs) = if x == e then xs else x ∷ drop_first e xs

-- A command arrives, a task ends with its report, or a removal is handled.
pub data Step (s : Sends) : Sends → Type 0 where
  requested : (p : PeerId) (f h : String) → Step s (request s p f h)
  ended :
      (p : PeerId) (h : String) (res : Option (Result SendId (Bool × SendId)))
      → 0 < count (p, h) s.running
      → Step s (
          after_report (record s { running = drop_first (p, h) s.running }) (send_block_to p h res))
  removed :
      (p : PeerId) (h : String)
      → 0 < count (p, h) s.removals
      → Step s (record s {
        pending = remove_entry_from_send_block_to_set p h s.pending;
        removals = drop_first (p, h) s.removals;
      })

pub data Reach (s : Sends) : Sends → Type 0 where
  here : Reach s s
  next : {t u : Sends} → Reach s t → Step t u → Reach s u

abbrev pub idle : Sends
idle = record { pending = []; running = []; removals = [] }

abbrev pub weight : Bool → ℕ
weight true = 1
weight false = 0

-- At most one task or removal for an entry of the set, and none for another pair.
abbrev pub IsSingle : Entry → Sends → Type 0
IsSingle e s = count e s.running + count e s.removals ≤ weight (contains s.pending e)

count-drop_first :
    (e x : Entry) (xs : List Entry)
    → 0 < count x xs
    → count e (drop_first x xs) + weight (x == e) ≡ count e xs
count-drop_first e x [] h = absurd (omega arith)
count-drop_first e x (y ∷ ys) h = elim (Bool-cases (y == x)) [
  | inl same ↦ ground (arith, (pair_beq_iff y x).0 same)
  | inr other ↦ ground (arith, count-drop_first e x ys)
]

Step-IsSingle : {s t : Sends} (e : Entry) → Step s t → IsSingle e s → IsSingle e t
unfolding request send_block_to_command remove_entry_from_send_block_to_set send_block_to
Step-IsSingle {s} e (requested p f h) v =
    ground (arith, contains-insert (p, h) e s.pending, pair_beq_iff (p, h) e)
Step-IsSingle {s} e (ended p h none live) v =
    ground (arith, count-drop_first e (p, h) s.running live)
Step-IsSingle {s} e (ended p h (some (ok r)) live) v =
    ground (arith, count-drop_first e (p, h) s.running live)
Step-IsSingle {s} e (ended p h (some (err i)) live) v =
    ground (arith, count-drop_first e (p, h) s.running live)
Step-IsSingle {s} e (removed p h live) v =
    ground (arith, count-drop_first e (p, h) s.removals live, contains-remove (p, h) e s.pending)

Reach-IsSingle : {s t : Sends} (e : Entry) → Reach s t → IsSingle e s → IsSingle e t
Reach-IsSingle e here v = v
Reach-IsSingle e (next r st) v = Step-IsSingle e st (Reach-IsSingle e r v)

-- From an empty set, whatever is requested and in whatever order tasks end and removals are handled: a
-- pair of a peer and a block has at most one running task or removal on its way, and none unless it is in
-- the set.
pub Reach-at_most_one :
    {t : Sends} (e : Entry)
    → Reach idle t
    → count e t.running + count e t.removals ≤ weight (contains t.pending e)
unfolding contains
Reach-at_most_one e r = Reach-IsSingle e r (omega arith)

-- In the set, without a task or a removal.
abbrev pub IsStuck : Entry → Sends → Type 0
IsStuck e s = (contains s.pending e ≡ true) × (count e s.running ≡ 0) × (count e s.removals ≡ 0)

Step-IsStuck : {s t : Sends} (e : Entry) → Step s t → IsStuck e s → IsStuck e t
unfolding request send_block_to_command remove_entry_from_send_block_to_set send_block_to
Step-IsStuck {s} e (requested p f h) v =
    ground (arith, contains-insert (p, h) e s.pending, pair_beq_iff (p, h) e)
Step-IsStuck {s} e (ended p h none live) v =
    ground (arith, count-drop_first e (p, h) s.running live)
Step-IsStuck {s} e (ended p h (some (ok r)) live) v =
    ground (arith, count-drop_first e (p, h) s.running live, pair_beq_iff (p, h) e)
Step-IsStuck {s} e (ended p h (some (err i)) live) v =
    ground (arith, count-drop_first e (p, h) s.running live, pair_beq_iff (p, h) e)
Step-IsStuck {s} e (removed p h live) v = ground (
  arith,
  count-drop_first e (p, h) s.removals live,
  contains-remove (p, h) e s.pending,
  pair_beq_iff (p, h) e,
)

Reach-IsStuck : {s t : Sends} (e : Entry) → Reach s t → IsStuck e s → IsStuck e t
Reach-IsStuck e here v = v
Reach-IsStuck e (next r st) v = Step-IsStuck e st (Reach-IsStuck e r v)

unopened-IsStuck :
    (s : Sends) (p : PeerId) (h : String)
    → IsSingle (p, h) s
    → 0 < count (p, h) s.running
    → IsStuck
        (p, h)
        (after_report (record s { running = drop_first (p, h) s.running }) (send_block_to p h none))
unfolding send_block_to
unopened-IsStuck s p h v live =
    ground (arith, count-drop_first (p, h) (p, h) s.running live, beq_refl {A = Entry} (p, h))

-- A running task that could not open a stream leaves its entry behind: whatever happens afterwards,
-- every later request to send that block to that peer, of whatever file, is answered with
-- `SendBlockToAlreadyStarted` and starts no task.
pub open_stream-stuck :
    (s t : Sends) (p : PeerId) (f h : String)
    → Reach idle s
    → 0 < count (p, h) s.running
    → Reach
        (after_report (record s { running = drop_first (p, h) s.running }) (send_block_to p h none))
        t
    → send_block_to_command p f h t.pending
      ≡ (t.pending, reply (err (send_block_to_already_started (send_id p (f, h)))))
unfolding send_block_to_command
open_stream-stuck s t p f h before live after =
    let v = Reach-at_most_one (p, h) before in
    ground (arith, (Reach-IsStuck (p, h) after (unopened-IsStuck s p h v live)).0)
