-- ===== src/Cluster/Steps.antt =====
-- The exchanges that one node has with its peers, and the answers that they give it.
use dragoonfly.Base.{ℕ, ◌≡◌, Bool, some, List, [], ◌∷◌, ◌++◌, ◌==◌, nat_eq, if◌then◌else◌}
use dragoonfly.Base.Result.{Result, err}
use dragoonfly.Errors.{DragoonError}
use dragoonfly.Paths.{FilePath}
use dragoonfly.Strategy.{PeerId, SendId}
use dragoonfly.SendList.{Answer}
use dragoonfly.Network.SendBlockTo.{Report, nothing, remove_then_answer, send_block_to}
use dragoonfly.Exchange.World.{Env, World, Failure}
use dragoonfly.Exchange.Sender.{sender_side}
use dragoonfly.Exchange.Receiver.{recv_side}

-- What each peer has written to its disk, the last file first, and the answers so far.
pub record Cluster : Type 0 where
  pub disks : PeerId → List (FilePath × List ℕ)
  pub answers : List Answer

abbrev pub started : Cluster
started = record { disks = λ p. []; answers = [] }

-- The answer that the task of a send gives.
abbrev pub given : Report → List Answer
given nothing = []
given (remove_then_answer _ a) = a ∷ []

abbrev pub written : PeerId → List (FilePath × List ℕ) → Cluster → Cluster
written p files s = record s { disks = λ q. if p == q then files ++ s.disks q else s.disks q }

abbrev pub answered : List Answer → Cluster → Cluster
answered more s = record s { answers = s.answers ++ more }

-- The node that sends, with its peer id and the directory of its files, and for every peer its other
-- crates and its directory.
module _ (own : Env) (own_peer_id : PeerId) (own_dir : FilePath) (peers : PeerId → Env)
    (dirs : PeerId → FilePath) where
  abbrev pub sender_of : SendId → World → Result SendId (Bool × SendId) × World
  sender_of id u = sender_side own own_peer_id id.peer_id id.block_hash id.file_hash own_dir u

  abbrev pub receiver_of : PeerId → World → Result Failure (Unit {0}) × World
  receiver_of p w = recv_side (peers p) (dirs p) w

  -- An exchange ends, or a send ends without one. The streams of an exchange may break anywhere: each
  -- side has read a part, from the start, of what the other has written. `w.disk` is what this exchange
  -- has written, so that exchanges with one peer may overlap.
  pub data Step (s : Cluster) : Cluster → Type 0 where
    exchanged :
        (id : SendId) (u w : World) (lost_info lost_codes : List ℕ)
        → u.outgoing ≡ []
        → w.outgoing ≡ []
        → w.disk ≡ []
        → w.incoming ++ lost_info ≡ (sender_of id u).1.outgoing
        → u.incoming ++ lost_codes ≡ (receiver_of id.peer_id w).1.outgoing
        → Step s (
            answered
              (given (send_block_to id.peer_id id.block_hash (some (sender_of id u).0)))
              (written id.peer_id (receiver_of id.peer_id w).1.disk s))
    unstarted : (e : DragoonError) → Step s (answered (err e ∷ []) s)

  pub data Reach : Cluster → Type 0 where
    here : Reach started
    next : {s t : Cluster} → Reach s → Step s t → Reach t
