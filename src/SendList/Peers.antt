-- ===== src/SendList/Peers.antt =====
-- Which peers the first loop leaves accepted.
use dragoonfly.Base.{
  ◌≡◌, refl, Bool, true, false, not, ◌&&◌, ◌||◌, List, [], ◌∷◌, nat_eq, ◌==◌, nat_beq_iff, arith,
}
use dragoonfly.Base.Sets.{contains, contains-insert, contains-remove}
use dragoonfly.Base.Result.{ok, err}
use dragoonfly.Errors.{send_block_to_error}
use dragoonfly.Strategy.{PeerId}
use dragoonfly.SendList.Optimistic.{Lists, no_lists, on_answer, collect}
use dragoonfly.SendList.Defs.{Answer}

-- The peer took some block, and the peer refused some block.
abbrev pub took : PeerId → Answer → Bool
took p (ok (true, id)) = id.peer_id == p
took p _ = false

abbrev pub refused : PeerId → Answer → Bool
refused p (ok (false, id)) = id.peer_id == p
refused p _ = false

abbrev pub any : (Answer → Bool) → List Answer → Bool
any f [] = false
any f (a ∷ more) = f a || any f more

on_answer-rejected :
    (l : Lists) (a : Answer) (p : PeerId)
    → contains (on_answer l a).rejected_peers p ≡ (contains l.rejected_peers p || refused p a)
unfolding on_answer
on_answer-rejected l (ok (true, id)) p = ground arith
on_answer-rejected l (ok (false, id)) p =
    ground (arith, contains-insert id.peer_id p l.rejected_peers)
on_answer-rejected l (err (send_block_to_error id)) p = ground arith
on_answer-rejected l (err _) p = ground arith

on_answer-accepted :
    (l : Lists) (a : Answer) (p : PeerId)
    → (contains l.accepted_peers p && contains l.rejected_peers p) ≡ false
    → contains (on_answer l a).accepted_peers p ≡ (
        (contains l.accepted_peers p || took p a)
        && not (contains l.rejected_peers p || refused p a))
unfolding on_answer
on_answer-accepted l (ok (true, id)) p h =
    ground (arith, contains-insert id.peer_id p l.accepted_peers, nat_beq_iff id.peer_id p)
on_answer-accepted l (ok (false, id)) p h =
    ground (arith, contains-remove id.peer_id p l.accepted_peers)
on_answer-accepted l (err (send_block_to_error id)) p h = ground arith
on_answer-accepted l (err _) p h = ground arith

collect-peers :
    (l : Lists) (answers : List Answer) (p : PeerId)
    → (contains l.accepted_peers p && contains l.rejected_peers p) ≡ false
    → (contains (collect l answers).accepted_peers p ≡ (
        (contains l.accepted_peers p || any (took p) answers)
        && not (contains l.rejected_peers p || any (refused p) answers)))
      × (contains (collect l answers).rejected_peers p
          ≡ (contains l.rejected_peers p || any (refused p) answers))
unfolding collect
collect-peers l [] p h = ground arith
collect-peers l (a ∷ more) p h = ground (
  arith,
  on_answer-rejected l a p,
  on_answer-accepted l a p,
  collect-peers (on_answer l a) more p,
)

-- After the first loop a peer counts as accepted exactly if it took some block and refused none, and as
-- rejected exactly if it refused one, in whatever order its answers came.
pub collect-accepted :
    (answers : List Answer) (p : PeerId)
    → let l = collect no_lists answers in
      (contains l.accepted_peers p ≡ (any (took p) answers && not (any (refused p) answers)))
      × (contains l.rejected_peers p ≡ any (refused p) answers)
unfolding contains
collect-accepted answers p = collect-peers no_lists answers p refl
