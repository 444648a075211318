-- ===== src/SendList/Index.antt =====
-- The index into the accepted peers.
use dragoonfly.Base.{
  ℕ, zero, suc, String, ◌<◌, ◌≡◌, ◌≢◌, refl, Option, none, some, List, [], ◌∷◌, ◌++◌, subst, length,
  get_elem?, le_of_get_elem?-none, arith, Option-cases, inl, inr, ◌⊎◌, true, false, nat_eq,
}
use dragoonfly.Base.Result.{Result, ok, err, ◌>>=◌, Result-cases}
use dragoonfly.Errors.{
  Context, more_blocks_than_expected, no_more_peers, invalid_index, send_block_to_error,
}
use dragoonfly.Strategy.{PeerId, SendId, BlockInput, block_of}
use dragoonfly.SendList.Defs.{Answer}
use dragoonfly.SendList.Optimistic.{Lists, no_lists, send_all, collect, optimistic_loop}
use dragoonfly.SendList.Recovery.{
  Peers, Recovery, drop_peer, take_peer, handle_rejected_block, resend_all, retry, on_retry_answer,
  recuperation, first_peers, after_first_loop, Outcome, failed, send_block_list,
}
use dragoonfly.SendList.Vectors.{position, position-lt, length-remove_at}

abbrev pub IsInRange : Peers → Type 0
IsInRange s = (s.accepted_peers_index < length s.accepted_peers) ⊎ (s.accepted_peers_index ≡ 0)

drop_peer-IsInRange : (s : Peers) (p : Option PeerId) → IsInRange s → IsInRange (drop_peer s p)
unfolding drop_peer
drop_peer-IsInRange s none h = h
drop_peer-IsInRange s (some p) h = elim (Option-cases (position p s.accepted_peers)) [
  | inl e ↦ ground arith
  | inr (i, e) ↦
      ground (arith, position-lt p s.accepted_peers i e, length-remove_at i s.accepted_peers)
]

-- The one error that is left, and an index in range otherwise.
abbrev Good {ℓ} : {A : Type ℓ} → Result Context (A × Peers) → Type 0
Good (ok (_, s)) = IsInRange s
Good (err c) = c ≡ no_more_peers

Good-bind {ℓ κ} :
    {A : Type ℓ} {B : Type κ} (m : Result Context (A × Peers))
    (f : A × Peers → Result Context (B × Peers))
    → Good m
    → ((a : A) (s : Peers) → IsInRange s → Good (f (a, s)))
    → Good (m >>= f)
Good-bind (ok (a, s)) f h k = k a s h
Good-bind (err c) f h k = h

take_peer-Good : (s : Peers) → IsInRange s → Good (take_peer s)
unfolding take_peer
take_peer-Good s h = elim (Option-cases (get_elem? s.accepted_peers s.accepted_peers_index)) [
  | inl e ↦
      rw (e, take_peer)
        (ground (arith, le_of_get_elem?-none s.accepted_peers s.accepted_peers_index e))
  | inr (p, e) ↦ rw (e, take_peer) (ground arith)
]

handle_rejected_block-Good :
    (p : Option PeerId) (b : BlockInput) (s : Peers)
    → IsInRange s
    → Good (handle_rejected_block p b s)
unfolding handle_rejected_block
handle_rejected_block-Good p b s h =
    Good-bind (take_peer (drop_peer s p)) _
      (take_peer-Good (drop_peer s p) (drop_peer-IsInRange s p h)) (λ q s' k. k)

resend_all-Good : (s : Peers) (bs : List BlockInput) → IsInRange s → Good (resend_all s bs)
unfolding resend_all
resend_all-Good s [] h = h
resend_all-Good s (b ∷ bs) h =
    Good-bind (handle_rejected_block none b s) _ (handle_rejected_block-Good none b s h)
      (λ cmd s' k. Good-bind (resend_all s' bs) _ (resend_all-Good s' bs k) (λ cmds s'' k'. k'))

abbrev GoodStep : Result Context Recovery → Type 0
GoodStep (ok r) = IsInRange r.peers
GoodStep (err c) = c ≡ no_more_peers

retry-GoodStep : (r : Recovery) (id : SendId) → IsInRange r.peers → GoodStep (retry r id)
unfolding retry
retry-GoodStep r id h =
    go (handle_rejected_block (some id.peer_id) (block_of id) r.peers)
      (handle_rejected_block-Good (some id.peer_id) (block_of id) r.peers h)
  where
    go :
        (m : Result Context (SendId × Peers))
        → Good m
        → GoodStep
            (m >>= λ (cmd, s). ok (record r { peers = s; commands = r.commands ++ cmd ∷ [] }))
    go (ok (cmd, s)) k = k
    go (err c) k = k

on_retry_answer-GoodStep :
    (r : Recovery) (a : Answer) → IsInRange r.peers → GoodStep (on_retry_answer r a)
unfolding on_retry_answer
on_retry_answer-GoodStep r (ok (true, id)) h = h
on_retry_answer-GoodStep r (ok (false, id)) h = retry-GoodStep r id h
on_retry_answer-GoodStep r (err (send_block_to_error id)) h = retry-GoodStep r id h
on_retry_answer-GoodStep r (err _) h = h

-- No failure speaks of an index out of range.
abbrev GoodOutcome : Outcome → Type 0
GoodOutcome o = (sent : List SendId) (n i : ℕ) → o ≢ failed sent (invalid_index n i)

recuperation-GoodOutcome :
    (r : Recovery) (answers : List Answer)
    → IsInRange r.peers
    → GoodOutcome (recuperation r answers)
unfolding recuperation
recuperation-GoodOutcome r [] h sent n i e = cc
recuperation-GoodOutcome r (a ∷ more) h sent n i e = elim (Result-cases (on_retry_answer r a)) [
  | inl (r', q) ↦ ground (
    arith,
    recuperation-GoodOutcome r' more (subst GoodStep q (on_retry_answer-GoodStep r a h)) sent n i,
  )
  | inr (c, q) ↦
      let k : c ≡ no_more_peers = subst GoodStep q (on_retry_answer-GoodStep r a h) in ground arith
]

after_first_loop-GoodOutcome :
    (number : ℕ) (l : Lists) (second : List Answer) → GoodOutcome (after_first_loop number l second)
unfolding after_first_loop
after_first_loop-GoodOutcome number l second sent n i e =
    let good = resend_all-Good (first_peers l) l.rejected_blocks (inr refl) in
    elim (Result-cases (resend_all (first_peers l) l.rejected_blocks)) [
      | inl ((cmds, s), q) ↦ ground (
        arith,
        recuperation-GoodOutcome
            (record {
              peers = s;
              rejected_blocks = l.rejected_blocks;
              final_block_distribution = l.final_block_distribution;
              commands = cmds;
            })
            second (subst Good q good) sent n i,
      )
      | inr (c, q) ↦ let k : c ≡ no_more_peers = subst Good q good in ground arith
    ]

send_all_error :
    (n : ℕ) (ids : List SendId) (c : Context)
    → send_all n ids ≡ err c
    → (f : String) × (c ≡ more_blocks_than_expected f)
unfolding send_all
send_all_error n [] c h = cc
send_all_error zero (id ∷ ids) c h = (id.file_hash, ground arith)
send_all_error (suc n) (id ∷ ids) c h = elim (Result-cases (send_all n ids)) [
  | inl (cmds, q) ↦ absurd (ground arith)
  | inr (c', q) ↦ send_all_error n ids c (ground arith)
]

-- Whatever the strategy sends and whatever answers come, `send_block_list` never fails with "Invalid get
-- index on the list of accepted peers": the index stays below the number of accepted peers.
pub send_block_list-ne-invalid_index :
    (number : ℕ) (stream : List SendId) (first second : List Answer) (sent : List SendId) (n i : ℕ)
    → send_block_list number stream first second ≢ failed sent (invalid_index n i)
unfolding send_block_list optimistic_loop
send_block_list-ne-invalid_index number stream first second sent n i e =
    elim (Result-cases (send_all number stream)) [
      | inl (cmds, q) ↦
          ground
            (arith, after_first_loop-GoodOutcome number (collect no_lists first) second sent n i)
      | inr (c, q) ↦ let (f, k) = send_all_error number stream c q in ground arith
    ]
