-- ===== src/Cluster/Safety.antt =====
-- A list of blocks that was sent: every block of the answer is with its peer.
use dragoonfly.Base.{
  ℕ, String, zero, suc, ◌<◌, ◌^◌, ◌≡◌, sym, ap, subst, ◌∙◌, Bool, true, false, Bool-cases, some,
  List, [], ◌∷◌, ◌++◌, length, take, get_elem?, ◌==◌, nat_eq, inl, inr, Listed, Listed-append_left,
  Listed-append_right, Listed-append_cases, Listed-take,
}
use dragoonfly.Base.Sets.{beq_refl}
use dragoonfly.Base.Result.{Result, ok, err}
use dragoonfly.Paths.{FilePath, push, get_block_dir}
use dragoonfly.Strategy.{PeerId, SendId}
use dragoonfly.SendList.{Answer, send_block_list, returned}
use dragoonfly.SendList.Answers.{acks}
use dragoonfly.SendList.Blocks.{send_block_list-acks}
use dragoonfly.Network.SendBlockTo.{send_block_to}
use dragoonfly.Exchange.World.{Env}
use dragoonfly.Exchange.Agreement.{sent_info}
use dragoonfly.Exchange.Delivered.{reported-stored}
use dragoonfly.Cluster.Steps.{
  Cluster, given, written, answered, sender_of, receiver_of, Step, exchanged, unstarted, Reach,
  here, next,
}

given-ok :
    (p : PeerId) (h : String) (res : Result SendId (Bool × SendId)) (id : SendId)
    → Listed (given (send_block_to p h (some res))) (ok (true, id))
    → res ≡ ok (true, id)
unfolding send_block_to
given-ok p h (ok r) id (zero, e) = cc
given-ok p h (ok r) id (suc i, e) = absurd cc
given-ok p h (err i) id (zero, e) = absurd cc
given-ok p h (err i) id (suc j, e) = absurd cc

acks-Listed :
    (answers : List Answer) (id : SendId)
    → Listed (acks answers) id
    → Listed answers (ok (true, id))
acks-Listed [] id (i, e) = absurd cc
acks-Listed (ok (true, x) ∷ more) id (zero, e) = (zero, cc)
acks-Listed (ok (true, x) ∷ more) id (suc i, e) =
    Listed-append_right (ok (true, x) ∷ []) more (ok (true, id)) (acks-Listed more id (i, e))
acks-Listed (ok (false, x) ∷ more) id l =
    Listed-append_right (ok (false, x) ∷ []) more (ok (true, id)) (acks-Listed more id l)
acks-Listed (err x ∷ more) id l =
    Listed-append_right (err x ∷ []) more (ok (true, id)) (acks-Listed more id l)

module _ (own : Env) (own_peer_id : PeerId) (own_dir : FilePath) (peers : PeerId → Env)
    (dirs : PeerId → FilePath) where
  abbrev pub source : SendId → FilePath
  source id = push (get_block_dir own_dir id.file_hash) id.block_hash

  abbrev target : SendId → FilePath
  target id = push (get_block_dir (dirs id.peer_id) id.file_hash) id.block_hash

  -- The peer of the send has written the bytes that the node has on its own disk for the block.
  abbrev pub IsStored : Cluster → SendId → Type 0
  IsStored s id =
      (content : List ℕ) × (own.read_file (source id) ≡ some content)
      × Listed (s.disks id.peer_id) (target id, content)

  written-IsStored :
      (p : PeerId) (files : List (FilePath × List ℕ)) (more : List Answer) (s : Cluster)
      (id : SendId)
      → IsStored s id
      → IsStored (answered more (written p files s)) id
  written-IsStored p files more s id (content, found, l) = elim (Bool-cases (p == id.peer_id)) [
    | inl e ↦ (content, found, rw e (Listed-append_right files (s.disks id.peer_id) _ l))
    | inr e ↦ (content, found, rw e l)
  ]

  new-IsStored :
      (files : List (FilePath × List ℕ)) (more : List Answer) (s : Cluster) (id : SendId)
      (content : List ℕ)
      → own.read_file (source id) ≡ some content
      → files ≡ (target id, content) ∷ []
      → IsStored (answered more (written id.peer_id files s)) id
  new-IsStored files more s id content found new = (
    content,
    found,
    rw (beq_refl id.peer_id)
        (Listed-append_left files (s.disks id.peer_id) _ (0, ap (λ l. get_elem? l 0) new)),
  )

  -- The info of a block on the node's disk is short enough, and its peer reads it back.
  module _
      (reads_back : (id : SendId) (bytes : List ℕ)
        → own.read_file (source id) ≡ some bytes
        → (peers id.peer_id).from_slice
            (own.to_vec (sent_info own own_peer_id id.block_hash id.file_hash bytes))
          ≡ some (sent_info own own_peer_id id.block_hash id.file_hash bytes))
      (is_short : (id : SendId) (bytes : List ℕ)
        → own.read_file (source id) ≡ some bytes
        → length (own.to_vec (sent_info own own_peer_id id.block_hash id.file_hash bytes))
          < 2 ^ 64) where
    Step-IsStored :
        {s t : Cluster}
        → Step own own_peer_id own_dir peers dirs s t
        → ((id : SendId) → Listed s.answers (ok (true, id)) → IsStored s id)
        → (id : SendId) → Listed t.answers (ok (true, id))
        → IsStored t id
    Step-IsStored {s} (unstarted e) inv id l =
        elim (Listed-append_cases s.answers (err e ∷ []) _ l) [
          | inl old ↦ inv id old
          | inr (zero, k) ↦ absurd cc
          | inr (suc i, k) ↦ absurd cc
        ]
    Step-IsStored {s}
          (exchanged id' u w lost_info lost_codes fresh_u fresh_w clean to_receiver to_sender) inv
          id l =
        let res = (sender_of own own_peer_id own_dir peers dirs id' u).0 in
        let end = (receiver_of own own_peer_id own_dir peers dirs id'.peer_id w).1 in
        let more = given (send_block_to id'.peer_id id'.block_hash (some res)) in
        elim (Listed-append_cases s.answers more _ l) [
          | inl old ↦ written-IsStored id'.peer_id end.disk more s id (inv id old)
          | inr new ↦
              let (same, content, found, stored) =
                reported-stored own (peers id'.peer_id) own_peer_id id'.peer_id id'.block_hash
                  id'.file_hash own_dir (dirs id'.peer_id) lost_info lost_codes u w id
                  (reads_back id') (is_short id') fresh_u fresh_w to_receiver to_sender
                  (given-ok id'.peer_id id'.block_hash res id new) in
              subst (λ x. IsStored (answered more (written id'.peer_id end.disk s)) x) (sym same)
                (new-IsStored end.disk more s id' content found
                  (stored ∙ ap (λ d. (target id', content) ∷ d) clean))
        ]

    Reach-IsStored :
        {s : Cluster}
        → Reach own own_peer_id own_dir peers dirs s
        → (id : SendId) → Listed s.answers (ok (true, id))
        → IsStored s id
    Reach-IsStored here id (i, e) = absurd cc
    Reach-IsStored (next r step) id l = Step-IsStored step (Reach-IsStored r) id l

    -- A node runs any number of exchanges with its peers, whose streams may break anywhere. Its
    -- `send_block_list` reads answers of these exchanges, those of the first loop and those of the
    -- recuperation, and returns a distribution. Then for each block of the distribution, its peer has
    -- written to its disk, under its own directory for the file and the name of the block, exactly the
    -- bytes that the node has on its own disk for the block. This holds if for each block on the node's
    -- disk the serialised info takes less than 2^64 bytes and the peer's parser reads it back.
    pub send_block_list-IsStored :
        {s : Cluster} (number : ℕ) (stream : List SendId) (first second : List Answer)
        (sent : List SendId)
        → Reach own own_peer_id own_dir peers dirs s
        → ((a : Answer) → Listed (first ++ second) a → Listed s.answers a)
        → send_block_list number stream first second ≡ returned (ok sent)
        → (id : SendId) → Listed sent id
        → IsStored s id
    send_block_list-IsStored number stream first second sent reached given_here h id l =
        let (k, e) = send_block_list-acks number stream first second sent h in
        let l' = subst (λ x. Listed x id) e l in
        Reach-IsStored reached id (
          given_here (ok (true, id))
            (elim (Listed-append_cases (acks first) (acks (take k second)) id l') [
              | inl f ↦ Listed-append_left first second _ (acks-Listed first id f)
              | inr g ↦
                  Listed-append_right first second _
                    (Listed-take k second _ (acks-Listed (take k second) id g))
            ]))
