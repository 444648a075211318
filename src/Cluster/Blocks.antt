-- ===== src/Cluster/Blocks.antt =====
-- Every block of a `SendBlockList` command is with one of the peers.
use dragoonfly.Base.{
  ℕ, zero, suc, ◌+◌, ◌<◌, ◌^◌, ◌≤◌, ◌≡◌, refl, sym, subst, String, Bool-cases, some, List, [], ◌∷◌,
  ◌++◌, length, map, ◌==◌, nat_eq, string_eq, pair_eq, pair_beq_iff, inl, inr, arith, Listed,
}
use dragoonfly.Base.Result.{ok}
use dragoonfly.Paths.{FilePath}
use dragoonfly.Strategy.{PeerId, SendId, BlockInput, block_of, StrategyName}
use dragoonfly.Strategy.Random.{SliceRandom}
use dragoonfly.SendList.{Answer, send_block_list, returned, send_stream}
use dragoonfly.SendList.Vectors.{count}
use dragoonfly.SendList.Answers.{acks, refusals, blocks_of}
use dragoonfly.SendList.Blocks.{send_block_list_complete}
use dragoonfly.SendList.Delivery.{send_stream-blocks}
use dragoonfly.Exchange.World.{Env}
use dragoonfly.Exchange.Agreement.{sent_info}
use dragoonfly.Cluster.Steps.{Cluster, Reach}
use dragoonfly.Cluster.Safety.{IsStored, source, send_block_list-IsStored}

count-Listed : (b : BlockInput) (xs : List BlockInput) → Listed xs b → 0 < count b xs
count-Listed b [] (i, e) = absurd cc
count-Listed b (x ∷ xs) (zero, e) = ground (arith, e, pair_beq_iff x b)
count-Listed b (x ∷ xs) (suc i, e) = ground (arith, count-Listed b xs (i, e))

Listed-count :
    (b : BlockInput) (ids : List SendId)
    → 0 < count b (blocks_of ids)
    → (id : SendId) × Listed ids id × (block_of id ≡ b)
Listed-count b [] h = absurd (omega arith)
Listed-count b (id ∷ ids) h = elim (Bool-cases (block_of id == b)) [
  | inl e ↦ (id, (0, refl), (pair_beq_iff (block_of id) b).0 e)
  | inr e ↦
      let (x, (i, k), same) = Listed-count b ids (ground (arith, h, e)) in (x, (suc i, k), same)
]

Listed-map :
    {A B : Type 0} (f : A → B) (xs : List A) (x : A) → Listed xs x → Listed (map f xs) (f x)
Listed-map f [] x (i, e) = absurd cc
Listed-map f (y ∷ ys) x (zero, e) = (zero, cc)
Listed-map f (y ∷ ys) x (suc i, e) = let (j, k) = Listed-map f ys x (i, e) in (suc j, k)

module _ (own : Env) (own_peer_id : PeerId) (own_dir : FilePath) (peers : PeerId → Env)
    (dirs : PeerId → FilePath) where
  -- A node that knows at least one peer sends a list of blocks of a file by either strategy, over
  -- exchanges whose streams may break anywhere. Each block is acknowledged, refused or reported as failed
  -- at least once by the answers that the first loop reads, every answer that is read comes from the
  -- exchanges, and for each block on the node's disk the serialised info takes less than 2^64 bytes and
  -- the peer's parser reads it back. If `send_block_list` returns a distribution, then every block of the
  -- list is in it with a peer that has written exactly the bytes that the node has on its disk for it.
  pub send_block_list-every_block_IsStored :
      {s : Cluster} (r : SliceRandom) (g : r.Rng) (strategy : StrategyName)
      (known_peers : List PeerId) (file_hash : String) (block_list : List String)
      (first second : List Answer) (sent : List SendId)
      → ((id : SendId) (bytes : List ℕ)
          → own.read_file (source own own_peer_id own_dir peers dirs id) ≡ some bytes
          → (peers id.peer_id).from_slice
              (own.to_vec (sent_info own own_peer_id id.block_hash id.file_hash bytes))
            ≡ some (sent_info own own_peer_id id.block_hash id.file_hash bytes))
      → ((id : SendId) (bytes : List ℕ)
          → own.read_file (source own own_peer_id own_dir peers dirs id) ≡ some bytes
          → length (own.to_vec (sent_info own own_peer_id id.block_hash id.file_hash bytes))
            < 2 ^ 64)
      → 0 < length known_peers
      → Reach own own_peer_id own_dir peers dirs s
      → ((a : Answer) → Listed (first ++ second) a → Listed s.answers a)
      → ((b : BlockInput)
          → count b (blocks_of (send_stream r g strategy known_peers file_hash block_list))
            ≤ count b (blocks_of (acks first)) + count b (refusals first))
      → send_block_list
          (length block_list)
          (send_stream r g strategy known_peers file_hash block_list)
          first
          second
        ≡ returned (ok sent)
      → (hash : String) → Listed block_list hash
      → (id : SendId) × Listed sent id
        × (block_of id ≡ (file_hash, hash))
        × IsStored own own_peer_id own_dir peers dirs s id
  send_block_list-every_block_IsStored r g strategy known_peers file_hash block_list first second
        sent reads_back is_short known reached given_here answered h hash l =
      let stream = send_stream r g strategy known_peers file_hash block_list in
      let b : BlockInput = (file_hash, hash) in
      let wanted =
        count-Listed b (map (λ x. (file_hash, x)) block_list)
          (Listed-map (λ x. (file_hash, x)) block_list hash l) in
      let in_stream : 0 < count b (blocks_of stream) =
        subst (λ x. 0 < count b x)
          (sym (send_stream-blocks r g strategy known_peers file_hash block_list known)) wanted in
      let kept =
        send_block_list_complete (length block_list) stream first second sent answered h b in
      let (id, here, same) = Listed-count b sent (omega (arith, in_stream, kept)) in
      (
        id,
        here,
        same,
        send_block_list-IsStored own own_peer_id own_dir peers dirs reads_back is_short
            (length block_list) stream first second sent reached given_here h id here,
      )
