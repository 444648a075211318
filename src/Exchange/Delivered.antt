-- ===== src/Exchange/Delivered.antt =====
-- Both sides of an exchange on streams that may break anywhere: a block that the sender reports as
-- correct is on the receiver's disk.
use dragoonfly.Base.{
  ℕ, ◌<◌, ◌≤◌, ◌≡◌, refl, sym, ap, subst, ◌∙◌, ◌^◌, String, Bool, true, Option, some, List, [], ◌∷◌,
  ◌++◌, length, take, drop, get_elem?, get_elem?-append_some, arith, append_assoc, append-nil,
}
use dragoonfly.Base.Result.{Result, ok}
use dragoonfly.Paths.{FilePath, push, get_block_dir}
use dragoonfly.Strategy.{PeerId, SendId, send_id}
use dragoonfly.Exchange.Frame.{
  to_be_bytes, from_be_bytes, usize_bytes, length-to_be_bytes, from_be_bytes-to_be_bytes,
}
use dragoonfly.Exchange.World.{Env, World, Failure, PeerBlockInfo}
use dragoonfly.Exchange.Receiver.{recv_side}
use dragoonfly.Exchange.Sender.{sender_side}
use dragoonfly.Exchange.Agreement.{sent_info}
use dragoonfly.Exchange.Confirmed.{Confirms}
use dragoonfly.Exchange.Acknowledged.{Acknowledged, recv_side-Acknowledged}
use dragoonfly.Exchange.Reported.{framed, sender_side-true}

-- A list that goes on to begin with another one begins with it as soon as it is long enough.
prefix_split :
    {A : Type 0} (xs lost front back : List A)
    → length front ≤ length xs
    → xs ++ lost ≡ front ++ back
    → (take (length front) xs ≡ front) × (drop (length front) xs ++ lost ≡ back)
prefix_split xs lost [] back h e = (refl, e)
prefix_split [] lost (a ∷ front) back h e = absurd (omega (arith, h))
prefix_split (x ∷ xs) lost (a ∷ front) back h e =
    let (taken, left) = prefix_split xs lost front back (omega (arith, h)) cc in (cc, left)

some-same : {A : Type 0} {o : Option A} {a b : A} → o ≡ some a → o ≡ some b → a ≡ b
some-same h k = cc

-- What is read by a receiver whose stream carries a part of a frame and a block.
read_back :
    (env : Env) (dir : FilePath) (info : PeerBlockInfo) (ser_info content incoming lost : List ℕ)
    (h : String) (w w' : World)
    → info.block_sizes ≡ some (length content ∷ [])
    → info.block_hashes ≡ h ∷ []
    → env.from_slice ser_info ≡ some info
    → length ser_info < 2 ^ 64
    → incoming ++ lost ≡ framed ser_info ++ content
    → usize_bytes ≤ length incoming
    → Acknowledged env dir
        (from_be_bytes (take usize_bytes incoming))
        (drop usize_bytes incoming)
        w
        w'
    → w'.disk ≡ (push (get_block_dir dir info.file_hash) h, content) ∷ w.disk
read_back env dir info ser_info content incoming lost h w w' sized named law small stream enough
      (info', fits, parsed, (size, more, h', hs, sized', named', enough', stored)) =
    let len = length-to_be_bytes (length ser_info) in
    let (first, rest) =
      prefix_split incoming lost (to_be_bytes (length ser_info)) (ser_info ++ content)
        (omega (arith, len, enough))
        (stream ∙ append_assoc (to_be_bytes (length ser_info)) ser_info content) in
    let first' = ap (λ n. take n incoming) (sym len) ∙ first in
    let rest' = ap (λ n. drop n incoming ++ lost) (sym len) ∙ rest in
    let is_length = ap from_be_bytes first' ∙ from_be_bytes-to_be_bytes (length ser_info) small in
    let (second, last) =
      prefix_split (drop usize_bytes incoming) lost ser_info content
        (subst (λ n. n ≤ length (drop usize_bytes incoming)) is_length fits) rest' in
    let parses : env.from_slice
          (take (from_be_bytes (take usize_bytes incoming)) (drop usize_bytes incoming))
        ≡ some info =
      ap (λ n. env.from_slice (take n (drop usize_bytes incoming))) is_length
      ∙ ap env.from_slice second
      ∙ law in
    let is_info : info' ≡ info = some-same parsed parses in
    let is_size : size ≡ length content = ground (arith, is_info, sized, sized') in
    let is_hash : h' ≡ h = ground (arith, is_info, named, named') in
    let read = drop (from_be_bytes (take usize_bytes incoming)) (drop usize_bytes incoming) in
    let last' : read ++ lost ≡ content ++ [] =
      ap (λ n. drop n (drop usize_bytes incoming) ++ lost) is_length
      ∙ last
      ∙ sym (append-nil content) in
    let (third, _) =
      prefix_split read lost content [] (subst (λ n. n ≤ length read) is_size enough') last' in
    stored
    ∙ ap (λ i. (push (get_block_dir dir i.file_hash) h', take size read) ∷ w.disk) is_info
    ∙ ap (λ k. (push (get_block_dir dir info.file_hash) k, take size read) ∷ w.disk) is_hash
    ∙ ap (λ n. (push (get_block_dir dir info.file_hash) h, take n read) ∷ w.disk) is_size
    ∙ ap (λ b. (push (get_block_dir dir info.file_hash) h, b) ∷ w.disk) third

module _ (s r : Env) (own_peer_id recv_peer_id : PeerId) (block_hash file_hash : String)
    (sender_dir dir : FilePath) (lost_info lost_codes : List ℕ) (u w : World) where
  abbrev info : List ℕ → PeerBlockInfo
  info bytes = sent_info s own_peer_id block_hash file_hash bytes

  abbrev pub sender_end : Result SendId (Bool × SendId) × World
  sender_end = sender_side s own_peer_id recv_peer_id block_hash file_hash sender_dir u

  abbrev pub receiver_end : Result Failure (Unit {0}) × World
  receiver_end = recv_side r dir w

  -- The two sides of an exchange run on new streams that may break after any byte: each side reads a part,
  -- from the start, of what the other has written. The receiver's parser reads back, as it was sent,
  -- the info for the bytes on the sender's disk, and that info takes less than 2^64 bytes. If the sender's side ends with the answer
  -- that the block is correct, then it names the send, and the receiver's disk has got one more file, under the receiver's own
  -- directory for the file and the name of the block, with exactly the bytes that the sender has on its
  -- disk for the block. Nothing is assumed of the receiver's room, disk, powers or parser of blocks, nor
  -- of how many writes go through.
  pub reported-stored :
      (id : SendId)
      → ((bytes : List ℕ)
          → s.read_file (push (get_block_dir sender_dir file_hash) block_hash) ≡ some bytes
          → r.from_slice (s.to_vec (info bytes)) ≡ some (info bytes))
      → ((bytes : List ℕ)
          → s.read_file (push (get_block_dir sender_dir file_hash) block_hash) ≡ some bytes
          → length (s.to_vec (info bytes)) < 2 ^ 64)
      → u.outgoing ≡ []
      → w.outgoing ≡ []
      → w.incoming ++ lost_info ≡ sender_end.1.outgoing
      → u.incoming ++ lost_codes ≡ receiver_end.1.outgoing
      → sender_end.0 ≡ ok (true, id)
      → (id ≡ send_id recv_peer_id (file_hash, block_hash))
        × (content : List ℕ) × (s.read_file (push (get_block_dir sender_dir file_hash) block_hash)
            ≡ some content)
        × (receiver_end.1.disk ≡ (push (get_block_dir dir file_hash) block_hash, content) ∷ w.disk)
  reported-stored id law small fresh_u fresh_w to_receiver to_sender success =
      let v = sender_end.1 in
      let ends : sender_end ≡ (ok (true, id), v) = cc in
      let (same_id, content, found, is_correct, sent) =
        sender_side-true s own_peer_id recv_peer_id block_hash file_hash sender_dir id u v ends in
      let confirms : Confirms receiver_end.1 =
        ap (λ l. get_elem? l 1) (sym to_sender)
        ∙ get_elem?-append_some u.incoming lost_codes 1 _ is_correct in
      let (enough, has) = recv_side-Acknowledged r dir w fresh_w confirms in
      (
        same_id,
        content,
        found,
        read_back r dir (info content) (s.to_vec (info content)) content w.incoming lost_info
            block_hash w receiver_end.1 refl refl (law content found) (small content found)
            (to_receiver
              ∙ sent
              ∙ ap (λ l. (l ++ framed (s.to_vec (info content))) ++ content) fresh_u)
            enough has,
      )
