-- ===== src/Network/Fetch.antt =====
-- `GetBlockFrom`: a block goes from one node to another.
use dragoonfly.Base.{
  ℕ, ◌≡◌, refl, Bool, true, false, inl, inr, String, Option, none, some, Option-cases, List, [],
  ◌∷◌, ◌++◌, if◌then◌else◌, arith, nat_eq, ◌∙◌, ap,
}
use dragoonfly.Base.Sets.{beq_refl}
use dragoonfly.Base.Result.{ok}
use dragoonfly.Strategy.{PeerId}
use dragoonfly.Paths.{is_absolute, push, get_block_dir}
use dragoonfly.Commands.Defs
use dragoonfly.Network.Table.{lookup}
use dragoonfly.Network.Defs.{
  Channel, BlockResponse, block, requested_block, responded_block, created_dir, wrote, Node,
}
use dragoonfly.Network.Outside.{Outside}
use dragoonfly.Network.Files.{Written}
use dragoonfly.Network.Command.{handle_command}
use dragoonfly.Network.Event.{
  handle_event, block_request, block_response, message_request, save_block, on_block_response,
}

-- The response that a node gives for a block that it reads.
abbrev pub response : String → String → List ℕ → BlockResponse
response f h bytes = record { file_hash = f; block_hash = h; block_data = bytes }

block_request-response :
    (w : Outside) (r : Node) (shown f h : String) (bytes : List ℕ)
    → w.read_file (push (get_block_dir r.file_dir f) h) ≡ some bytes
    → w.send_response ≡ true
    → (handle_event w r (block_request shown f h)).actions
      ≡ responded_block (response f h bytes) ∷ r.actions
unfolding handle_event message_request
block_request-response w r shown f h bytes read sends = ground (arith, read, sends)

-- A request that was just made.
get_block_from_asks :
    (u : Outside) (n : Node) (c : Channel) (p : PeerId) (f h : String) (save : Bool)
    → let asked = handle_command u n c (Defs.get_block_from p f h save) in
      (lookup u.send_request asked.pending_request_block ≡ some (save, c))
      × (asked.answered ≡ n.answered)
      × (asked.actions ≡ requested_block p f h ∷ n.actions)
      × (asked.file_dir ≡ n.file_dir)
unfolding handle_command
get_block_from_asks u n c p f h save =
    let first = beq_refl u.send_request in
    elim (Option-cases (lookup u.send_request n.pending_request_block)) [
      | inl q ↦ (ground (arith, q, first), ground (arith, q), ground (arith, q), ground (arith, q))
      | inr ((b, d), q) ↦
          (ground (arith, q, first), ground (arith, q), ground (arith, q), ground (arith, q))
    ]

-- What a response does to the request that waits for it.
abbrev outcome : Outside → Node → Bool → BlockResponse → Written
outcome w n true r = save_block w n.file_dir r
outcome w n false r = (ok (block (some r)), [])

on_block_response-outcome :
    (w : Outside) (n : Node) (o : Option (Bool × Channel)) (save : Bool) (c : Channel)
    (r : BlockResponse)
    → o ≡ some (save, c)
    → ((on_block_response w o r n).answered ≡ (c, (outcome w n save r).0) ∷ n.answered)
      × ((on_block_response w o r n).actions ≡ (outcome w n save r).1 ++ n.actions)
on_block_response-outcome w n none save c r q = absurd cc
on_block_response-outcome w n (some (true, d)) save c r q = (ground (arith, q), ground (arith, q))
on_block_response-outcome w n (some (false, d)) save c r q = (ground (arith, q), ground (arith, q))

save_block_done :
    (w : Outside) (n : Node) (r : BlockResponse)
    → w.create_dir_all (get_block_dir n.file_dir r.file_hash) ≡ true
    → w.write_all (push (get_block_dir n.file_dir r.file_hash) r.block_hash) r.block_data ≡ true
    → save_block w n.file_dir r ≡ (
      ok (block none),
      wrote (push (get_block_dir n.file_dir r.file_hash) r.block_hash) r.block_data
          ∷ created_dir (get_block_dir n.file_dir r.file_hash)
          ∷ [],
    )
unfolding save_block
save_block_done w n r makes writes = ground (arith, makes, writes)

-- The whole of the response.
abbrev Received : Node → Channel → Bool → BlockResponse → Node → Type 0
Received m c save r n =
    (m.answered ≡ (c, ok (block (if save then none else some r))) ∷ n.answered)
    × (m.actions ≡ (
        if save
        then wrote (push (get_block_dir n.file_dir r.file_hash) r.block_hash) r.block_data
          ∷ created_dir (get_block_dir n.file_dir r.file_hash)
          ∷ n.actions
        else n.actions))

on_block_response-Received :
    (w : Outside) (n : Node) (id : ℕ) (c : Channel) (save : Bool) (r : BlockResponse)
    → lookup id n.pending_request_block ≡ some (save, c)
    → w.create_dir_all (get_block_dir n.file_dir r.file_hash) ≡ true
    → w.write_all (push (get_block_dir n.file_dir r.file_hash) r.block_hash) r.block_data ≡ true
    → Received (handle_event w n (block_response id r)) c save r n
unfolding handle_event
on_block_response-Received w n id c false r q makes writes =
    on_block_response-outcome w _ _ false c r q
on_block_response-Received w n id c true r q makes writes =
    let (a, b) = on_block_response-outcome w _ _ true c r q in
    let done = save_block_done w n r makes writes in
    (a ∙ ap (λ o. (c, o.0) ∷ n.answered) done, b ∙ ap (λ o. o.1 ++ n.actions) done)

-- The same, told of the node before the request.
get_block_from_asks-Received :
    (m a n : Node) (c : Channel) (save : Bool) (p : PeerId) (f h : String) (r : BlockResponse)
    → a.answered ≡ n.answered
    → a.actions ≡ requested_block p f h ∷ n.actions
    → a.file_dir ≡ n.file_dir
    → Received m c save r a
    → (m.answered ≡ (c, ok (block (if save then none else some r))) ∷ n.answered)
      × (m.actions ≡ (
          if save
          then wrote (push (get_block_dir n.file_dir r.file_hash) r.block_hash) r.block_data
            ∷ created_dir (get_block_dir n.file_dir r.file_hash)
            ∷ requested_block p f h
            ∷ n.actions
          else requested_block p f h ∷ n.actions))
get_block_from_asks-Received m a n c true p f h r same acts dir (x, y) =
    (ground (arith, x, same), ground (arith, y, acts, dir))
get_block_from_asks-Received m a n c false p f h r same acts dir (x, y) =
    (ground (arith, x, same), ground (arith, y, acts))

get_block_from-Received :
    (u w : Outside) (n : Node) (c : Channel) (p : PeerId) (f h : String) (save : Bool)
    (r : BlockResponse)
    → w.create_dir_all (get_block_dir n.file_dir r.file_hash) ≡ true
    → w.write_all (push (get_block_dir n.file_dir r.file_hash) r.block_hash) r.block_data ≡ true
    → let m =
        handle_event w
          (handle_command u n c (Defs.get_block_from p f h save))
          (block_response u.send_request r) in
      (m.answered ≡ (c, ok (block (if save then none else some r))) ∷ n.answered)
      × (m.actions ≡ (
          if save
          then wrote (push (get_block_dir n.file_dir r.file_hash) r.block_hash) r.block_data
            ∷ created_dir (get_block_dir n.file_dir r.file_hash)
            ∷ requested_block p f h
            ∷ n.actions
          else requested_block p f h ∷ n.actions))
get_block_from-Received u w n c p f h save r makes writes =
    let asked = handle_command u n c (Defs.get_block_from p f h save) in
    let (waits, same, acts, dir) = get_block_from_asks u n c p f h save in
    let got =
      on_block_response-Received w asked u.send_request c save r waits
        (ap (λ d. w.create_dir_all (get_block_dir d r.file_hash)) dir ∙ makes)
        (ap (λ d. w.write_all (push (get_block_dir d r.file_hash) r.block_hash) r.block_data) dir
          ∙ writes) in
    get_block_from_asks-Received (handle_event w asked (block_response u.send_request r)) asked n c
      save p f h r same acts dir got

-- What one node holds on its disk another one gets: `GetBlockFrom` without `save_to_disk` answers with the
-- block as the other node read it, and with `save_to_disk` it writes the same bytes under the same two
-- hashes, where its disk lets it, and answers with no block.
pub get_block_from-bytes :
    (u v w : Outside) (n r : Node) (c : Channel) (p : PeerId) (shown f h : String) (save : Bool)
    (bytes : List ℕ)
    → v.read_file (push (get_block_dir r.file_dir f) h) ≡ some bytes
    → v.send_response ≡ true
    → w.create_dir_all (get_block_dir n.file_dir f) ≡ true
    → w.write_all (push (get_block_dir n.file_dir f) h) bytes ≡ true
    → let asked = handle_command u n c (Defs.get_block_from p f h save) in
      (b : BlockResponse) × ((handle_event v r (block_request shown f h)).actions
        ≡ responded_block b ∷ r.actions)
      × (b.block_data ≡ bytes)
      × ((handle_event w asked (block_response u.send_request b)).answered
          ≡ (c, ok (block (if save then none else some b))) ∷ n.answered)
      × ((handle_event w asked (block_response u.send_request b)).actions ≡ (
          if save
          then wrote (push (get_block_dir n.file_dir f) h) bytes
            ∷ created_dir (get_block_dir n.file_dir f)
            ∷ requested_block p f h
            ∷ n.actions
          else requested_block p f h ∷ n.actions))
get_block_from-bytes u v w n r c p shown f h save bytes read sends makes writes =
    let b = response f h bytes in
    let (answers, acts) = get_block_from-Received u w n c p f h save b makes writes in
    (b, block_request-response v r shown f h bytes read sends, refl, answers, acts)

-- What is written, and where, is up to the node that responds, whatever block of whatever file was asked
-- for: a response whose block hash is an absolute path has its bytes written to that path.
pub block_response-absolute :
    (u w : Outside) (n : Node) (c : Channel) (p : PeerId) (f h : String) (r : BlockResponse)
    → is_absolute r.block_hash ≡ true
    → w.create_dir_all (get_block_dir n.file_dir r.file_hash) ≡ true
    → w.write_all (r.block_hash ∷ []) r.block_data ≡ true
    → (handle_event w
        (handle_command u n c (Defs.get_block_from p f h true))
        (block_response u.send_request r)).actions
      ≡ wrote (r.block_hash ∷ []) r.block_data
        ∷ created_dir (get_block_dir n.file_dir r.file_hash)
        ∷ requested_block p f h
        ∷ n.actions
unfolding push
block_response-absolute u w n c p f h r absolute makes writes =
    let there : push (get_block_dir n.file_dir r.file_hash) r.block_hash ≡ r.block_hash ∷ [] =
      ground (arith, absolute) in
    let (answers, acts) =
      get_block_from-Received u w n c p f h true r makes
        (ap (λ q. w.write_all q r.block_data) there ∙ writes) in
    acts
    ∙ ap
        (λ q.
          wrote q r.block_data
          ∷ created_dir (get_block_dir n.file_dir r.file_hash)
          ∷ requested_block p f h
          ∷ n.actions)
        there
