-- ===== src/Download/Requests.antt =====
-- What the download asks for.
use dragoonfly.Base.{
  leb, ◌%◌, ◌^◌, ◌+◌, ◌≤◌, ◌≡◌, refl, ap, ◌∙◌, String, Bool, true, false, Option, none, some, List,
  [], ◌∷◌, ◌++◌, map, map-append, if◌then◌else◌, All, arith, Bool-cases, inl, inr, string_eq,
}
use dragoonfly.Base.Sets.{contains}
use dragoonfly.Strategy.{PeerId}
use dragoonfly.SendList.Vectors.{count, count-append}
use dragoonfly.Download.Loop.{
  Codec, Received, info, block, Download, start, Turn, continues, breaks, fails, panics,
  blocks_to_request, request_blocks, on_info, on_peer, on_written, on_dumped, on_verified,
  on_parsed, on_block, on_received, Outcome, downloads, errors, waits, panicked,
  download_first_k_blocks,
}

count-contains : (h : String) (hs : List String) → contains hs h ≡ false → count h hs ≡ 0
unfolding contains
count-contains h [] e = refl
count-contains h (x ∷ xs) e = ground (arith, count-contains h xs)

count-blocks_to_request-le :
    (already hs : List String) (h : String) → count h (blocks_to_request already hs) ≤ count h hs
unfolding blocks_to_request
count-blocks_to_request-le already [] h = omega arith
count-blocks_to_request-le already (x ∷ xs) h =
    ground (arith, count-blocks_to_request-le already xs h)

count-blocks_to_request-old :
    (already hs : List String) (h : String)
    → contains already h ≡ true
    → count h (blocks_to_request already hs) ≡ 0
unfolding blocks_to_request
count-blocks_to_request-old already [] h e = refl
count-blocks_to_request-old already (x ∷ xs) h e =
    ground (arith, count-blocks_to_request-old already xs h e, string_eq.eq_iff x h)

abbrev asked : Download → List String
asked d = map (λ r. r.1) d.requests

-- What is noted is what was asked for, each hash at most once.
abbrev IsOnce : Download → Type 0
IsOnce d =
    (asked d ≡ d.already_request_block) × ((h : String) → count h d.already_request_block ≤ 1)

request_blocks-asked :
    (can_send : Bool) (p : PeerId) (hs : List String) (d : Download)
    → asked d ≡ d.already_request_block
    → asked (request_blocks can_send p hs d)
      ≡ (request_blocks can_send p hs d).already_request_block
unfolding request_blocks
request_blocks-asked can_send p [] d e = e
request_blocks-asked true p (h ∷ hs) d e =
    request_blocks-asked true p hs _
      (map-append (λ (r : PeerId × String). r.1) d.requests ((p, h) ∷ []) ∙ ap (λ l. l ++ h ∷ []) e)
request_blocks-asked false p (h ∷ hs) d e = request_blocks-asked false p hs d e

count-request_blocks :
    (can_send : Bool) (p : PeerId) (hs : List String) (d : Download) (h : String)
    → count h (request_blocks can_send p hs d).already_request_block
      ≤ count h d.already_request_block + count h hs
unfolding request_blocks
count-request_blocks can_send p [] d h = omega arith
count-request_blocks true p (x ∷ xs) d h = omega (
  arith,
  count-request_blocks true p xs
      (record d {
        already_request_block = d.already_request_block ++ x ∷ [];
        requests = d.requests ++ (p, x) ∷ [];
      })
      h,
  count-append h d.already_request_block (x ∷ []),
)
count-request_blocks false p (x ∷ xs) d h = ground (arith, count-request_blocks false p xs d h)

request_blocks-IsOnce :
    (can_send : Bool) (p : PeerId) (hs : List String) (d : Download)
    → ((h : String) → count h hs ≤ 1)
    → IsOnce d
    → IsOnce (request_blocks can_send p (blocks_to_request d.already_request_block hs) d)
request_blocks-IsOnce can_send p hs d distinct (same, once) =
    let fresh = blocks_to_request d.already_request_block hs in
    (
      request_blocks-asked can_send p fresh d same,
      λ h. elim (Bool-cases (contains d.already_request_block h)) [
        | inl old ↦ ground (
          arith,
          count-request_blocks can_send p fresh d h,
          count-blocks_to_request-old d.already_request_block hs h old,
          once h,
        )
        | inr new ↦ ground (
          arith,
          count-request_blocks can_send p fresh d h,
          count-blocks_to_request-le d.already_request_block hs h,
          count-contains h d.already_request_block new,
          distinct h,
        )
      ],
    )

-- No peer lists a block twice in one answer.
abbrev pub IsDistinct : Received → Type 0
IsDistinct (info (some i)) = (h : String) → count h i.block_hashes ≤ 1
IsDistinct (info none) = Unit {0}
IsDistinct (block b) = Unit {0}

abbrev TurnOnce : Turn → Type 0
TurnOnce (continues d) = IsOnce d
TurnOnce (breaks d) = IsOnce d
TurnOnce (fails d) = IsOnce d
TurnOnce panics = Unit {0}

module _ (c : Codec) where
  on_written-TurnOnce :
      (d : Download) (hash : String) (b : c.Block) → IsOnce d → TurnOnce (on_written c d hash b)
  unfolding on_written
  on_written-TurnOnce d hash b h = go (leb (c.k b) ((d.number_of_blocks_written + 1) % 2 ^ 32))
    where
      go :
          (enough : Bool)
          → let d' = record d {
            number_of_blocks_written = (d.number_of_blocks_written + 1) % 2 ^ 32;
            block_hashes_on_disk = d.block_hashes_on_disk ++ hash ∷ [];
          } in
            TurnOnce (if enough then breaks d' else continues d')
      go true = h
      go false = h

  on_parsed-TurnOnce :
      (d : Download) (hash : String) (o : Option c.Block)
      → IsOnce d
      → TurnOnce (on_parsed c d hash o)
  on_parsed-TurnOnce d hash none h = h
  on_parsed-TurnOnce d hash (some b) h = go (c.verify b) (c.dump b)
    where
      dumped : (o : Option (Unit {0})) → TurnOnce (on_dumped c d hash b o)
      dumped none = h
      dumped (some _) = on_written-TurnOnce d hash b h

      go : (v : Option Bool) (o : Option (Unit {0})) → TurnOnce (on_verified c d hash b v)
      go none o = h
      go (some false) o = tt
      go (some true) o = dumped (c.dump b)

  on_peer-TurnOnce :
      (can_send : Bool) (d : Download) (hashes : List String) (o : Option PeerId)
      → ((h : String) → count h hashes ≤ 1)
      → IsOnce d
      → TurnOnce (on_peer c can_send d hashes o)
  on_peer-TurnOnce can_send d hashes none distinct h = tt
  on_peer-TurnOnce can_send d hashes (some p) distinct h =
      request_blocks-IsOnce can_send p hashes d distinct h

  on_received-TurnOnce :
      (can_send : Bool) (d : Download) (r : Received)
      → IsDistinct r
      → IsOnce d
      → TurnOnce (on_received c can_send d r)
  unfolding on_received on_info on_block
  on_received-TurnOnce can_send d (info none) distinct h = h
  on_received-TurnOnce can_send d (info (some i)) distinct h =
      on_peer-TurnOnce can_send d i.block_hashes (c.from_base_58 i.peer_id_base_58) distinct h
  on_received-TurnOnce can_send d (block none) distinct h = tt
  on_received-TurnOnce can_send d (block (some none)) distinct h = h
  on_received-TurnOnce can_send d (block (some (some r))) distinct h =
      on_parsed-TurnOnce d r.block_hash (c.deserialize r.block_data) h

  -- The commands sent until the end, if it is not a panic.
  abbrev pub sent : Outcome c → List (PeerId × String)
  sent (downloads d) = d.requests
  sent (errors d) = d.requests
  sent (waits d) = d.requests
  sent panicked = []

  AskedOnce : Outcome c → Type 0
  AskedOnce o = (h : String) → count h (map (λ r. r.1) (sent o)) ≤ 1

  IsOnce-asked : (d : Download) → IsOnce d → (h : String) → count h (asked d) ≤ 1
  IsOnce-asked d (same, once) h = ground (arith, same, once h)

  download-AskedOnce :
      (can_send : Bool) (rs : List Received) (d : Download)
      → All IsDistinct rs
      → IsOnce d
      → AskedOnce (download_first_k_blocks c can_send rs d)
  unfolding download_first_k_blocks AskedOnce
  download-AskedOnce can_send [] d distinct once = IsOnce-asked d once
  download-AskedOnce can_send (r ∷ rs) d (here, later) once =
      turn (on_received c can_send d r) (on_received-TurnOnce can_send d r here once)
        (λ d' once'. download-AskedOnce can_send rs d' later once')
    where
      turn :
          (t : Turn)
          → TurnOnce t
          → ((d' : Download) → IsOnce d' → AskedOnce (download_first_k_blocks c can_send rs d'))
          → AskedOnce (elim t [
            | continues d' ↦ download_first_k_blocks c can_send rs d'
            | breaks d' ↦ downloads d'
            | fails d' ↦ errors d'
            | panics ↦ panicked
          ])
      turn (continues d') h rest = rest d' h
      turn (breaks d') h rest = IsOnce-asked d' h
      turn (fails d') h rest = IsOnce-asked d' h
      turn panics h rest = λ x. omega arith

  -- If no peer lists a block twice in one answer, then a block that several peers list is asked for once
  -- only, however the download ends short of a panic.
  pub download-asks_once :
      (can_send : Bool) (received : List Received) (h : String)
      → All IsDistinct received
      → count h (map (λ r. r.1) (sent (download_first_k_blocks c can_send received start))) ≤ 1
  unfolding AskedOnce
  download-asks_once can_send received h distinct =
      download-AskedOnce can_send received start distinct (refl, λ x. omega arith) h
