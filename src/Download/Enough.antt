-- ===== src/Download/Enough.antt =====
-- When the download ends, and with how many blocks.
use native.Mathlib.Nat.{mod-eq_of_lt}
use dragoonfly.Base.{
  ◌∙◌, ℕ, ◌+◌, ◌%◌, ◌^◌, ◌<◌, ◌≤◌, ◌≡◌, ◌≢◌, refl, subst, String, Bool, true, false, Option, none,
  some, List, [], ◌∷◌, leb, length, length-append, arith, Bool-cases, inl, inr,
}
use dragoonfly.Strategy.{PeerId}
use dragoonfly.Download.Loop.{
  Codec, Received, info, block, Download, start, Turn, continues, breaks, fails, panics,
  blocks_to_request, request_blocks, on_info, on_peer, on_written, on_dumped, on_verified,
  on_parsed, on_block, on_received, Outcome, downloads, errors, waits, panicked,
  download_first_k_blocks,
}

-- Requests leave alone what is on the disk.
pub request_blocks-disk :
    (can_send : Bool) (p : PeerId) (hs : List String) (d : Download)
    → ((request_blocks can_send p hs d).number_of_blocks_written ≡ d.number_of_blocks_written)
      × ((request_blocks can_send p hs d).block_hashes_on_disk ≡ d.block_hashes_on_disk)
unfolding request_blocks
request_blocks-disk can_send p [] d = (refl, refl)
request_blocks-disk true p (h ∷ hs) d = request_blocks-disk true p hs _
request_blocks-disk false p (h ∷ hs) d = request_blocks-disk false p hs d

-- The number of blocks that are needed is a `u32`, the same in all blocks of a file.
module _ (c : Codec) (needed : ℕ) (uniform : (b : c.Block) → c.k b ≡ needed)
    (some_needed : 0 < needed) (is_u32 : needed < 2 ^ 32) where
  -- Whether the answer is a block that can be read, that is correct and that the disk takes.
  abbrev verified : Option Bool → Option (Unit {0}) → ℕ
  verified (some true) (some _) = 1
  verified _ _ = 0

  abbrev read_block : Option c.Block → ℕ
  read_block none = 0
  read_block (some b) = verified (c.verify b) (c.dump b)

  abbrev pub stored : Received → ℕ
  stored (block (some (some r))) = read_block (c.deserialize r.block_data)
  stored _ = 0

  abbrev pub stored_blocks : List Received → ℕ
  stored_blocks [] = 0
  stored_blocks (r ∷ rs) = stored r + stored_blocks rs

  abbrev written : Download → ℕ
  written d = length d.block_hashes_on_disk

  abbrev Counted : Download → Type 0
  Counted d = (d.number_of_blocks_written ≡ written d) × (written d < needed)

  abbrev After : ℕ → Turn → Type 0
  After n (continues d) = Counted d × (written d ≡ n)
  After n (breaks d) = written d ≡ needed
  After n (fails d) = Unit {0}
  After n panics = Unit {0}

  on_written-After :
      (d : Download) (hash : String) (b : c.Block)
      → Counted d
      → After (written d + 1) (on_written c d hash b)
  unfolding on_written
  on_written-After d hash b (counted, less) =
      let n = (d.number_of_blocks_written + 1) % 2 ^ 32 in
      let exact : n ≡ written d + 1 = mod-eq_of_lt (omega arith) ∙ omega arith in
      let longer = length-append d.block_hashes_on_disk (hash ∷ []) in
      elim (Bool-cases (leb (c.k b) n)) [
        | inl enough ↦ rw enough (ground (arith, uniform b))
        | inr more ↦ rw more (ground (arith, uniform b))
      ]

  on_dumped-After :
      (d : Download) (hash : String) (b : c.Block) (o : Option (Unit {0}))
      → Counted d
      → After (written d + verified (some true) o) (on_dumped c d hash b o)
  on_dumped-After d hash b none h = tt
  on_dumped-After d hash b (some _) h = on_written-After d hash b h

  on_verified-After :
      (d : Download) (hash : String) (b : c.Block) (v : Option Bool)
      → Counted d
      → After (written d + verified v (c.dump b)) (on_verified c d hash b v)
  on_verified-After d hash b none h = tt
  on_verified-After d hash b (some false) h = tt
  on_verified-After d hash b (some true) h = on_dumped-After d hash b (c.dump b) h

  on_parsed-After :
      (d : Download) (hash : String) (o : Option c.Block)
      → Counted d
      → After (written d + read_block o) (on_parsed c d hash o)
  on_parsed-After d hash none h = (h, omega arith)
  on_parsed-After d hash (some b) h = on_verified-After d hash b (c.verify b) h

  on_peer-After :
      (can_send : Bool) (d : Download) (hashes : List String) (o : Option PeerId)
      → Counted d
      → After (written d + 0) (on_peer c can_send d hashes o)
  on_peer-After can_send d hashes none h = tt
  on_peer-After can_send d hashes (some p) h =
      ground
        (arith, request_blocks-disk can_send p (blocks_to_request d.already_request_block hashes) d)

  on_received-After :
      (can_send : Bool) (d : Download) (r : Received)
      → Counted d
      → After (written d + stored r) (on_received c can_send d r)
  unfolding on_received on_info on_block
  on_received-After can_send d (info none) h = tt
  on_received-After can_send d (info (some i)) h =
      on_peer-After can_send d i.block_hashes (c.from_base_58 i.peer_id_base_58) h
  on_received-After can_send d (block none) h = tt
  on_received-After can_send d (block (some none)) h = (h, omega arith)
  on_received-After can_send d (block (some (some r))) h =
      on_parsed-After d r.block_hash (c.deserialize r.block_data) h

  abbrev Ended : ℕ → Outcome c → Type 0
  Ended n (downloads d) = written d ≡ needed
  Ended n (errors d) = Unit {0}
  Ended n (waits d) = n < needed
  Ended n panicked = Unit {0}

  Ended-next :
      (can_send : Bool) (r : Received) (rs : List Received) (d : Download)
      → Counted d
      → ((d' : Download)
          → Counted d'
          → Ended (written d' + stored_blocks rs) (download_first_k_blocks c can_send rs d'))
      → Ended (written d + stored_blocks (r ∷ rs)) (download_first_k_blocks c can_send (r ∷ rs) d)
  unfolding download_first_k_blocks
  Ended-next can_send r rs d h rest =
      go (on_received c can_send d r) (on_received-After can_send d r h)
    where
      go :
          (t : Turn)
          → After (written d + stored r) t
          → Ended (written d + (stored r + stored_blocks rs)) (elim t [
            | continues d' ↦ download_first_k_blocks c can_send rs d'
            | breaks d' ↦ downloads d'
            | fails d' ↦ errors d'
            | panics ↦ panicked
          ])
      go (continues d') (h', e) =
          subst (λ n. Ended n (download_first_k_blocks c can_send rs d')) (omega arith) (rest d' h')
      go (breaks d') h' = h'
      go (fails d') h' = tt
      go panics h' = tt

  download-Ended :
      (can_send : Bool) (rs : List Received) (d : Download)
      → Counted d
      → Ended (written d + stored_blocks rs) (download_first_k_blocks c can_send rs d)
  unfolding download_first_k_blocks
  download-Ended can_send [] d h = omega (arith, h.1)
  download-Ended can_send (r ∷ rs) d h =
      Ended-next can_send r rs d h (λ d' h'. download-Ended can_send rs d' h')

  -- If all blocks of the file need the same positive number of blocks, a `u32`, then a download that
  -- succeeds has written exactly that many.
  pub download-exact :
      (can_send : Bool) (received : List Received) (d : Download)
      → download_first_k_blocks c can_send received start ≡ downloads d
      → length d.block_hashes_on_disk ≡ needed
  download-exact can_send received d e =
      subst (Ended (0 + stored_blocks received)) e
        (download-Ended can_send received start (refl, some_needed))

  -- If all blocks of the file need the same positive number of blocks, a `u32`, and at least that many are
  -- received that can be read, are correct and are taken by the
  -- disk, whatever else is received before, between and after them, then the download does not wait until
  -- its time-out: it succeeds, or it ends with an error or a panic before.
  pub download-ne-waits :
      (can_send : Bool) (received : List Received) (d : Download)
      → needed ≤ stored_blocks received
      → download_first_k_blocks c can_send received start ≢ waits d
  download-ne-waits can_send received d enough e =
      let few : 0 + stored_blocks received < needed =
        subst (Ended (0 + stored_blocks received)) e
          (download-Ended can_send received start (refl, some_needed)) in
      omega (arith, few, enough)
