-- ===== src/Download/Verified.antt =====
-- The blocks that a file is made of.
use dragoonfly.Base.{
  ℕ, zero, suc, ◌+◌, ◌%◌, ◌<◌, ◌^◌, ◌≡◌, refl, sym, subst, String, Bool, true, false, Option, none,
  some, List, [], ◌∷◌, ◌++◌, length, leb, Bool-cases, inl, inr, Listed, All,
}
use dragoonfly.Base.Result.{ok}
use dragoonfly.Strategy.{PeerId}
use dragoonfly.Paths.{FilePath, push}
use dragoonfly.Network.Defs.{created_dir}
use dragoonfly.Network.Outside.{Outside}
use dragoonfly.Network.Files.{decode_blocks}
use dragoonfly.Download.Loop.{
  Codec, Received, info, block, BlockResponse, Download, start, Turn, continues, breaks, fails,
  panics, blocks_to_request, on_info, on_peer, on_written, on_dumped, on_verified, on_parsed,
  on_block, on_received, downloads, errors, panicked, download_first_k_blocks,
}
use dragoonfly.Download.Enough.{download-exact, request_blocks-disk}
use dragoonfly.Download.GetFile.{Replies, get_file}
use dragoonfly.Download.Ending.{get_file-ok}

module _ (c : Codec) (received : List Received) where
  -- Some answer that was received has this name, and bytes that are read as a correct block, which the
  -- disk has taken.
  abbrev pub IsVerified : String → Type 0
  IsVerified h =
      (r : BlockResponse) × (b : c.Block) × Listed received (block (some (some r)))
      × (r.block_hash ≡ h)
      × (c.deserialize r.block_data ≡ some b)
      × (c.verify b ≡ some true)
      × (c.dump b ≡ some tt)

  abbrev Verified : Download → Type 0
  Verified d = All IsVerified d.block_hashes_on_disk

  abbrev Turns : Turn → Type 0
  Turns (continues d) = Verified d
  Turns (breaks d) = Verified d
  Turns (fails d) = Unit {0}
  Turns panics = Unit {0}

  All-snoc :
      (hs : List String) (h : String)
      → All IsVerified hs
      → IsVerified h
      → All IsVerified (hs ++ h ∷ [])
  All-snoc [] h a v = (v, tt)
  All-snoc (x ∷ hs) h (y, a) v = (y, All-snoc hs h a v)

  on_written-Turns :
      (d : Download) (h : String) (b : c.Block)
      → Verified d
      → IsVerified h
      → Turns (on_written c d h b)
  unfolding on_written
  on_written-Turns d h b v i =
      let longer = All-snoc d.block_hashes_on_disk h v i in
      elim (Bool-cases (leb (c.k b) ((d.number_of_blocks_written + 1) % 2 ^ 32))) [
        | inl e ↦ rw e longer
        | inr e ↦ rw e longer
      ]

  on_dumped-Turns :
      (d : Download) (h : String) (b : c.Block) (o : Option (Unit {0}))
      → Verified d
      → (o ≡ some tt → IsVerified h)
      → Turns (on_dumped c d h b o)
  on_dumped-Turns d h b none v i = tt
  on_dumped-Turns d h b (some _) v i = on_written-Turns d h b v (i refl)

  on_verified-Turns :
      (d : Download) (h : String) (b : c.Block) (o : Option Bool)
      → Verified d
      → (o ≡ some true → c.dump b ≡ some tt → IsVerified h)
      → Turns (on_verified c d h b o)
  on_verified-Turns d h b none v i = tt
  on_verified-Turns d h b (some false) v i = tt
  on_verified-Turns d h b (some true) v i = on_dumped-Turns d h b (c.dump b) v (i refl)

  on_parsed-Turns :
      (d : Download) (r : BlockResponse) (o : Option c.Block)
      → Verified d
      → Listed received (block (some (some r)))
      → c.deserialize r.block_data ≡ o
      → Turns (on_parsed c d r.block_hash o)
  on_parsed-Turns d r none v l e = v
  on_parsed-Turns d r (some b) v l e =
      on_verified-Turns d r.block_hash b (c.verify b) v
        (λ good dumped. (r, b, l, refl, e, good, dumped))

  on_peer-Turns :
      (can_send : Bool) (d : Download) (hashes : List String) (o : Option PeerId)
      → Verified d
      → Turns (on_peer c can_send d hashes o)
  on_peer-Turns can_send d hashes none v = tt
  on_peer-Turns can_send d hashes (some p) v =
      let new = blocks_to_request d.already_request_block hashes in
      subst (All IsVerified) (sym (request_blocks-disk can_send p new d).1) v

  on_received-Turns :
      (can_send : Bool) (d : Download) (a : Received)
      → Verified d
      → Listed received a
      → Turns (on_received c can_send d a)
  unfolding on_received on_info on_block
  on_received-Turns can_send d (info none) v l = tt
  on_received-Turns can_send d (info (some i)) v l =
      on_peer-Turns can_send d i.block_hashes (c.from_base_58 i.peer_id_base_58) v
  on_received-Turns can_send d (block none) v l = tt
  on_received-Turns can_send d (block (some none)) v l = v
  on_received-Turns can_send d (block (some (some r))) v l =
      on_parsed-Turns d r (c.deserialize r.block_data) v l refl

  ends_Verified :
      (can_send : Bool) (rs : List Received) (l : Download) (t : Turn)
      → ((d : Download)
          → Verified d
          → download_first_k_blocks c can_send rs d ≡ downloads l
          → Verified l)
      → Turns t
      → (elim t [
        | continues d ↦ download_first_k_blocks c can_send rs d
        | breaks d ↦ downloads d
        | fails d ↦ errors d
        | panics ↦ panicked
      ])
        ≡ downloads l
      → Verified l
  ends_Verified can_send rs l (continues d) rest v e = rest d v e
  ends_Verified can_send rs l (breaks d) rest v e = let same : d ≡ l = cc in subst Verified same v
  ends_Verified can_send rs l (fails d) rest v e = absurd cc
  ends_Verified can_send rs l panics rest v e = absurd cc

  download-Verified :
      (can_send : Bool) (rs : List Received) (d l : Download)
      → Verified d
      → ((a : Received) → Listed rs a → Listed received a)
      → download_first_k_blocks c can_send rs d ≡ downloads l
      → Verified l
  unfolding download_first_k_blocks
  download-Verified can_send [] d l v within e = absurd cc
  download-Verified can_send (r ∷ rs) d l v within e =
      ends_Verified can_send rs l (on_received c can_send d r)
        (λ d' v' q. download-Verified can_send rs d' l v' (λ a m. within a (suc m.0, m.1)) q)
        (on_received-Turns can_send d r v (within r (0, refl))) e

  All-Listed : (hs : List String) (h : String) → All IsVerified hs → Listed hs h → IsVerified h
  All-Listed [] h a (i, e) = absurd cc
  All-Listed (x ∷ hs) h (v, a) (zero, e) = let same : x ≡ h = cc in subst IsVerified same v
  All-Listed (x ∷ hs) h (v, a) (suc i, e) = All-Listed hs h a (i, e)

-- If all blocks of the file need the same positive number of blocks, a `u32`, and the node has answered
-- with its two directories for the file, then `get_file` answers with a path, which is that of the output in
-- the directory of the file, only after it has handed exactly that many block names to `decode_blocks`,
-- whose result is not looked at; and for each of these names it has received an answer of that name whose
-- bytes are read as a block that was found correct and that the disk has taken, under a name of komodo's.
pub get_file-IsVerified :
    (w : Outside) (c : Codec) (needed : ℕ) (can_send : Bool) (received : List Received)
    (r : Replies) (bd fd : FilePath) (f o : String) (p : FilePath)
    → ((b : c.Block) → c.k b ≡ needed)
    → 0 < needed
    → needed < 2 ^ 32
    → r.block_dir ≡ some (ok bd)
    → r.file_dir ≡ some (ok fd)
    → (get_file w c can_send received r f o).0 ≡ some (ok p)
    → (hashes : List String) × (p ≡ push fd o)
      × ((get_file w c can_send received r f o).1.actions
          ≡ (decode_blocks w bd hashes o).1 ++ created_dir bd ∷ [])
      × (length hashes ≡ needed)
      × ((h : String) → Listed hashes h → IsVerified c received h)
get_file-IsVerified w c needed can_send received r bd fd f o p uniform some_needed is_u32 e g h =
    let (l, ran, same, acts) = get_file-ok w c can_send received r bd fd f o p e g h in
    let verified = download-Verified c received can_send received start l tt (λ a m. m) ran in
    (
      l.block_hashes_on_disk,
      same,
      acts,
      download-exact c needed uniform some_needed is_u32 can_send received l ran,
      λ x m. All-Listed c received l.block_hashes_on_disk x verified m,
    )
