-- ===== src/Download/Output.antt =====
-- Where `get_file` writes its file.
use dragoonfly.Base.{
  ℕ, ◌≡◌, ap, ◌∙◌, sym, String, Bool, Bool-cases, Option-cases, ◌⊎◌, inl, inr, some, List, [], ◌∷◌,
  ◌++◌, arith, map,
}
use dragoonfly.Base.Result.{ok, err}
use dragoonfly.Paths.{FilePath, push, get_block_dir, get_file_dir}
use dragoonfly.Network.Defs.{NodeError, other_error, nothing, created_dir, wrote}
use dragoonfly.Network.Outside.{Outside}
use dragoonfly.Network.Files.{decode_blocks, write_output}
use dragoonfly.Download.Loop.{Codec, Received, Download, start, downloads, download_first_k_blocks}
use dragoonfly.Download.GetFile.{Replies, get_file}
use dragoonfly.Download.Ending.{get_file-ok}

-- The bytes that komodo decodes of the blocks that it reads under these names.
abbrev pub Decodes : (w : Outside) → FilePath → List String → List ℕ → Type 0
Decodes w d hs bytes =
    (blocks : List w.Block) × (w.read_blocks hs d ≡ some blocks)
    × (w.decode (map w.shard blocks) ≡ some bytes)

write_output-cases :
    (w : Outside) (q : FilePath) (bytes : List ℕ)
    → (((write_output w q bytes).0 ≡ ok nothing)
        × ((write_output w q bytes).1 ≡ wrote q bytes ∷ []))
      ⊎ ((x : NodeError) × ((write_output w q bytes).0 ≡ err x))
write_output-cases w q bytes = elim (Bool-cases (w.create_file q)) [
  | inr e ↦ inr (other_error, ground (arith, e))
  | inl e ↦ elim (Bool-cases (w.write_all q bytes)) [
    | inr g ↦ inr (other_error, ground (arith, e, g))
    | inl g ↦ inl (ground (arith, e, g), ground (arith, e, g))
  ]
]

-- `decode_blocks` fails, or it decodes what it has read and writes that beside the directory of the blocks.
decode_blocks-cases :
    (w : Outside) (d parent : FilePath) (hs : List String) (o : String)
    → w.parent d ≡ some parent
    → ((bytes : List ℕ) × Decodes w d hs bytes
        × ((decode_blocks w d hs o).1 ≡ wrote (push parent o) bytes ∷ []))
      ⊎ ((x : NodeError) × ((decode_blocks w d hs o).0 ≡ err x))
unfolding decode_blocks
decode_blocks-cases w d parent hs o e = elim (Option-cases (w.read_blocks hs d)) [
  | inl q ↦ inr (other_error, ground (arith, q))
  | inr (blocks, read) ↦ elim (Option-cases (w.decode (map w.shard blocks))) [
    | inl q ↦ inr (other_error, ground (arith, read, q))
    | inr (bytes, decoded) ↦
        let made : decode_blocks w d hs o ≡ write_output w (push parent o) bytes =
          ground (arith, read, decoded, e) in
        elim (write_output-cases w (push parent o) bytes) [
          | inl (_, acts) ↦ inl (bytes, (blocks, read, decoded), ap (λ r. r.1) made ∙ acts)
          | inr (x, bad) ↦ inr (x, ap (λ r. r.0) made ∙ bad)
        ]
  ]
]

-- When `get_file` answers with a path, where the node has answered with its two directories for the file,
-- its download has ended well, and decoding the blocks that this download has put on disk, under the names
-- that it has noted, either fails unnoticed, or has written the bytes that komodo decodes of exactly
-- these blocks: as the last call on the disk, after the directory of the blocks was made, and to the
-- very path that is answered.
pub get_file-output :
    (w : Outside) (c : Codec) (can_send : Bool) (received : List Received) (r : Replies)
    (dir : FilePath) (f o : String) (p : FilePath)
    → r.block_dir ≡ some (ok (get_block_dir dir f))
    → r.file_dir ≡ some (ok (get_file_dir dir f))
    → w.parent (get_block_dir dir f) ≡ some (get_file_dir dir f)
    → (get_file w c can_send received r f o).0 ≡ some (ok p)
    → (l : Download) × (download_first_k_blocks c can_send received start ≡ downloads l)
      × (((bytes : List ℕ) × Decodes w (get_block_dir dir f) l.block_hashes_on_disk bytes
            × ((get_file w c can_send received r f o).1.actions
                ≡ wrote p bytes ∷ created_dir (get_block_dir dir f) ∷ []))
          ⊎ ((x : NodeError) × ((decode_blocks w (get_block_dir dir f) l.block_hashes_on_disk o).0
                ≡ err x)))
get_file-output w c can_send received r dir f o p e g up h =
    let d = get_block_dir dir f in
    let (l, ran, same, acts) =
      get_file-ok w c can_send received r d (get_file_dir dir f) f o p e g h in
    (
      l,
      ran,
      elim (decode_blocks-cases w d (get_file_dir dir f) l.block_hashes_on_disk o up) [
        | inr (x, bad) ↦ inr (x, bad)
        | inl (bytes, decodes, done) ↦ inl (
          bytes,
          decodes,
          acts
              ∙ ap (λ a. a ++ created_dir d ∷ []) done
              ∙ ap (λ q. wrote q bytes ∷ created_dir d ∷ []) (sym same),
        )
      ],
    )
