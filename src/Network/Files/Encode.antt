-- ===== src/Network/Files/Encode.antt =====
-- What `encode_file` leaves on the disk.
use dragoonfly.Base.{
  ℕ, ◌≡◌, ap, ◌∙◌, sym, subst, Bool, Bool-cases, true, false, ◌&&◌, map, inl, inr, String, some,
  Option-cases, List, [], ◌∷◌, if◌then◌else◌, arith,
}
use dragoonfly.Base.Result.{ok, Result-cases}
use dragoonfly.Paths.{FilePath, get_block_dir}
use dragoonfly.Commands.Defs.{EncodingMethod}
use dragoonfly.Network.Defs.{Action, hashes, created_dir, removed_dir, dumped_blocks}
use dragoonfly.Network.Outside.{Outside}
use dragoonfly.Network.Files.{
  build_blocks, encoding_mat, dump, replace_dir, encode_file, file_hash_of,
}

-- The bytes of the file, with the hash and the blocks that komodo makes of them: the shards of the file
-- for the encoding matrix, and a proof for `k` of them.
pub record IsBuilt (w : Outside) (file_path : FilePath) (method : EncodingMethod) (k n : ℕ)
    (f : String) (blocks : List w.Block) : Type 0 where
  pub bytes : List ℕ
  pub mat : w.Matrix
  pub shards : List w.Shard
  pub powers : w.Powers
  pub proof : w.Proof
  pub read : w.read_file file_path ≡ some bytes
  pub hashed : f ≡ file_hash_of (w.sha256 bytes)
  pub matrix : encoding_mat w method k n ≡ some mat
  pub encoded : w.encode bytes mat ≡ some shards
  pub known : w.powers ≡ some powers
  pub proved : w.prove bytes powers k ≡ some proof
  pub built : blocks ≡ w.build shards proof

build_blocks-IsBuilt :
    (w : Outside) (file_path : FilePath) (method : EncodingMethod) (k n : ℕ) (f : String)
    (blocks : List w.Block)
    → build_blocks w file_path method k n ≡ ok (f, blocks)
    → IsBuilt w file_path method k n f blocks
unfolding build_blocks
build_blocks-IsBuilt w p method k n f blocks h = elim (Option-cases (w.read_file p)) [
  | inl q ↦ absurd (ground (arith, q))
  | inr (bytes, read) ↦ elim (Option-cases (encoding_mat w method k n)) [
    | inl q ↦ absurd (ground (arith, read, q))
    | inr (mat, matrix) ↦ elim (Option-cases (w.encode bytes mat)) [
      | inl q ↦ absurd (ground (arith, read, matrix, q))
      | inr (shards, encoded) ↦ elim (Option-cases w.powers) [
        | inl q ↦ absurd (ground (arith, read, matrix, encoded, q))
        | inr (powers, known) ↦ elim (Option-cases (w.prove bytes powers k)) [
          | inl q ↦ absurd (ground (arith, read, matrix, encoded, known, q))
          | inr (proof, proved) ↦ record {
            bytes = bytes;
            mat = mat;
            shards = shards;
            powers = powers;
            proof = proof;
            read = read;
            hashed = ground (arith, read, matrix, encoded, known, proved);
            matrix = matrix;
            encoded = encoded;
            known = known;
            proved = proved;
            built = ground (arith, read, matrix, encoded, known, proved);
          }
        ]
      ]
    ]
  ]
]

abbrev cleared : Bool → FilePath → List Action
cleared again d = if again then removed_dir d ∷ [] else []

dump-ok :
    (w : Outside) (done : List Action) (d : FilePath) (f g : String) (blocks : List w.Block)
    (out : String)
    → (dump w done d f blocks).0 ≡ ok (hashes g out)
    → (f ≡ g)
      × (w.dump_blocks blocks d ≡ some out)
      × ((dump w done d f blocks).1
          ≡ dumped_blocks d (map w.serialize blocks) ∷ created_dir d ∷ done)
dump-ok w done d f g blocks out h = elim (Option-cases (w.dump_blocks blocks d)) [
  | inl q ↦ absurd (ground (arith, q))
  | inr (o, q) ↦ (ground (arith, q), ground (arith, q), ground (arith, q))
]

-- The branch that `replace_dir` takes once it knows whether the directory exists.
replace_dir_existing-ok :
    (w : Outside) (d : FilePath) (replace dir_exists : Bool) (f g : String) (blocks : List w.Block)
    (out : String)
    → w.try_exists d ≡ some dir_exists
    → (replace_dir w d replace f blocks).0 ≡ ok (hashes g out)
    → (f ≡ g)
      × (w.dump_blocks blocks d ≡ some out)
      × ((replace_dir w d replace f blocks).1
          ≡ dumped_blocks d (map w.serialize blocks)
            ∷ created_dir d
            ∷ cleared (dir_exists && replace) d)
replace_dir_existing-ok w d replace false f g blocks out q h =
    elim (Option-cases (w.dump_blocks blocks d)) [
      | inl n ↦ absurd (ground (arith, q, n))
      | inr (o, n) ↦ (ground (arith, q, n), ground (arith, q, n), ground (arith, q, n))
    ]
replace_dir_existing-ok w d false true f g blocks out q h =
    let ran : replace_dir w d false f blocks ≡ dump w [] d f blocks = ground (arith, q) in
    let (same, put, done) = dump-ok w [] d f g blocks out (ap (λ r. r.0) (sym ran) ∙ h) in
    (same, put, ap (λ r. r.1) ran ∙ done)
replace_dir_existing-ok w d true true f g blocks out q h = elim (Bool-cases (w.remove_dir_all d)) [
  | inr n ↦ absurd (ground (arith, q, n))
  | inl n ↦
      let ran : replace_dir w d true f blocks ≡ dump w (removed_dir d ∷ []) d f blocks =
        ground (arith, q, n) in
      let (same, put, done) =
        dump-ok w (removed_dir d ∷ []) d f g blocks out (ap (λ r. r.0) (sym ran) ∙ h) in
      (same, put, ap (λ r. r.1) ran ∙ done)
]

replace_dir-ok :
    (w : Outside) (d : FilePath) (replace : Bool) (f g : String) (blocks : List w.Block)
    (out : String)
    → (replace_dir w d replace f blocks).0 ≡ ok (hashes g out)
    → (dir_exists : Bool) × (f ≡ g)
      × (w.try_exists d ≡ some dir_exists)
      × (w.dump_blocks blocks d ≡ some out)
      × ((replace_dir w d replace f blocks).1
          ≡ dumped_blocks d (map w.serialize blocks)
            ∷ created_dir d
            ∷ cleared (dir_exists && replace) d)
replace_dir-ok w d replace f g blocks out h = elim (Option-cases (w.try_exists d)) [
  | inl q ↦ absurd (ground (arith, q))
  | inr (dir_exists, q) ↦
      let (same, put, done) = replace_dir_existing-ok w d replace dir_exists f g blocks out q h in
      (dir_exists, same, q, put, done)
]

-- When `encode_file` answers with a hash and a text, the hash is that of the bytes of the file; the
-- blocks are those that komodo builds of the shards of these bytes for the matrix of the chosen method,
-- with its proof; komodo has dumped exactly these blocks to the block directory of the hash, and the text
-- is its answer. What was done to the disk is, in order: to remove that directory if it existed and is to be
-- replaced, to make it, and to put these blocks there.
pub encode_file-ok :
    (w : Outside) (output_file_dir file_path : FilePath) (replace : Bool) (method : EncodingMethod)
    (k n : ℕ) (f out : String)
    → (encode_file w output_file_dir file_path replace method k n).0 ≡ ok (hashes f out)
    → (blocks : List w.Block) × (dir_exists : Bool) × IsBuilt w file_path method k n f blocks
      × (w.try_exists (get_block_dir output_file_dir f) ≡ some dir_exists)
      × (w.dump_blocks blocks (get_block_dir output_file_dir f) ≡ some out)
      × ((encode_file w output_file_dir file_path replace method k n).1
          ≡ dumped_blocks (get_block_dir output_file_dir f) (map w.serialize blocks)
            ∷ created_dir (get_block_dir output_file_dir f)
            ∷ (if dir_exists && replace
                then removed_dir (get_block_dir output_file_dir f) ∷ []
                else []))
unfolding encode_file
encode_file-ok w o p replace method k n f out h =
    elim (Result-cases (build_blocks w p method k n)) [
      | inr (x, q) ↦ absurd (ground (arith, q))
      | inl ((g, blocks), q) ↦
          let ran : encode_file w o p replace method k n
              ≡ replace_dir w (get_block_dir o g) replace g blocks =
            ground (arith, q) in
          let (dir_exists, same, there, put, done) =
            replace_dir-ok w (get_block_dir o g) replace g f blocks out
              (ap (λ r. r.0) (sym ran) ∙ h) in
          let built = build_blocks-IsBuilt w p method k n g blocks q in
          (
            blocks,
            dir_exists,
            subst (λ e. IsBuilt w p method k n e blocks) same built,
            ap (λ e. w.try_exists (get_block_dir o e)) (sym same) ∙ there,
            ap (λ e. w.dump_blocks blocks (get_block_dir o e)) (sym same) ∙ put,
            ap (λ r. r.1) ran
                ∙ done
                ∙ ap
                    (λ e.
                      dumped_blocks (get_block_dir o e) (map w.serialize blocks)
                      ∷ created_dir (get_block_dir o e)
                      ∷ cleared (dir_exists && replace) (get_block_dir o e))
                    same,
          )
    ]
