-- ===== src/Network/Files.antt =====
-- What the commands do with files: `get_block_list`, `decode_blocks` and `encode_file`. Each answers
-- with its result and with the calls that have changed the disk, newest first.
pub mod Encode
pub mod Hash
use Prim.Native.Nat.{◌/◌}
use Prim.Native.String.{◌++◌ as push_str}
use dragoonfly.Base.{
  ℕ, zero, suc, ◌%◌, ltb, Bool, true, false, ◌&&◌, String, Option, none, some, List, [], ◌∷◌, map,
  if◌then◌else◌, get_elem?,
}
use dragoonfly.Base.Result.{Result, ok, err, ◌>>=◌}
use dragoonfly.Errors.{no_parent_directory}
use dragoonfly.Paths.{FilePath, push, get_block_dir}
use dragoonfly.Commands.Defs.{EncodingMethod, vandermonde, random}
use dragoonfly.Network.Defs.{
  NodeError, dragoon, other_error, Value, nothing, strings, hashes, Action, created_dir,
  removed_dir, wrote, dumped_blocks,
}
use dragoonfly.Network.Outside.{Outside}

-- The `?` operator on an answer of another crate.
abbrev pub try {ℓ} : {A : Type ℓ} → Option A → Result NodeError A
try none = err other_error
try (some a) = ok a

-- The loop of `get_block_list`: it stops at the first entry that cannot be read or is not a text.
unfoldable pub block_names : List (Option (Option String)) → Result NodeError (List String)
block_names [] = ok []
block_names (none ∷ es) = err other_error
block_names (some none ∷ es) = err other_error
block_names (some (some name) ∷ es) = block_names es >>= λ names. ok (name ∷ names)

unfoldable pub get_block_list : Outside → FilePath → String → Result NodeError (List String)
unfolding get_block_dir block_names
get_block_list w file_dir file_hash =
    try (w.read_dir (get_block_dir file_dir file_hash)) >>= block_names

-- A result with the calls made on the way to it.
abbrev pub Written : Type 0
Written = Result NodeError Value × List Action

abbrev pub stop : List Action → Written
stop done = (err other_error, done)

-- `File::create` and then `write_all`.
abbrev pub write_output : Outside → FilePath → List ℕ → Written
write_output w file_path vec_bytes =
    if w.create_file file_path
    then (if w.write_all file_path vec_bytes
        then (ok nothing, wrote file_path vec_bytes ∷ [])
        else stop (wrote file_path [] ∷ []))
    else stop []

abbrev pub write_beside : Outside → FilePath → String → List ℕ → Option FilePath → Written
write_beside w block_dir output_filename vec_bytes none =
    (err (dragoon (no_parent_directory (w.show_path block_dir))), [])
write_beside w block_dir output_filename vec_bytes (some parent_dir_path) =
    write_output w (push parent_dir_path output_filename) vec_bytes

abbrev pub written : Result NodeError (List ℕ) → (List ℕ → Written) → Written
written (ok a) f = f a
written (err x) f = (err x, [])

-- `decode_blocks`
unfoldable pub decode_blocks : Outside → FilePath → List String → String → Written
unfolding push
decode_blocks w block_dir block_hashes output_filename =
    written
      (try (w.read_blocks block_hashes block_dir) >>= λ blocks. try (w.decode (map w.shard blocks)))
      (λ vec_bytes. write_beside w block_dir output_filename vec_bytes (w.parent block_dir))

-- `format!("{:x}")` on a byte: without a leading zero.
abbrev pub digits : List String
digits =
    "0" ∷ "1" ∷ "2" ∷ "3" ∷ "4" ∷ "5" ∷ "6" ∷ "7" ∷ "8" ∷ "9" ∷ "a" ∷ "b" ∷ "c" ∷ "d" ∷ "e" ∷ "f"
    ∷ []

abbrev pub hex_digit : ℕ → String
hex_digit d = elim (get_elem? digits d) [ none ↦ "" | some s ↦ s ]

abbrev pub hex : ℕ → String
hex b = if ltb b 16 then hex_digit b else push_str (hex_digit (b / 16)) (hex_digit (b % 16))

-- The text of a digest.
unfoldable pub file_hash_of : List ℕ → String
file_hash_of [] = ""
file_hash_of (b ∷ bs) = push_str (hex b) (file_hash_of bs)

abbrev pub range : ℕ → List ℕ → List ℕ
range zero acc = acc
range (suc n) acc = range n (n ∷ acc)

-- The encoding matrix.
abbrev pub encoding_mat : (w : Outside) → EncodingMethod → ℕ → ℕ → Option w.Matrix
encoding_mat w vandermonde k n = w.vandermonde (range n []) k
encoding_mat w random k n = some (w.random k n)

-- What is computed before the disk is touched: the file hash and the blocks.
unfoldable pub build_blocks :
    (w : Outside) → FilePath → EncodingMethod → ℕ → ℕ → Result NodeError (String × List w.Block)
unfolding file_hash_of
build_blocks w file_path encoding_method k n = try (w.read_file file_path) >>= λ bytes.
    try (encoding_mat w encoding_method k n) >>= λ mat. try (w.encode bytes mat) >>= λ shards.
    try w.powers >>= λ powers. try (w.prove bytes powers k) >>= λ proof.
    ok (file_hash_of (w.sha256 bytes), w.build shards proof)

-- The directory is made, and the blocks are put in it.
abbrev pub dump : (w : Outside) → List Action → FilePath → String → List w.Block → Written
dump w done block_dir file_hash blocks =
    if w.create_dir_all block_dir
    then elim (w.dump_blocks blocks block_dir) [
      | none ↦ stop (created_dir block_dir ∷ done)
      | some formatted_output ↦ (
        ok (hashes file_hash formatted_output),
        dumped_blocks block_dir (map w.serialize blocks) ∷ created_dir block_dir ∷ done,
      )
    ]
    else stop done

abbrev pub replace_dir : (w : Outside) → FilePath → Bool → String → List w.Block → Written
replace_dir w block_dir replace_blocks file_hash blocks = elim (w.try_exists block_dir) [
  | none ↦ stop []
  | some dir_exists ↦
      if dir_exists && replace_blocks
      then (if w.remove_dir_all block_dir
          then dump w (removed_dir block_dir ∷ []) block_dir file_hash blocks
          else stop [])
      else dump w [] block_dir file_hash blocks
]

-- `encode_file`
unfoldable pub encode_file : Outside → FilePath → FilePath → Bool → EncodingMethod → ℕ → ℕ → Written
unfolding build_blocks get_block_dir
encode_file w output_file_dir file_path replace_blocks encoding_method k n =
    elim (build_blocks w file_path encoding_method k n) [
      | err x ↦ (err x, [])
      | ok (file_hash, blocks) ↦
          replace_dir w (get_block_dir output_file_dir file_hash) replace_blocks file_hash blocks
    ]
