-- ===== src/Exchange/Absolute.antt =====
-- A block whose hash, as the sender names it, is an absolute path.
use dragoonfly.Base.{
  ℕ, suc, ◌<◌, ◌≤◌, ◌≡◌, ap, ◌∙◌, String, true, some, List, [], ◌∷◌, ◌++◌, length, arith,
}
use dragoonfly.Paths.{FilePath, is_absolute, push, get_block_dir}
use dragoonfly.Exchange.Frame.{to_be_bytes}
use dragoonfly.Exchange.World.{Env, World, PeerBlockInfo}
use dragoonfly.Exchange.Receiver.{recv_side, max_pbi_size}
use dragoonfly.Exchange.Session.{recv_side-stores}

-- Where the sender names a correct block by an absolute path, the receiver of a well-formed exchange of that
-- block, which fits, on a stream and a disk that work and with a list that is kept, writes the bytes
-- to that very path, in whatever directory it keeps its own files: the name is not checked.
pub recv_side-absolute :
    (env : Env) (dir : FilePath) (info : PeerBlockInfo) (content : List ℕ) (hash : String)
    (block : env.Block) (powers : env.Powers) (k : ℕ) (w : World) (frame : List ℕ)
    → is_absolute hash ≡ true
    → info.block_sizes ≡ some (length content ∷ [])
    → info.block_hashes ≡ hash ∷ []
    → env.deserialize content ≡ some block
    → env.powers ≡ some powers
    → env.verify block powers ≡ some true
    → env.create_dir_all (get_block_dir dir info.file_hash) ≡ true
    → env.write_file (hash ∷ []) content ≡ true
    → env.channel_open ≡ true
    → env.from_slice frame ≡ some info
    → length frame ≤ max_pbi_size
    → w.incoming ≡ to_be_bytes (length frame) ++ (frame ++ (content ++ []))
    → w.writes_left ≡ suc (suc (suc k))
    → length content < w.available_storage
    → (recv_side env dir w).1.disk ≡ (hash ∷ [], content) ∷ w.disk
unfolding push
recv_side-absolute env dir info content hash block powers k w frame absolute sized named parsed
      has_powers checked makes_dir writes open_channel law small i l room =
    let there : push (get_block_dir dir info.file_hash) hash ≡ hash ∷ [] =
      ground (arith, absolute) in
    ap (λ r. r.1.disk)
      (recv_side-stores env dir info content hash block powers true k sized named parsed has_powers
        checked makes_dir (ap (λ p. env.write_file p content) there ∙ writes) w frame open_channel
        law small i l room)
    ∙ ap (λ p. (p, content) ∷ w.disk) there
