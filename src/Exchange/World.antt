-- ===== src/Exchange/World.antt =====
-- What the two sides of an exchange act on: a stream, the disk and the storage counter, with the code
-- of other crates as a parameter.
use dragoonfly.Base.{
  ℕ, zero, suc, ◌+◌, ◌%◌, ◌^◌, String, Bool, Option, none, some, List, [], ◌++◌, length, take, drop,
  leb, if◌then◌else◌,
}
use dragoonfly.Base.Result.{Result, ok, err}
use dragoonfly.Paths.{FilePath}
use dragoonfly.Strategy.{PeerId}

-- peer_block_info.rs
pub record PeerBlockInfo : Type 0 where
  pub peer_id_base_58 : String
  pub file_hash : String
  pub block_hashes : List String
  pub block_sizes : Option (List ℕ)

-- The other crates and the file system, as they answer during one exchange: serde_json for the info,
-- ark_serialize and komodo for blocks and powers, tokio's `fs` for the disk. `powers` is the answer of
-- `get_powers`, and `verify` has no answer where it returns an error.
pub record Env : Type 1 where
  pub Block : Type 0
  pub Powers : Type 0
  pub to_base58 : PeerId → String
  pub to_vec : PeerBlockInfo → List ℕ
  pub from_slice : List ℕ → Option PeerBlockInfo
  pub deserialize : List ℕ → Option Block
  pub powers : Option Powers
  pub verify : Block → Powers → Option Bool
  pub read_file : FilePath → Option (List ℕ)
  pub create_dir_all : FilePath → Bool
  pub write_file : FilePath → List ℕ → Bool
  pub channel_open : Bool

-- What makes an exchange fail.
pub data Failure : Type 0 where
  end_of_stream stream_broken no_such_file bad_info unexpected_code unknown_code : Failure
  no_size empty_sizes bad_block no_block_hash no_powers not_verified disk_failed channel_closed :
      Failure
  info_too_big : ℕ → Failure

-- The line that is to be added to the list of received blocks: the tuple that goes to the task that
-- keeps the list.
pub record SendFileInfo : Type 0 where
  pub file_dir : FilePath
  pub size_of_block : ℕ
  pub file_hash : String
  pub block_hash : String
  pub peer_id_base_58 : String

-- `incoming` is what the other side sends until it closes; `writes_left` counts the calls to the stream
-- that go through before the connection breaks.
pub record World : Type 0 where
  pub incoming : List ℕ
  pub outgoing : List ℕ
  pub writes_left : ℕ
  pub available_storage : ℕ
  pub disk : List (FilePath × List ℕ)
  pub send_file_infos : List SendFileInfo

-- An effectful call: a result or a failure, and the world as the call leaves it.
abbrev pub M : Type 0 → Type 0
M A = World → Result Failure A × World

infixl 5 ◌>>=◌ ◌>>◌
unfoldable pub ◌>>=◌ : {A B : Type 0} → M A → (A → M B) → M B
◌>>=◌ m f w = let (res, w') = m w in elim res [ ok a ↦ f a w' | err e ↦ (err e, w') ]

abbrev pub ◌>>◌ : {B : Type 0} → M (Unit {0}) → M B → M B
m >> k = m >>= λ _. k

abbrev pub return : {A : Type 0} → A → M A
return a w = (ok a, w)

abbrev pub fail : {A : Type 0} → Failure → M A
fail e w = (err e, w)

abbrev pub or_fail : {A : Type 0} → Option A → Failure → M A
or_fail none e w = (err e, w)
or_fail (some a) e w = (ok a, w)

unfoldable pub read_exact : ℕ → M (List ℕ)
read_exact n w =
    if leb n (length w.incoming)
    then (ok (take n w.incoming), record w { incoming = drop n w.incoming })
    else (err end_of_stream, record w { incoming = [] })

-- One call to the stream that the connection has to carry.
abbrev pub spend : World → ℕ → (World → World) → Result Failure (Unit {0}) × World
spend w zero f = (err stream_broken, w)
spend w (suc n) f = (ok tt, f (record w { writes_left = n }))

unfoldable pub write_all : List ℕ → M (Unit {0})
write_all bytes w = spend w w.writes_left (λ v. record v { outgoing = v.outgoing ++ bytes })

unfoldable pub close : M (Unit {0})
close w = spend w w.writes_left (λ v. v)

abbrev pub usize_mod : ℕ
usize_mod = 2 ^ 64

-- `AtomicUsize::fetch_add` wraps.
unfoldable pub fetch_add : ℕ → M (Unit {0})
fetch_add n w = (ok tt, record w { available_storage = (w.available_storage + n) % usize_mod })

-- The rule for a relation between the worlds before and after a call.
module _ (Q : World → World → Type 0) (trans : (u v w : World) → Q u v → Q v w → Q u w) where
  pub bind_post :
      {A B : Type 0} (m : M A) (f : A → M B)
      → ((w : World) → Q w (m w).1)
      → ((a : A) (w : World) → Q w (f a w).1)
      → (w : World) → Q w ((m >>= f) w).1
  unfolding ◌>>=◌
  bind_post {A} {B} m f hm hf w = go (m w) (hm w)
    where
      go :
          (r : Result Failure A × World)
          → Q w r.1
          → Q w
              (let (res, w') = r in
                let next : Result Failure B × World = elim res [
                  | ok a ↦ f a w'
                  | err e ↦ (err e, w')
                ] in
                next).1
      go (ok a, w') h = trans w w' (f a w').1 h (hf a w')
      go (err x, w') h = h
