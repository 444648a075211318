-- ===== src/Start.antt =====
-- The start of the program in main.rs: the storage that the command line gives, the seed of the key
-- pair, and the node that is made, with what `run` of dragoon_swarm.rs does before its loop.
pub mod Restart
pub mod Tests
use dragoonfly.Base.{
  ℕ, ◌*◌, ◌%◌, ◌^◌, ◌≤◌, ◌<◌, ◌≡◌, String, Bool, ◌&&◌, Option, none, some, List, ◌∷◌, replicate,
  ltb, if◌then◌else◌, arith, lt→ltb,
}
use dragoonfly.Strategy.{PeerId}
use dragoonfly.Network.Defs.{Node}
use dragoonfly.Network.Outside.{Outside}
use dragoonfly.Network.New.{new, base_path}
use dragoonfly.Storage.{Format, SendFiles, get_current_available_storage, Started, started, panics}
use dragoonfly.Storage.Restart.{nothing}

pub data Units : Type 0 where
  b k m g t : Units

-- The options of `Cli` that the node is made of; `seed` is a byte.
pub record Cli : Type 0 where
  pub seed : ℕ
  pub storage_space : ℕ
  pub storage_unit : Units
  pub replace_file_dir : Bool
  pub label : Option String

abbrev pub multiplier : Units → ℕ
multiplier b = 1
multiplier k = 10 ^ 3
multiplier m = 10 ^ 6
multiplier g = 10 ^ 9
multiplier t = 10 ^ 12

-- A product that does not fit into 64 bits panics with overflow checks, and wraps without.
unfoldable pub total_available_storage_for_send : Bool → Cli → Option ℕ
total_available_storage_for_send overflow_checks cli =
    let total = cli.storage_space * multiplier cli.storage_unit in
    if ltb total (2 ^ 64)
    then some total
    else (if overflow_checks then none else some (total % 2 ^ 64))

-- The 32 bytes that `get_keypair` makes the key of.
abbrev pub get_keypair : ℕ → List ℕ
get_keypair seed = seed ∷ replicate 31 0

abbrev pub network_of : Outside → PeerId → Cli → Option ℕ → Option Node
network_of w peer_id cli none = none
network_of w peer_id cli (some total) = new w peer_id cli.label total cli.replace_file_dir

-- The network that `main` makes and runs. The peer id is that of the key, which libp2p computes.
unfoldable pub network : Outside → (List ℕ → PeerId) → Bool → Cli → Option Node
unfolding new total_available_storage_for_send
network w peer_id_of overflow_checks cli =
    network_of w (peer_id_of (get_keypair cli.seed)) cli
      (total_available_storage_for_send overflow_checks cli)

-- Whether the directory of an earlier run is removed.
abbrev pub replaces : Outside → (List ℕ → PeerId) → Cli → Bool
replaces w peer_id_of cli =
    cli.replace_file_dir && w.remove_dir_all (base_path w (peer_id_of (get_keypair cli.seed)))

module _ (f : Format) where
  abbrev pub with_storage : Node → Started f → Option (Node × SendFiles f.Line)
  with_storage n panics = none
  with_storage n (started available files) =
      some (
        record n { storage = record n.storage { available = available; used = files.total } },
        files,
      )

  -- The start of `run`: the list of received blocks is made or read, and the counters are set. A panic is
  -- `none`.
  unfoldable pub run : Node → SendFiles f.Line → Option (Node × SendFiles f.Line)
  unfolding get_current_available_storage
  run n files = with_storage n (get_current_available_storage f n.storage.available files)

  -- The files are in the directory that `new` removes when it is to be replaced. Where that fails, `files`
  -- is what it has left of them.
  abbrev pub left_files : Bool → SendFiles f.Line → SendFiles f.Line
  left_files removed files = if removed then nothing f else files

  -- What `main` starts.
  unfoldable pub start :
      Outside → (List ℕ → PeerId) → Bool → Cli → SendFiles f.Line → Option (Node × SendFiles f.Line)
  unfolding network run
  start w peer_id_of overflow_checks cli files = elim (network w peer_id_of overflow_checks cli) [
    | none ↦ none
    | some n ↦ run n (left_files (replaces w peer_id_of cli) files)
  ]

fits : (n : ℕ) (u : Units) → n ≤ 18446744 → n * multiplier u < 2 ^ 64
fits n b h = omega arith
fits n k h = omega arith
fits n m h = omega arith
fits n g h = omega arith
fits n t h = omega arith

-- Up to 18446744 of any unit, the storage that is asked for is computed without an overflow.
pub total_available_storage_for_send-exact :
    (overflow_checks : Bool) (cli : Cli)
    → cli.storage_space ≤ 18446744
    → total_available_storage_for_send overflow_checks cli
      ≡ some (cli.storage_space * multiplier cli.storage_unit)
unfolding total_available_storage_for_send
total_available_storage_for_send-exact c cli small = ground (
  arith,
  lt→ltb (cli.storage_space * multiplier cli.storage_unit) (2 ^ 64)
      (fits cli.storage_space cli.storage_unit small),
)
