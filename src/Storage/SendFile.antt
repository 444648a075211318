-- ===== src/Storage/SendFile.antt =====
-- send_block_list.txt: its first line is the total size of the blocks on disk, each other line tells of
-- one block. A new version is written beside it and then renamed over it.
use dragoonfly.Base.{
  ℕ, ◌+◌, ◌-◌, ◌%◌, ◌≡◌, Option, none, some, List, [], ◌∷◌, ◌++◌, drop, ltb, if◌then◌else◌,
}
use dragoonfly.Base.Result.{Result, ok, err}
use dragoonfly.Exchange.World.{SendFileInfo, usize_mod}

-- How the file system answers while one block is recorded: every call works; the new file cannot be made; a
-- call stops with an error after the new file is made, which then holds the lines written so far; or
-- the new file cannot be renamed.
pub data Calls (Line : Type 0) : Type 0 where
  work create_fails rename_fails : Calls Line
  stops : List Line → Calls Line

-- Lines as the crates that format and read them see them: `read_total` is the regular expression
-- `Total: ([0-9]*)$` with the parse of what it captures. A line of a block holds the time of its writing;
-- `calls` is how the file system answers at that time.
pub record Format : Type 1 where
  pub Line : Type 0
  pub Time : Type 0
  pub total_line : ℕ → Line
  pub block_line : Time → SendFileInfo → Line
  pub calls : Time → Calls Line
  pub read_total : Line → Option ℕ
  pub read_total-total_line : (n : ℕ) → read_total (total_line n) ≡ some n

pub data FileError : Type 0 where
  new_file_exists no_old_file io_error : FileError

-- The counter `total_block_size_on_disk`, and the two files where they exist.
pub record SendFiles (Line : Type 0) : Type 0 where
  pub total : ℕ
  pub old_file : Option (List Line)
  pub new_file : Option (List Line)

module _ (f : Format) where
  -- Once the new file is created. If a later call fails, the new file stays behind.
  unfoldable pub write_new :
      ℕ
      → Option (List f.Line)
      → f.Time
      → SendFileInfo
      → Calls f.Line
      → Result FileError (Unit {0}) × SendFiles f.Line
  write_new total old now info create_fails =
      (err io_error, record { total = total; old_file = old; new_file = none })
  write_new total old now info (stops behind) =
      (err io_error, record { total = total; old_file = old; new_file = some behind })
  write_new total none now info _ = (
    err no_old_file,
    record { total = total; old_file = none; new_file = some (f.total_line total ∷ []) },
  )
  write_new total (some lines) now info rename_fails = (
    err io_error,
    record {
      total = total;
      old_file = some lines;
      new_file = some (f.total_line total ∷ (drop 1 lines ++ f.block_line now info ∷ []));
    },
  )
  write_new total (some lines) now info work = (
    ok tt,
    record {
      total = total;
      old_file = some (f.total_line total ∷ (drop 1 lines ++ f.block_line now info ∷ []));
      new_file = none;
    },
  )

  -- The counter goes up before anything can fail.
  unfoldable pub add_send_file_inner :
      SendFiles f.Line → f.Time → SendFileInfo → Result FileError (Unit {0}) × SendFiles f.Line
  unfolding write_new
  add_send_file_inner s now info =
      let total = (s.total + info.size_of_block) % usize_mod in
      elim s.new_file [
        | some left_behind ↦ (err new_file_exists, record s { total = total })
        | none ↦ write_new total s.old_file now info (f.calls now)
      ]

  -- The task that keeps the list: an error is logged and the next message is read.
  unfoldable pub add_new_block_info_to_send_file :
      SendFiles f.Line → List (f.Time × SendFileInfo) → SendFiles f.Line
  add_new_block_info_to_send_file s [] = s
  add_new_block_info_to_send_file s ((now, info) ∷ more) =
      add_new_block_info_to_send_file (add_send_file_inner s now info).1 more

  -- `panics` stands for each `unwrap` and `panic!`.
  pub data Started : Type 0 where
    started : ℕ → SendFiles f.Line → Started
    panics : Started

  unfoldable pub read_first_line : ℕ → SendFiles f.Line → List f.Line → Started
  read_first_line available s [] = panics
  read_first_line available s (first ∷ more) = elim (f.read_total first) [
    | none ↦ panics
    | some used ↦
        if ltb available used
        then panics
        else started (available - used) (record s { total = used })
  ]

  -- At the start of a node the counter is 0 and all the storage is available. An empty list file is
  -- renamed to a name below itself, which fails.
  unfoldable pub get_current_available_storage : ℕ → SendFiles f.Line → Started
  unfolding read_first_line
  get_current_available_storage available s = elim s.old_file [
    | none ↦ started available (record s { old_file = some (f.total_line 0 ∷ []) })
    | some lines ↦ read_first_line available s lines
  ]
