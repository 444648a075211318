-- ===== src/Paths.antt =====
-- `get_file_dir` and `get_block_dir` of dragoon_swarm.rs. A path is the list of the pieces that were
-- joined. As `PathBuf::push` does, an absolute piece takes the place of all that stands before it.
use text.Mathlib.Text.{starts_with}
use dragoonfly.Base.{String, Bool, List, [], ◌∷◌, ◌++◌, if◌then◌else◌}

abbrev pub FilePath : Type 0
FilePath = List String

abbrev pub is_absolute : String → Bool
is_absolute s = starts_with s "/"

unfoldable pub push : FilePath → String → FilePath
push p s = if is_absolute s then s ∷ [] else p ++ s ∷ []

unfoldable pub get_file_dir : FilePath → String → FilePath
unfolding push
get_file_dir file_dir file_hash = push file_dir file_hash

unfoldable pub get_block_dir : FilePath → String → FilePath
unfolding push get_file_dir
get_block_dir file_dir file_hash = push (get_file_dir file_dir file_hash) "blocks"
