-- ===== src/Download/GetFile.antt =====
-- `get_file` around its loop: the commands that it sends to its own node, the answers to them, and the
-- file that it makes. The channel of a command is a reply: `none` if it is closed with no answer.
use dragoonfly.Base.{
  String, Bool, true, false, Option, none, some, List, [], ◌∷◌, ◌++◌, if◌then◌else◌,
}
use dragoonfly.Base.Result.{Result, ok, err}
use dragoonfly.Strategy.{PeerId}
use dragoonfly.Paths.{FilePath, push}
use dragoonfly.Commands.Defs.{
  DragoonCommand, get_providers, get_block_dir as block_dir_command,
  get_file_dir as file_dir_command, get_blocks_info_from,
}
use dragoonfly.Network.Defs.{NodeError, other_error, Action, created_dir}
use dragoonfly.Network.Outside.{Outside}
use dragoonfly.Network.Files.{decode_blocks}
use dragoonfly.Download.Loop.{
  Codec, Received, start, Outcome, downloads, errors, waits, panicked, download_first_k_blocks,
}

-- What the node's own queue and its answers are: whether each command can be sent, the replies, and
-- whether the powers can be read.
pub record Replies : Type 0 where
  pub sends_providers : Bool
  pub providers : Option (Result NodeError (List PeerId))
  pub sends_block_dir : Bool
  pub block_dir : Option (Result NodeError FilePath)
  pub sends_file_dir : Bool
  pub file_dir : Option (Result NodeError FilePath)
  pub sends_info : PeerId → Bool
  pub powers : Bool

-- `send` and then `recv.await??`
abbrev pub ask {ℓ} : {A : Type ℓ} → Bool → Option (Result NodeError A) → Result NodeError A
ask false r = err other_error
ask true none = err other_error
ask true (some r) = r

-- What has been done so far: the commands sent, newest first, and the calls that changed the disk.
pub record Done : Type 0 where
  pub commands : List DragoonCommand
  pub actions : List Action

abbrev pub note : Bool → DragoonCommand → Done → Done
note sent cmd d = if sent then record d { commands = cmd ∷ d.commands } else d

-- `none` is a panic.
abbrev pub Ending : Type 0
Ending = Option (Result NodeError FilePath) × Done

abbrev pub give_up : NodeError → Done → Ending
give_up x d = (some (err x), d)

-- A request for the list of blocks goes to each provider; one that cannot be sent is only logged.
abbrev pub request_infos : (PeerId → Bool) → String → List PeerId → Done → Done
request_infos sends f [] d = d
request_infos sends f (p ∷ ps) d =
    request_infos sends f ps (note (sends p) (get_blocks_info_from p f) d)

module _ (w : Outside) (c : Codec) (can_send : Bool) (received : List (Received)) where
  -- The file is made of the blocks; whether this works is not looked at.
  abbrev pub on_outcome : FilePath → FilePath → String → Done → Outcome c → Ending
  on_outcome block_dir file_dir o d (downloads l) = (
    some (ok (push file_dir o)),
    record d { actions = (decode_blocks w block_dir l.block_hashes_on_disk o).1 ++ d.actions },
  )
  on_outcome block_dir file_dir o d (errors l) = give_up other_error d
  on_outcome block_dir file_dir o d (waits l) = give_up other_error d
  on_outcome block_dir file_dir o d panicked = (none, d)

  -- The loop, which needs the powers.
  abbrev pub on_powers : FilePath → FilePath → String → Done → Bool → Ending
  on_powers block_dir file_dir o d false = give_up other_error d
  on_powers block_dir file_dir o d true =
      on_outcome block_dir file_dir o d (download_first_k_blocks c can_send received start)

  abbrev pub on_file_dir :
      Replies → String → String → List PeerId → FilePath → Done → Result NodeError FilePath → Ending
  on_file_dir r f o ps block_dir d (err x) = give_up x d
  on_file_dir r f o [] block_dir d (ok file_dir) = give_up other_error d
  on_file_dir r f o (p ∷ ps) block_dir d (ok file_dir) =
      on_powers block_dir file_dir o (request_infos r.sends_info f (p ∷ ps) d) r.powers

  -- The directory of the blocks is made, or not.
  abbrev pub on_created : Replies → String → String → List PeerId → FilePath → Done → Bool → Ending
  on_created r f o ps block_dir d false = give_up other_error d
  on_created r f o ps block_dir d true =
      on_file_dir r f o ps block_dir
        (note r.sends_file_dir (file_dir_command f)
          (record d { actions = created_dir block_dir ∷ d.actions }))
        (ask r.sends_file_dir r.file_dir)

  abbrev pub on_block_dir :
      Replies → String → String → List PeerId → Done → Result NodeError FilePath → Ending
  on_block_dir r f o ps d (err x) = give_up x d
  on_block_dir r f o ps d (ok block_dir) =
      on_created r f o ps block_dir d (w.create_dir_all block_dir)

  abbrev pub on_providers :
      Replies → String → String → Done → Result NodeError (List PeerId) → Ending
  on_providers r f o d (err x) = give_up x d
  on_providers r f o d (ok provider_list) =
      on_block_dir r f o provider_list (note r.sends_block_dir (block_dir_command f) d)
        (ask r.sends_block_dir r.block_dir)

  -- `get_file`
  unfoldable pub get_file : Replies → (file_hash output_filename : String) → Ending
  unfolding download_first_k_blocks decode_blocks push
  get_file r f o =
      on_providers r f o
        (note r.sends_providers (get_providers f) (record { commands = []; actions = [] }))
        (ask r.sends_providers r.providers)
