-- ===== src/Start/Tests.antt =====
-- A node with 30 bytes of storage that had received blocks of 3 and 4 bytes.
use dragoonfly.Base.{ℕ, ◌-◌, ◌*◌, ◌≡◌, refl, false, true, none, some, List, [], ◌∷◌, arith}
use dragoonfly.Base.Result.{ok}
use dragoonfly.Strategy.{PeerId}
use dragoonfly.Storage.{add_new_block_info_to_send_file}
use dragoonfly.Storage.Restart.{fresh, reopened}
use dragoonfly.Storage.Tests.{plain, two_infos}
use dragoonfly.Commands.Defs.{get_available_storage}
use dragoonfly.Network.Defs.{Channel, number, Node}
use dragoonfly.Network.Outside.{Outside}
use dragoonfly.Network.New.{new, create_block_dir, fresh_node}
use dragoonfly.Network.Command.{handle_command}
use dragoonfly.Network.Tests.{calm}
use dragoonfly.Start.{Cli, b, multiplier, network, total_available_storage_for_send, start}
use dragoonfly.Start.Restart.{start-storage}

abbrev thirty_bytes : Cli
thirty_bytes = record {
  seed = 0;
  storage_space = 30;
  storage_unit = b;
  replace_file_dir = false;
  label = none;
}

abbrev one : List ℕ → PeerId
one bytes = 1

abbrev node : Node
node = fresh_node 1 "peer" 30 [] ("~/.share/dragoonfly/peer/files" ∷ [])

made : network calm one true thirty_bytes ≡ some node
unfolding network new create_block_dir total_available_storage_for_send
made = refl

start-storage_example :
    let t = add_new_block_info_to_send_file plain (fresh plain) two_infos in
    (m : Node) × (start plain calm one true thirty_bytes (reopened plain t) ≡ some (m, t))
    × (m.storage.used ≡ 7)
    × ((v : Outside) (c : Channel)
        → (handle_command v m c get_available_storage).answered
          ≡ (c, ok (number (30 * multiplier b - 7))) ∷ m.answered)
start-storage_example =
    start-storage plain calm one true thirty_bytes node two_infos made (omega arith)
      (refl, (refl, tt)) (omega arith) (omega arith)
