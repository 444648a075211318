-- ===== src/Start/Restart.antt =====
-- A node that is started again on the directory of an earlier run.
use dragoonfly.Base.{
  ℕ, ◌-◌, ◌*◌, ◌≤◌, ◌<◌, ◌≡◌, refl, sym, ap, ◌∙◌, String, Bool, true, false, none, some, List, [],
  ◌∷◌, All, if◌then◌else◌, arith,
}
use dragoonfly.Base.Result.{Result, ok, err}
use dragoonfly.Strategy.{PeerId}
use dragoonfly.Paths.{FilePath}
use dragoonfly.Exchange.World.{SendFileInfo, usize_mod}
use dragoonfly.Storage.{
  Format, SendFiles, get_current_available_storage, started, add_new_block_info_to_send_file,
  get_available_storage as available,
}
use dragoonfly.Storage.Restart.{fresh, reopened, IsWritten, sizes, restart-add}
use dragoonfly.Commands.Defs.{get_available_storage}
use dragoonfly.Network.Defs.{Channel, number, Node, NodeError, Action}
use dragoonfly.Network.Outside.{Outside}
use dragoonfly.Network.New.{new, in_dir, label_or_id, create_block_dir}
use dragoonfly.Network.Command.{handle_command}
use dragoonfly.Start.{
  Cli, multiplier, total_available_storage_for_send-exact, get_keypair, network, network_of,
  with_storage, run, start, replaces, left_files,
}

in_dir-available :
    (p : PeerId) (label : String) (total : ℕ) (r : Result NodeError FilePath × List Action)
    (n : Node)
    → in_dir p label total r ≡ some n
    → n.storage.available ≡ total
in_dir-available p label total (err x, done) n h = absurd cc
in_dir-available p label total (ok d, done) n h = ground (arith, h)

network-available :
    (w : Outside) (peer_id_of : List ℕ → PeerId) (checks : Bool) (cli : Cli) (n : Node)
    → cli.storage_space ≤ 18446744
    → network w peer_id_of checks cli ≡ some n
    → n.storage.available ≡ cli.storage_space * multiplier cli.storage_unit
unfolding network new
network-available w peer_id_of checks cli n small h =
    let p = peer_id_of (get_keypair cli.seed) in
    in_dir-available p (label_or_id w p cli.label) (cli.storage_space * multiplier cli.storage_unit)
      (create_block_dir w p cli.replace_file_dir) n
      (ap (network_of w p cli) (sym (total_available_storage_for_send-exact checks cli small)) ∙ h)

module _ (f : Format) where
  start-run :
      (w : Outside) (peer_id_of : List ℕ → PeerId) (checks : Bool) (cli : Cli) (n : Node)
      (files : SendFiles f.Line)
      → network w peer_id_of checks cli ≡ some n
      → start f w peer_id_of checks cli files
        ≡ run f n (left_files f (replaces w peer_id_of cli) files)
  unfolding start
  start-run w peer_id_of checks cli n files h =
      ap
        (λ o. elim o [
          | none ↦ none
          | some n ↦ run f n (left_files f (replaces w peer_id_of cli) files)
        ])
        h

  answers_available :
      (v : Outside) (n : Node) (c : Channel)
      → (handle_command v n c get_available_storage).answered
        ≡ (c, ok (number n.storage.available)) ∷ n.answered
  unfolding handle_command available
  answers_available v n c = refl

  -- The blocks that a list tells of after the directory was removed, or not.
  abbrev pub left_infos : Bool → List (f.Time × SendFileInfo) → List (f.Time × SendFileInfo)
  left_infos removed infos = if removed then [] else infos

  left_reads :
      (removed : Bool) (space : ℕ) (infos : List (f.Time × SendFileInfo))
      → All (IsWritten f) (left_infos removed infos)
      → sizes (left_infos removed infos) < usize_mod
      → sizes (left_infos removed infos) ≤ space
      → let t = add_new_block_info_to_send_file f (fresh f) (left_infos removed infos) in
        (t.total ≡ sizes (left_infos removed infos))
        × (get_current_available_storage f space (
              left_files f removed (reopened f (add_new_block_info_to_send_file f (fresh f) infos)))
            ≡ started (space - sizes (left_infos removed infos)) t)
  unfolding add_new_block_info_to_send_file
  left_reads false space infos written fits room =
      let (_, total, reads) = restart-add f 0 space infos written fits room in (total, reads)
  left_reads true space infos written fits room =
      let (first, _, _) = restart-add f space space [] tt fits room in
      let all_free : space ≡ space - 0 = omega arith in
      (refl, first ∙ ap (λ n. started n (fresh f)) all_free)

  -- A node that the program makes with a storage of at most 18446744 of some unit, on a directory in
  -- which an earlier run that began with an empty list has recorded blocks. If the directory is to be replaced and can be removed, no block is left; otherwise all
  -- are. If the calls on the files worked while these were recorded, and their sizes add up to a usize and to no more than the storage,
  -- the node starts, counts exactly the sizes of the blocks that are left as used,
  -- and then answers GetAvailableStorage with the storage that the command line gives less
  -- these sizes.
  pub start-storage :
      (w : Outside) (peer_id_of : List ℕ → PeerId) (checks : Bool) (cli : Cli) (n : Node)
      (infos : List (f.Time × SendFileInfo))
      → network w peer_id_of checks cli ≡ some n
      → cli.storage_space ≤ 18446744
      → let left = left_infos (replaces w peer_id_of cli) infos in
        All (IsWritten f) left
        → sizes left < usize_mod
        → sizes left ≤ cli.storage_space * multiplier cli.storage_unit
        → let t = add_new_block_info_to_send_file f (fresh f) left in
          (m : Node) × (start f w peer_id_of checks cli
              (reopened f (add_new_block_info_to_send_file f (fresh f) infos))
            ≡ some (m, t))
          × (m.storage.used ≡ sizes left)
          × ((v : Outside) (c : Channel)
              → (handle_command v m c get_available_storage).answered
                ≡ (c, ok (number (cli.storage_space * multiplier cli.storage_unit - sizes left)))
                  ∷ m.answered)
  unfolding run
  start-storage w peer_id_of checks cli n infos made small written fits room =
      let left = left_infos (replaces w peer_id_of cli) infos in
      let t = add_new_block_info_to_send_file f (fresh f) left in
      let before = reopened f (add_new_block_info_to_send_file f (fresh f) infos) in
      let has = network-available w peer_id_of checks cli n small made in
      let (total, reads) =
        left_reads (replaces w peer_id_of cli) n.storage.available infos written fits
          (omega (arith, room, has)) in
      let m : Node = record n {
        storage = record n.storage { available = n.storage.available - sizes left; used = t.total };
      } in
      (
        m,
        start-run w peer_id_of checks cli n before made ∙ ap (with_storage f n) reads,
        total,
        λ v c.
            answers_available v m c ∙ ap (λ k. (c, ok (number (k - sizes left))) ∷ n.answered) has,
      )
