-- ===== src/Storage/Served.antt =====
-- The exchanges that a node serves, the list that it keeps of them, and its next start.
use dragoonfly.Base.{
  ℕ, ◌+◌, ◌-◌, ◌<◌, ◌≡◌, refl, ap, ◌∙◌, subst, true, inl, inr, All, List, [], ◌∷◌, ◌++◌, map, arith,
}
use dragoonfly.Base.Result.{Result, ok, err}
use dragoonfly.Paths.{FilePath}
use dragoonfly.Exchange.World.{Env, World, SendFileInfo, Failure, usize_mod}
use dragoonfly.Exchange.Receiver.{recv_side}
use dragoonfly.Exchange.Accounting.{Accounted, recv_side-Accounted}
use dragoonfly.Storage.SendFile.{
  Format, add_new_block_info_to_send_file, get_current_available_storage, started,
}
use dragoonfly.Storage.Restart.{fresh, nothing, reopened, IsWritten, sizes, restart-add}

-- A new stream, on which anything may come and which may break at any call.
abbrev pub opened : List ℕ → ℕ → World → World
opened incoming writes_left w = record w {
  incoming = incoming;
  outgoing = [];
  writes_left = writes_left;
}

-- Exchanges that a node serves one at a time, each with what the other crates and the disk answer to it.
pub data Serves (dir : FilePath) (w : World) : World → Type 1 where
  idle : Serves dir w w
  served :
      {v : World} (env : Env) (incoming : List ℕ) (writes_left : ℕ)
      → env.channel_open ≡ true
      → Serves dir w v
      → Serves dir w (recv_side env dir (opened incoming writes_left v)).1

abbrev block_sizes : List SendFileInfo → ℕ
block_sizes [] = 0
block_sizes (i ∷ more) = i.size_of_block + block_sizes more

block_sizes-append :
    (xs : List SendFileInfo) (i : SendFileInfo)
    → block_sizes (xs ++ i ∷ []) ≡ block_sizes xs + i.size_of_block
block_sizes-append [] i = omega arith
block_sizes-append (x ∷ xs) i = omega (arith, block_sizes-append xs i)

-- What is free, and what is recorded.
abbrev accounted_for : World → ℕ
accounted_for w = w.available_storage + block_sizes w.send_file_infos

Accounted-sum :
    (w : World) (r : Result Failure (Unit {0}) × World)
    → Accounted true w r
    → accounted_for r.1 ≡ accounted_for w
Accounted-sum w (ok x, v) (i, infos, spent, _) =
    omega (arith, ap block_sizes infos, block_sizes-append w.send_file_infos i, spent)
Accounted-sum w (err e, v) (inl keeps) = omega (arith, keeps.storage, ap block_sizes keeps.infos)
Accounted-sum w (err e, v) (inr (n, closed, _, _, _)) = absurd cc

Serves-sum :
    (dir : FilePath) {w : World}
    → accounted_for w < usize_mod
    → {v : World} → Serves dir w v
    → accounted_for v ≡ accounted_for w
Serves-sum dir small idle = refl
Serves-sum dir small (served {v = v} env incoming writes_left open_channel s) =
    let before = Serves-sum dir small s in
    Accounted-sum (opened incoming writes_left v)
      (recv_side env dir (opened incoming writes_left v))
      (subst
        (λ o.
          Accounted o (opened incoming writes_left v)
            (recv_side env dir (opened incoming writes_left v)))
        open_channel
        (recv_side-Accounted env dir (opened incoming writes_left v)
          (omega (arith, before, small))))
    ∙ before

sizes-block_sizes :
    {T : Type 0} (stamped : List (T × SendFileInfo))
    → sizes stamped ≡ block_sizes (map (λ x. x.1) stamped)
sizes-block_sizes [] = refl
sizes-block_sizes ((now, i) ∷ more) = omega (arith, sizes-block_sizes more)

-- A node is started with a storage that is a usize, on a directory with no list; while the task that keeps
-- the list runs, it serves any exchanges, one after another and none while another runs, with whatever
-- peers send and wherever their streams break, and the task writes down all that they hand to it,
-- without a failing call on the files. Stopped and started again with the
-- same storage, the node has exactly the available storage that it had when it stopped, and what it counts
-- as used is the rest.
pub Serves-restart :
    (f : Format) (dir : FilePath) (w v : World) (stamped : List (f.Time × SendFileInfo))
    → w.available_storage < usize_mod
    → w.send_file_infos ≡ []
    → Serves dir w v
    → map (λ x. x.1) stamped ≡ v.send_file_infos
    → All (IsWritten f) stamped
    → let t = add_new_block_info_to_send_file f (fresh f) stamped in
      (get_current_available_storage f w.available_storage (nothing f)
        ≡ started w.available_storage (fresh f))
      × (get_current_available_storage f w.available_storage (reopened f t)
          ≡ started v.available_storage t)
      × (v.available_storage + t.total ≡ w.available_storage)
Serves-restart f dir w v stamped small none_yet s written works =
    let t = add_new_block_info_to_send_file f (fresh f) stamped in
    let none = ap block_sizes none_yet in
    let sum = Serves-sum dir (omega (arith, none, small)) s in
    let listed : sizes stamped ≡ block_sizes v.send_file_infos =
      sizes-block_sizes stamped ∙ ap block_sizes written in
    let (first, total, again) =
      restart-add f w.available_storage w.available_storage stamped works
        (omega (arith, sum, none, listed, small)) (omega (arith, sum, none, listed)) in
    let rest : w.available_storage - sizes stamped ≡ v.available_storage =
      omega (arith, sum, none, listed) in
    (first, again ∙ ap (λ n. started n t) rest, omega (arith, total, sum, none, listed))
