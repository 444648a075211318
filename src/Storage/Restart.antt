-- ===== src/Storage/Restart.antt =====
-- What a node that starts again finds on disk.
use native.Mathlib.Nat.{mod-eq_of_lt}
use dragoonfly.Base.{
  ℕ, ◌+◌, ◌-◌, ◌%◌, ◌<◌, ◌≤◌, ◌≡◌, refl, sym, ap, ◌∙◌, subst, none, some, List, [], ◌∷◌, ◌++◌, All,
  arith, le→ltb_false,
}
use dragoonfly.Base.Result.{ok}
use dragoonfly.Exchange.World.{SendFileInfo, usize_mod}
use dragoonfly.Storage.SendFile.{
  Format, SendFiles, work, add_send_file_inner, add_new_block_info_to_send_file, started,
  read_first_line, get_current_available_storage,
}

abbrev pub sizes {ℓ} : {T : Type ℓ} → List (T × SendFileInfo) → ℕ
sizes [] = 0
sizes ((_, info) ∷ more) = info.size_of_block + sizes more

module _ (f : Format) where
  -- The list file begins with the counter, and no new file is left behind.
  pub record IsInStep (s : SendFiles f.Line) : Type 0 where
    pub blocks : List f.Line
    pub listed : s.old_file ≡ some (f.total_line s.total ∷ blocks)
    pub renamed : s.new_file ≡ none

  abbrev added : SendFiles f.Line → List f.Line → f.Time → SendFileInfo → SendFiles f.Line
  added s blocks now info =
      let total = (s.total + info.size_of_block) % usize_mod in
      record {
        total = total;
        old_file = some (f.total_line total ∷ (blocks ++ f.block_line now info ∷ []));
        new_file = none;
      }

  add_ok :
      (s : SendFiles f.Line) (now : f.Time) (info : SendFileInfo) (h : IsInStep s)
      → f.calls now ≡ work
      → add_send_file_inner f s now info ≡ (ok tt, added s h.blocks now info)
  unfolding add_send_file_inner
  add_ok s now info h works = rw (h.renamed, h.listed, works) refl

  added-IsInStep :
      (s : SendFiles f.Line) (blocks : List f.Line) (now : f.Time) (info : SendFileInfo)
      → IsInStep (added s blocks now info)
  added-IsInStep s blocks now info = record {
    blocks = blocks ++ f.block_line now info ∷ [];
    listed = refl;
    renamed = refl;
  }

  -- The calls on the files work while the block is recorded.
  abbrev pub IsWritten : f.Time × SendFileInfo → Type 0
  IsWritten (now, info) = f.calls now ≡ work

  every_total :
      (s : SendFiles f.Line) (infos : List (f.Time × SendFileInfo))
      → IsInStep s
      → All IsWritten infos
      → s.total + sizes infos < usize_mod
      → IsInStep (add_new_block_info_to_send_file f s infos)
        × ((add_new_block_info_to_send_file f s infos).total ≡ s.total + sizes infos)
  unfolding add_new_block_info_to_send_file
  every_total s [] h written room = (h, omega arith)
  every_total s ((now, info) ∷ more) h (works, written) room =
      let small : (s.total + info.size_of_block) % usize_mod ≡ s.total + info.size_of_block =
        mod-eq_of_lt (omega arith) in
      let (g, e) =
        every_total (added s h.blocks now info) more (added-IsInStep s h.blocks now info) written
          (omega (arith, small)) in
      let step : (add_send_file_inner f s now info).1 ≡ added s h.blocks now info =
        ap (λ r. r.1) (add_ok s now info h works) in
      (
        subst (λ z. IsInStep (add_new_block_info_to_send_file f z more)) (sym step) g,
        ap (λ z. (add_new_block_info_to_send_file f z more).total) step ∙ omega (arith, e, small),
      )

  -- The counter and the files of the first start.
  abbrev pub nothing : SendFiles f.Line
  nothing = record { total = 0; old_file = none; new_file = none }

  -- The files as another run left them, with the counter of a new process.
  abbrev pub reopened : SendFiles f.Line → SendFiles f.Line
  reopened s = record s { total = 0 }

  first_line_ok :
      (available : ℕ) (s : SendFiles f.Line) (first : f.Line) (more : List f.Line) (used : ℕ)
      → f.read_total first ≡ some used
      → used ≤ available
      → read_first_line f available s (first ∷ more)
        ≡ started (available - used) (record s { total = used })
  unfolding read_first_line
  first_line_ok available s first more used e h =
      rw (e, read_first_line) (rw (le→ltb_false used available h) refl)

  restart_reads :
      (s : SendFiles f.Line) (available : ℕ)
      → IsInStep s
      → s.total ≤ available
      → get_current_available_storage f available (reopened s) ≡ started (available - s.total) s
  unfolding get_current_available_storage
  restart_reads s available h room =
      subst
        (λ o.
          elim o [
            | none ↦
                started available (record s { total = 0; old_file = some (f.total_line 0 ∷ []) })
            | some lines ↦ read_first_line f available (reopened s) lines
          ]
          ≡ started (available - s.total) s)
        (sym h.listed)
        (first_line_ok available (reopened s) (f.total_line s.total) h.blocks s.total
          (f.read_total-total_line s.total) room)

  -- The first start on an empty directory.
  abbrev pub fresh : SendFiles f.Line
  fresh = record { total = 0; old_file = some (f.total_line 0 ∷ []); new_file = none }

  fresh-IsInStep : IsInStep fresh
  fresh-IsInStep = record { blocks = []; listed = refl; renamed = refl }

  -- A node that has recorded blocks since its first start, without a failing call on the files, whose sizes add up to a usize, and is
  -- started again on the same directory with room for them, finds exactly their total size in use and
  -- the rest of its storage available.
  pub restart-add :
      (first later : ℕ) (infos : List (f.Time × SendFileInfo))
      → All IsWritten infos
      → sizes infos < usize_mod
      → sizes infos ≤ later
      → let t = add_new_block_info_to_send_file f fresh infos in
        (get_current_available_storage f first nothing ≡ started first fresh)
        × (t.total ≡ sizes infos)
        × (get_current_available_storage f later (reopened t) ≡ started (later - sizes infos) t)
  unfolding get_current_available_storage
  restart-add first later infos written small room =
      let (h, e) = every_total fresh infos fresh-IsInStep written (omega arith) in
      let total : (add_new_block_info_to_send_file f fresh infos).total ≡ sizes infos =
        omega (arith, e) in
      (
        refl,
        total,
        restart_reads (add_new_block_info_to_send_file f fresh infos) later h (omega (arith, total))
            ∙ ap (λ n. started (later - n) (add_new_block_info_to_send_file f fresh infos)) total,
      )
