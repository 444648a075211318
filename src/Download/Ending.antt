-- ===== src/Download/Ending.antt =====
-- Where an answer of `get_file` with a path comes from.
use dragoonfly.Base.{
  ◌≡◌, refl, ap, ◌∙◌, String, Bool, true, false, Option, none, some, List, [], ◌∷◌, ◌++◌,
}
use dragoonfly.Base.Result.{Result, ok, err}
use dragoonfly.Strategy.{PeerId}
use dragoonfly.Paths.{FilePath, push}
use dragoonfly.Network.Defs.{NodeError, created_dir}
use dragoonfly.Commands.Defs.{
  DragoonCommand, get_blocks_info_from, get_file_dir as file_dir_command,
  get_block_dir as block_dir_command, get_providers,
}
use dragoonfly.Network.Outside.{Outside}
use dragoonfly.Network.Files.{decode_blocks}
use dragoonfly.Download.Loop.{
  Codec, Received, Download, start, Outcome, downloads, errors, waits, panicked,
  download_first_k_blocks,
}
use dragoonfly.Download.GetFile.{
  Replies, Done, ask, get_file, on_outcome, on_powers, on_file_dir, on_created, on_block_dir,
  on_providers, request_infos, note,
}

note-actions :
    (sent : Bool) (cmd : DragoonCommand) (d : Done) → (note sent cmd d).actions ≡ d.actions
note-actions true cmd d = refl
note-actions false cmd d = refl

request_infos-actions :
    (sends : PeerId → Bool) (f : String) (ps : List PeerId) (d : Done)
    → (request_infos sends f ps d).actions ≡ d.actions
request_infos-actions sends f [] d = refl
request_infos-actions sends f (p ∷ ps) d =
    request_infos-actions sends f ps (note (sends p) (get_blocks_info_from p f) d)
    ∙ note-actions (sends p) (get_blocks_info_from p f) d

ask-ok :
    (sent : Bool) (reply : Option (Result NodeError FilePath)) (b : FilePath)
    → reply ≡ some (ok b)
    → (g : FilePath) → ask sent reply ≡ ok g
    → g ≡ b
ask-ok false reply b e g h = absurd cc
ask-ok true none b e g h = absurd cc
ask-ok true (some m) b e g h = cc

module _ (w : Outside) (c : Codec) (can_send : Bool) (received : List Received) where
  on_outcome-ok :
      (bd fd : FilePath) (o : String) (d : Done) (p : FilePath) (out : Outcome c)
      → (on_outcome w c can_send received bd fd o d out).0 ≡ some (ok p)
      → (l : Download) × (out ≡ downloads l)
        × (p ≡ push fd o)
        × ((on_outcome w c can_send received bd fd o d out).1.actions
            ≡ (decode_blocks w bd l.block_hashes_on_disk o).1 ++ d.actions)
  on_outcome-ok bd fd o d p (downloads l) h = (l, refl, cc, refl)
  on_outcome-ok bd fd o d p (errors l) h = absurd cc
  on_outcome-ok bd fd o d p (waits l) h = absurd cc
  on_outcome-ok bd fd o d p panicked h = absurd cc

  -- An answer with a path comes from the end of the loop.
  on_powers-ok :
      (bd fd : FilePath) (o : String) (d : Done) (powers : Bool) (p : FilePath)
      → (on_powers w c can_send received bd fd o d powers).0 ≡ some (ok p)
      → (l : Download) × (download_first_k_blocks c can_send received start ≡ downloads l)
        × (p ≡ push fd o)
        × ((on_powers w c can_send received bd fd o d powers).1.actions
            ≡ (decode_blocks w bd l.block_hashes_on_disk o).1 ++ d.actions)
  on_powers-ok bd fd o d false p h = absurd cc
  on_powers-ok bd fd o d true p h =
      on_outcome-ok bd fd o d p (download_first_k_blocks c can_send received start) h

  on_file_dir-ok :
      (r : Replies) (f o : String) (ps : List PeerId) (bd : FilePath) (d : Done)
      (reply : Result NodeError FilePath) (fd p : FilePath)
      → ((gd : FilePath) → reply ≡ ok gd → gd ≡ fd)
      → (on_file_dir w c can_send received r f o ps bd d reply).0 ≡ some (ok p)
      → (l : Download) × (download_first_k_blocks c can_send received start ≡ downloads l)
        × (p ≡ push fd o)
        × ((on_file_dir w c can_send received r f o ps bd d reply).1.actions
            ≡ (decode_blocks w bd l.block_hashes_on_disk o).1 ++ d.actions)
  on_file_dir-ok r f o ps bd d (err x) fd p e h = absurd cc
  on_file_dir-ok r f o [] bd d (ok gd) fd p e h = absurd cc
  on_file_dir-ok r f o (q ∷ ps) bd d (ok gd) fd p e h =
      let (l, ran, same, acts) =
        on_powers-ok bd gd o (request_infos r.sends_info f (q ∷ ps) d) r.powers p h in
      (
        l,
        ran,
        same ∙ ap (λ b. push b o) (e gd refl),
        acts
            ∙ ap (λ a. (decode_blocks w bd l.block_hashes_on_disk o).1 ++ a)
                (request_infos-actions r.sends_info f (q ∷ ps) d),
      )

  on_created-ok :
      (r : Replies) (f o : String) (ps : List PeerId) (bd : FilePath) (d : Done) (created : Bool)
      (fd p : FilePath)
      → r.file_dir ≡ some (ok fd)
      → (on_created w c can_send received r f o ps bd d created).0 ≡ some (ok p)
      → (l : Download) × (download_first_k_blocks c can_send received start ≡ downloads l)
        × (p ≡ push fd o)
        × ((on_created w c can_send received r f o ps bd d created).1.actions
            ≡ (decode_blocks w bd l.block_hashes_on_disk o).1 ++ created_dir bd ∷ d.actions)
  on_created-ok r f o ps bd d false fd p g h = absurd cc
  on_created-ok r f o ps bd d true fd p g h =
      let made = record d { actions = created_dir bd ∷ d.actions } in
      let (l, ran, same, acts) =
        on_file_dir-ok r f o ps bd (note r.sends_file_dir (file_dir_command f) made)
          (ask r.sends_file_dir r.file_dir) fd p (ask-ok r.sends_file_dir r.file_dir fd g) h in
      (
        l,
        ran,
        same,
        acts
            ∙ ap (λ a. (decode_blocks w bd l.block_hashes_on_disk o).1 ++ a)
                (note-actions r.sends_file_dir (file_dir_command f) made),
      )

  on_block_dir-ok :
      (r : Replies) (f o : String) (ps : List PeerId) (d : Done) (reply : Result NodeError FilePath)
      (bd fd p : FilePath)
      → ((gd : FilePath) → reply ≡ ok gd → gd ≡ bd)
      → r.file_dir ≡ some (ok fd)
      → (on_block_dir w c can_send received r f o ps d reply).0 ≡ some (ok p)
      → (l : Download) × (download_first_k_blocks c can_send received start ≡ downloads l)
        × (p ≡ push fd o)
        × ((on_block_dir w c can_send received r f o ps d reply).1.actions
            ≡ (decode_blocks w bd l.block_hashes_on_disk o).1 ++ created_dir bd ∷ d.actions)
  on_block_dir-ok r f o ps d (err x) bd fd p e g h = absurd cc
  on_block_dir-ok r f o ps d (ok gd) bd fd p e g h =
      let (l, ran, same, acts) = on_created-ok r f o ps gd d (w.create_dir_all gd) fd p g h in
      (
        l,
        ran,
        same,
        acts
            ∙ ap (λ b. (decode_blocks w b l.block_hashes_on_disk o).1 ++ created_dir b ∷ d.actions)
                (e gd refl),
      )

  on_providers-ok :
      (r : Replies) (f o : String) (d : Done) (reply : Result NodeError (List PeerId))
      (bd fd p : FilePath)
      → r.block_dir ≡ some (ok bd)
      → r.file_dir ≡ some (ok fd)
      → (on_providers w c can_send received r f o d reply).0 ≡ some (ok p)
      → (l : Download) × (download_first_k_blocks c can_send received start ≡ downloads l)
        × (p ≡ push fd o)
        × ((on_providers w c can_send received r f o d reply).1.actions
            ≡ (decode_blocks w bd l.block_hashes_on_disk o).1 ++ created_dir bd ∷ d.actions)
  on_providers-ok r f o d (err x) bd fd p e g h = absurd cc
  on_providers-ok r f o d (ok ps) bd fd p e g h =
      let asked = note r.sends_block_dir (block_dir_command f) d in
      let (l, ran, same, acts) =
        on_block_dir-ok r f o ps asked (ask r.sends_block_dir r.block_dir) bd fd p
          (ask-ok r.sends_block_dir r.block_dir bd e) g h in
      (
        l,
        ran,
        same,
        acts
            ∙ ap (λ a. (decode_blocks w bd l.block_hashes_on_disk o).1 ++ created_dir bd ∷ a)
                (note-actions r.sends_block_dir (block_dir_command f) d),
      )

-- An answer with a path comes from a download that has ended well, whose blocks are decoded.
pub get_file-ok :
    (w : Outside) (c : Codec) (can_send : Bool) (received : List Received) (r : Replies)
    (bd fd : FilePath) (f o : String) (p : FilePath)
    → r.block_dir ≡ some (ok bd)
    → r.file_dir ≡ some (ok fd)
    → (get_file w c can_send received r f o).0 ≡ some (ok p)
    → (l : Download) × (download_first_k_blocks c can_send received start ≡ downloads l)
      × (p ≡ push fd o)
      × ((get_file w c can_send received r f o).1.actions
          ≡ (decode_blocks w bd l.block_hashes_on_disk o).1 ++ created_dir bd ∷ [])
unfolding get_file
get_file-ok w c can_send received r bd fd f o p e g h =
    let first : Done = record { commands = []; actions = [] } in
    let asked = note r.sends_providers (get_providers f) first in
    let (l, ran, same, acts) =
      on_providers-ok w c can_send received r f o asked (ask r.sends_providers r.providers) bd fd p
        e g h in
    (
      l,
      ran,
      same,
      acts
          ∙ ap (λ a. (decode_blocks w bd l.block_hashes_on_disk o).1 ++ created_dir bd ∷ a)
              (note-actions r.sends_providers (get_providers f) first),
    )
