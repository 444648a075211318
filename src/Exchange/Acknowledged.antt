-- ===== src/Exchange/Acknowledged.antt =====
-- What a receiver that has confirmed a block has read from its stream.
use dragoonfly.Base.{
  ℕ, ◌≤◌, ◌≡◌, refl, sym, ap, subst, ◌∙◌, Bool, Option, none, some, List, [], ◌∷◌, length, ltb,
  take, drop, get_elem?, inl, inr, Bool-cases, if◌then◌else◌, arith,
}
use dragoonfly.Base.Result.{ok}
use dragoonfly.Paths.{FilePath, push, get_block_dir}
use dragoonfly.Exchange.Codes.{ExchangeCode}
use dragoonfly.Exchange.Frame.{usize_bytes, from_be_bytes}
use dragoonfly.Exchange.World.{Env, World, fail, close, PeerBlockInfo, info_too_big, bad_info}
use dragoonfly.Exchange.Receiver.{
  choose, choose_response_to_send_request, recv_and_finish, recv_info, refuse_info, on_size,
  recv_side, max_pbi_size,
}
use dragoonfly.Exchange.Mute.{
  Same, Mute, then_Mute, close-Mute, fail-Mute, read_exact-Mute, or_fail-Mute,
}
use dragoonfly.Exchange.Confirmed.{Confirms, muted, or_fail-ok, read_exact-ok}
use dragoonfly.Exchange.Stored.{HasStored, recv_and_finish-stored}

silent : (w : World) → w.outgoing ≡ [] → ¬ Confirms w
silent w e c = absurd (ground (arith, e, c))

choose-others :
    (o : Option (List ℕ)) (w : World)
    → Same w (choose o w).1 × ((choose o w).1.incoming ≡ w.incoming)
choose-others none w = (record { outgoing = refl; disk = refl }, refl)
choose-others (some []) w = (record { outgoing = refl; disk = refl }, refl)
choose-others (some (size ∷ more)) w = elim (Bool-cases (ltb size w.available_storage)) [
  | inl e ↦ rw e (record { outgoing = refl; disk = refl }, refl)
  | inr e ↦ rw e (record { outgoing = refl; disk = refl }, refl)
]

choose_response-Mute : (info : PeerBlockInfo) → Mute (choose_response_to_send_request info)
unfolding choose_response_to_send_request
choose_response-Mute info = record { mute = λ w. (choose-others info.block_sizes w).0 }

choose_response-ok :
    (info : PeerBlockInfo) (w v : World) (r : ExchangeCode × ℕ)
    → choose_response_to_send_request info w ≡ (ok r, v)
    → v.incoming ≡ w.incoming
unfolding choose_response_to_send_request
choose_response-ok info w v r q =
    ap (λ x. x.1.incoming) (sym q) ∙ (choose-others info.block_sizes w).1

-- A frame of the given size was read, and the block that it announces is stored.
abbrev pub Acknowledged : Env → FilePath → ℕ → List ℕ → World → World → Type 0
Acknowledged env dir size rest w w' =
    (info : PeerBlockInfo) × (size ≤ length rest)
    × (env.from_slice (take size rest) ≡ some info)
    × HasStored dir info (drop size rest) w w'

-- Storing is read off the worlds' disks.
HasStored-moved :
    (dir : FilePath) (info : PeerBlockInfo) (rest : List ℕ) (u w w' : World)
    → u.disk ≡ w.disk
    → HasStored dir info rest u w'
    → HasStored dir info rest w w'
HasStored-moved dir info rest u w w' e (size, more, h, hs, sized, named, enough, stored) = (
  size,
  more,
  h,
  hs,
  sized,
  named,
  enough,
  stored ∙ ap (λ d. (push (get_block_dir dir info.file_hash) h, take size rest) ∷ d) e,
)

module _ (env : Env) where
  recv_info-Acknowledged :
      (dir : FilePath) (size : ℕ) (w : World)
      → w.outgoing ≡ []
      → Confirms (recv_info env dir size w).1
      → Acknowledged env dir size w.incoming w (recv_info env dir size w).1
  recv_info-Acknowledged dir size w none_yet c =
      let (bytes, v1, q1, r1, s1) = muted _ _ w (read_exact-Mute size) (silent w none_yet) c in
      let (enough, same, rest) = read_exact-ok size w v1 bytes q1 in
      let c1 = subst (λ x. Confirms x.1) r1 c in
      let n1 = s1.outgoing ∙ none_yet in
      let (info, v2, q2, r2, s2) =
        muted _ _ v1 (or_fail-Mute (env.from_slice bytes) bad_info) (silent v1 n1) c1 in
      let (parsed, stay) = or_fail-ok (env.from_slice bytes) bad_info v1 v2 info q2 in
      let c2 = subst (λ x. Confirms x.1) r2 c1 in
      let n2 = s2.outgoing ∙ n1 in
      let (choice, v3, q3, r3, s3) = muted _ _ v2 (choose_response-Mute info) (silent v2 n2) c2 in
      let c3 = subst (λ x. Confirms x.1) r3 c2 in
      let has = recv_and_finish-stored env dir info choice v3 (s3.outgoing ∙ n2) c3 in
      let left = choose_response-ok info v2 v3 choice q3 ∙ ap (λ x. x.incoming) stay ∙ rest in
      (
        info,
        enough,
        ap env.from_slice (sym same) ∙ parsed,
        HasStored-moved dir info (drop size w.incoming) v3 w (recv_info env dir size w).1
            (s3.disk ∙ s2.disk ∙ s1.disk)
            (subst (λ x. HasStored dir info (drop size w.incoming) v3 x.1) (sym (r1 ∙ r2 ∙ r3))
              (subst (λ l. HasStored dir info l v3 (recv_and_finish env dir info choice v3).1) left
                has)),
      )

  on_size-Acknowledged :
      (dir : FilePath) (size : ℕ) (w : World)
      → w.outgoing ≡ []
      → Confirms (on_size env dir size w).1
      → Acknowledged env dir size w.incoming w (on_size env dir size w).1
  on_size-Acknowledged dir size w none_yet c = elim (Bool-cases (ltb max_pbi_size size)) [
    | inl e ↦
        let same =
          (then_Mute close (λ _. fail (info_too_big size)) close-Mute (λ _. fail-Mute _)).mute w in
        absurd (
          silent w none_yet (
            ap (λ l. get_elem? l 1) (sym same.outgoing)
            ∙ ap (λ m. get_elem? (m w).1.outgoing 1) (sym (branch e))
            ∙ c))
    | inr e ↦
        subst (λ m. Acknowledged env dir size w.incoming w (m w).1) (sym (branch e))
          (recv_info-Acknowledged dir size w none_yet (subst (λ m. Confirms (m w).1) (branch e) c))
  ]
    where
      branch :
          {b : Bool}
          → ltb max_pbi_size size ≡ b
          → on_size env dir size ≡ (if b then refuse_info env size else recv_info env dir size)
      branch e = ap (λ b. if b then refuse_info env size else recv_info env dir size) e

  pub recv_side-Acknowledged :
      (dir : FilePath) (w : World)
      → w.outgoing ≡ []
      → Confirms (recv_side env dir w).1
      → (usize_bytes ≤ length w.incoming)
        × Acknowledged env dir
            (from_be_bytes (take usize_bytes w.incoming))
            (drop usize_bytes w.incoming)
            w
            (recv_side env dir w).1
  unfolding recv_side
  recv_side-Acknowledged dir w none_yet c =
      let (bytes, v, q, r, s) = muted _ _ w (read_exact-Mute usize_bytes) (silent w none_yet) c in
      let (enough, same, rest) = read_exact-ok usize_bytes w v bytes q in
      let c1 = subst (λ x. Confirms x.1) r c in
      let (info, fits, parsed, has) =
        on_size-Acknowledged dir (from_be_bytes bytes) v (s.outgoing ∙ none_yet) c1 in
      (
        enough,
        subst
            (λ l.
              Acknowledged env dir (from_be_bytes (take usize_bytes w.incoming)) l w
                (recv_side env dir w).1)
            rest
            (subst
              (λ l. Acknowledged env dir (from_be_bytes l) v.incoming w (recv_side env dir w).1)
              same
              (
                info,
                fits,
                parsed,
                HasStored-moved dir info (drop (from_be_bytes bytes) v.incoming) v w
                    (recv_side env dir w).1 s.disk
                    (subst (λ x. HasStored dir info (drop (from_be_bytes bytes) v.incoming) v x.1)
                      (sym r) has),
              )),
      )
