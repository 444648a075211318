-- ===== src/Exchange/Accounting.antt =====
-- What an exchange does to the storage counter and to the messages, on every path.
use native.Mathlib.Nat.{mod-eq_of_lt}
use dragoonfly.Base.{
  ℕ, zero, suc, ◌+◌, ◌-◌, ◌%◌, ◌<◌, ◌≡◌, refl, sym, ap, ◌∙◌, subst, String, Bool, false, Option,
  none, some, List, [], ◌∷◌, ◌++◌, ltb, arith, ◌⊎◌, inl, inr, Bool-cases,
}
use dragoonfly.Base.Result.{Result, ok, err}
use dragoonfly.Paths.{FilePath}
use dragoonfly.Exchange.Codes.{ExchangeCode, accept_block_send, reject_block_send}
use dragoonfly.Exchange.Frame.{from_be_bytes, usize_bytes}
use dragoonfly.Exchange.World.{
  Env, World, M, ◌>>=◌, ◌>>◌, fail, or_fail, read_exact, close, fetch_add, Failure, SendFileInfo,
  PeerBlockInfo, usize_mod, spend, info_too_big, bad_info, channel_closed,
}
use dragoonfly.Exchange.Receiver.{
  choose, choose_response_to_send_request, send_block_recv_wrapper, finish, recv_and_finish,
  recv_side, on_size, recv_info, max_pbi_size,
}
use dragoonfly.Exchange.Quiet.{
  Keeps, Keeps-refl, Keeps-trans, Quiet, read_exact-Quiet, or_fail-Quiet,
  send_block_recv_wrapper-Quiet,
}

-- Nothing is taken, or less than there is.
abbrev pub HasRoom : ℕ → World → Type 0
HasRoom n w = (n ≡ 0) ⊎ (n < w.available_storage)

-- A success hands on one message, with the size that was taken from the storage, which had room for it; a
-- failure hands on none, and leaves the storage as it was, unless the other end of the channel is closed:
-- then the size that was taken may be lost.
abbrev pub Accounted : Bool → World → Result Failure (Unit {0}) × World → Type 0
Accounted channel_open w (ok _, w') =
    (i : SendFileInfo) × (w'.send_file_infos ≡ w.send_file_infos ++ i ∷ [])
    × (w'.available_storage + i.size_of_block ≡ w.available_storage)
    × HasRoom i.size_of_block w
Accounted channel_open w (err e, w') =
    Keeps w w'
    ⊎ ((n : ℕ) × (channel_open ≡ false)
        × (w'.send_file_infos ≡ w.send_file_infos)
        × (w'.available_storage + n ≡ w.available_storage)
        × HasRoom n w)

Keeps-Accounted :
    (o : Bool) (u v : World) (r : Result Failure (Unit {0}) × World)
    → Keeps u v
    → Accounted o v r
    → Accounted o u r
Keeps-Accounted o u v (ok x, w') k (i, h, n, room) = (
  i,
  h ∙ ap (λ l. l ++ i ∷ []) k.infos,
  n ∙ k.storage,
  subst (λ a. (i.size_of_block ≡ 0) ⊎ (i.size_of_block < a)) k.storage room,
)
Keeps-Accounted o u v (err e, w') k (inl h) = inl (Keeps-trans u v w' k h)
Keeps-Accounted o u v (err e, w') k (inr (n, closed, h, lost, room)) =
    inr (n, closed, h ∙ k.infos, lost ∙ k.storage, subst (λ a. (n ≡ 0) ⊎ (n < a)) k.storage room)

-- A storage counter is a machine word.
abbrev Fits : World → Type 0
Fits w = w.available_storage < usize_mod

Quiet-then :
    (o : Bool) {A : Type 0} (m : M A) (f : A → M (Unit {0}))
    → Quiet m
    → ((a : A) (w : World) → Fits w → Accounted o w (f a w))
    → (w : World) → Fits w
    → Accounted o w ((m >>= f) w)
unfolding ◌>>=◌
Quiet-then o {A} m f q h w fits = go (m w) (q.quiet w)
  where
    go :
        (r : Result Failure A × World)
        → Keeps w r.1
        → Accounted o w (
            let (res, w') = r in
            let next : Result Failure (Unit {0}) × World = elim res [
              | ok a ↦ f a w'
              | err e ↦ (err e, w')
            ] in
            next)
    go (ok a, w') k =
        Keeps-Accounted o w w' (f a w') k (h a w' (subst (λ n. n < usize_mod) (sym k.storage) fits))
    go (err e, w') k = inl k

spend-fail :
    (o : Bool) (u v : World) (n : ℕ) (e : Failure)
    → Keeps u v
    → Accounted o u (((λ w. spend w n (λ x. x)) >>= λ _. fail e) v)
unfolding ◌>>=◌
spend-fail o u v zero e k = inl k
spend-fail o u v (suc n) e k =
    inl (Keeps-trans u v (record v { writes_left = n }) k (record { storage = refl; infos = refl }))

close-fail :
    (o : Bool) (u v : World) (e : Failure) → Keeps u v → Accounted o u ((close >> fail e) v)
unfolding close ◌>>=◌
close-fail o u v e k = spend-fail o u v v.writes_left e k

closed_end :
    (o : Bool) (u v : World) (n : ℕ) (e : Failure)
    → o ≡ false
    → v.send_file_infos ≡ u.send_file_infos
    → v.available_storage + n ≡ u.available_storage
    → HasRoom n u
    → Accounted o u ((close >> fail e) v)
unfolding close ◌>>=◌
closed_end o u v n e closed i s room = go v.writes_left
  where
    go : (k : ℕ) → Accounted o u (((λ w. spend w k (λ x. x)) >>= λ _. fail e) v)
    go zero = inr (n, closed, i, s, room)
    go (suc k) = inr (n, closed, i, s, room)

module _ (env : Env) where
  -- The world with the size set aside, and the world before.
  finish-Accounted :
      (dir : FilePath) (n : ℕ) (res : Result Failure (String × String × String)) (u w : World)
      → w.available_storage + n ≡ u.available_storage
      → w.send_file_infos ≡ u.send_file_infos
      → HasRoom n u
      → Fits u
      → Accounted env.channel_open u (finish env dir n res w)
  unfolding finish fetch_add close ◌>>=◌
  finish-Accounted dir n (ok (f, h, p)) u w s i room fits = elim (Bool-cases env.channel_open) [
    | inl listens ↦ rw listens (info, ap (λ l. l ++ info ∷ []) i, s, room)
    | inr closed ↦ rw closed (closed_end false u w n channel_closed refl i s room)
  ]
    where
      info : SendFileInfo
      info = record {
        file_dir = dir;
        size_of_block = n;
        file_hash = f;
        block_hash = h;
        peer_id_base_58 = p;
      }
  finish-Accounted dir n (err e) u w s i room fits =
      close-fail env.channel_open u
        (record w { available_storage = (w.available_storage + n) % usize_mod }) e
        (record { storage = mod-eq_of_lt (omega arith) ∙ s; infos = i })

  recv_and_finish-Accounted :
      (dir : FilePath) (info : PeerBlockInfo) (c : ExchangeCode) (n : ℕ) (u w : World)
      → w.available_storage + n ≡ u.available_storage
      → w.send_file_infos ≡ u.send_file_infos
      → HasRoom n u
      → Fits u
      → Accounted env.channel_open u (recv_and_finish env dir info (c, n) w)
  unfolding recv_and_finish
  recv_and_finish-Accounted dir info c n u w s i room fits =
      let kept = (send_block_recv_wrapper-Quiet env c dir info).quiet w in
      finish-Accounted dir n (send_block_recv_wrapper env c dir info w).0 u
        (send_block_recv_wrapper env c dir info w).1 (omega (arith, kept.storage, s))
        (kept.infos ∙ i) room fits

  choice-Accounted :
      (dir : FilePath) (info : PeerBlockInfo) (w : World)
      → Fits w
      → Accounted env.channel_open w (
          (choose_response_to_send_request info >>= λ choice. recv_and_finish env dir info choice)
            w)
  unfolding choose_response_to_send_request ◌>>=◌
  choice-Accounted dir info w fits = go info.block_sizes
    where
      go :
          (sizes : Option (List ℕ))
          → Accounted env.channel_open w
              (recv_and_finish env dir info (choose sizes w).0 (choose sizes w).1)
      go none =
          recv_and_finish-Accounted dir info reject_block_send 0 w w (omega arith) refl (inl refl)
            fits
      go (some []) =
          recv_and_finish-Accounted dir info reject_block_send 0 w w (omega arith) refl (inl refl)
            fits
      go (some (n ∷ ns)) = elim (Bool-cases (ltb n w.available_storage)) [
        | inr no_room ↦ rw no_room (
            recv_and_finish-Accounted dir info reject_block_send 0 w w (omega arith) refl (inl refl)
              fits)
        | inl room ↦ rw room (
            recv_and_finish-Accounted dir info accept_block_send n w
              (record w { available_storage = w.available_storage - n }) (ground arith) refl
              (inr (ground (arith, room))) fits)
      ]

  recv_info-Accounted :
      (dir : FilePath) (n : ℕ) (w : World)
      → Fits w
      → Accounted env.channel_open w (recv_info env dir n w)
  recv_info-Accounted dir n w fits =
      Quiet-then env.channel_open (read_exact n) _ (read_exact-Quiet n)
        (λ bytes.
          Quiet-then env.channel_open (or_fail (env.from_slice bytes) bad_info) _
            (or_fail-Quiet _ bad_info) (λ info. choice-Accounted dir info))
        w fits

  on_size-Accounted :
      (dir : FilePath) (n : ℕ) (w : World)
      → Fits w
      → Accounted env.channel_open w (on_size env dir n w)
  on_size-Accounted dir n w fits = elim (Bool-cases (ltb max_pbi_size n)) [
    | inl large ↦ rw large (close-fail env.channel_open w w (info_too_big n) (Keeps-refl w))
    | inr small ↦ rw small (recv_info-Accounted dir n w fits)
  ]

  -- The receiver's accounting, on a counter that is a usize, for every run, whatever comes and wherever the
  -- stream breaks: a finished exchange hands on one message, with a size that is what the available storage
  -- has lost, and which is 0 or less than it was. A failed one hands on none, and leaves the available storage
  -- as it was, except where it fails since the channel to the list of received blocks is closed: then
  -- the size that was taken, which there was room for, stays taken.
  pub recv_side-Accounted :
      (file_dir : FilePath) (w : World)
      → w.available_storage < usize_mod
      → Accounted env.channel_open w (recv_side env file_dir w)
  unfolding recv_side
  recv_side-Accounted file_dir w fits =
      Quiet-then env.channel_open (read_exact usize_bytes)
        (λ bytes. on_size env file_dir (from_be_bytes bytes)) (read_exact-Quiet usize_bytes)
        (λ bytes. on_size-Accounted file_dir (from_be_bytes bytes)) w fits
