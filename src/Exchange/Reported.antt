-- ===== src/Exchange/Reported.antt =====
-- A sender that reports a correct block: what it has read and what it has written.
use dragoonfly.Base.{
  ℕ, ◌≡◌, refl, sym, ap, ◌∙◌, String, Bool, true, false, Option, none, some, List, [], ◌∷◌, ◌++◌,
  length, take, drop, get_elem?, inl, inr, arith, append_assoc,
}
use dragoonfly.Base.Result.{Result, ok, err}
use dragoonfly.Paths.{FilePath, push, get_block_dir}
use dragoonfly.Strategy.{PeerId, SendId, send_id}
use dragoonfly.Exchange.Codes.{
  ExchangeCode, accept_block_send, reject_block_send, block_is_correct, block_is_incorrect, to_u8,
  from_repr_iff,
}
use dragoonfly.Exchange.Frame.{to_be_bytes}
use dragoonfly.Exchange.World.{
  Env, World, M, ◌>>=◌, ◌>>◌, return, fail, or_fail, read_exact, write_all, close, Failure,
  no_such_file,
}
use dragoonfly.Exchange.Sender.{
  build_peer_block_info, send_peer_block_info, send_block, on_status, on_answer, sender_side_inner,
  sender_side, label_error, read_code,
}
use dragoonfly.Exchange.Agreement.{sent_info}
use dragoonfly.Exchange.Mute.{>>=-cases, close-Mute, read_exact-Mute}
use dragoonfly.Exchange.Confirmed.{read_exact-ok, or_fail-ok, write_all-ok}

-- A chain that succeeds has succeeded in its first call.
then_ok :
    {A B : Type 0} (m : M A) (f : A → M B) (w v : World) (b : B)
    → (m >>= f) w ≡ (ok b, v)
    → (a : A) × (u : World) × (m w ≡ (ok a, u)) × (f a u ≡ (ok b, v))
then_ok m f w v b h = elim (>>=-cases m f w) [
  | inl (a, u, q, r) ↦ (a, u, q, sym r ∙ h)
  | inr (e, u, q, r) ↦ absurd cc
]

close-fail : {A : Type 0} (e : Failure) (w v : World) (a : A) → ¬ ((close >> fail e) w ≡ (ok a, v))
close-fail e w v a h = let (x, u, q, r) = then_ok close (λ _. fail e) w v a h in absurd cc

take_one : (l : List ℕ) (x : ℕ) (more : List ℕ) → take 1 l ≡ x ∷ more → get_elem? l 0 ≡ some x
take_one [] x more h = absurd cc
take_one (y ∷ ys) x more h = ap some cc

drop_one : (l : List ℕ) (x : ℕ) → get_elem? (drop 1 l) 0 ≡ some x → get_elem? l 1 ≡ some x
drop_one [] x h = absurd cc
drop_one (y ∷ ys) x h = h

label_error-ok :
    {A : Type 0} (id : SendId) (r : Result Failure A × World) (a : A) (v : World)
    → label_error id r ≡ (ok a, v)
    → r ≡ (ok a, v)
label_error-ok id (ok b, w) a v h = cc
label_error-ok id (err e, w) a v h = absurd cc

abbrev pub framed : List ℕ → List ℕ
framed ser_info = to_be_bytes (length ser_info) ++ ser_info

module _ (env : Env) where
  read_code-some :
      (bytes : List ℕ) (c : ExchangeCode)
      → read_code env bytes ≡ some c
      → (more : List ℕ) × (bytes ≡ to_u8 c ∷ more)
  read_code-some [] c h = absurd cc
  read_code-some (b ∷ bs) c h = (bs, ap (λ x. x ∷ bs) ((from_repr_iff b c).0 h))

  on_status-true :
      (id i : SendId) (o : Option ExchangeCode) (w v : World)
      → on_status env id o w ≡ (ok (true, i), v)
      → (o ≡ some block_is_correct) × (i ≡ id) × (v ≡ w)
  unfolding on_status
  on_status-true id i (some block_is_correct) w v h = (refl, cc, cc)
  on_status-true id i (some block_is_incorrect) w v h = absurd cc
  on_status-true id i (some accept_block_send) w v h = absurd (close-fail _ w v _ h)
  on_status-true id i (some reject_block_send) w v h = absurd (close-fail _ w v _ h)
  on_status-true id i none w v h = absurd (close-fail _ w v _ h)

  send_block-ok :
      (h f : String) (dir : FilePath) (w v : World) (x : Unit {0})
      → send_block env h f dir w ≡ (ok x, v)
      → (content : List ℕ) × (env.read_file (push (get_block_dir dir f) h) ≡ some content)
        × (v.outgoing ≡ w.outgoing ++ content)
        × (v.incoming ≡ w.incoming)
  unfolding send_block
  send_block-ok h f dir w v x q =
      let (content, u, k, r) =
        then_ok (or_fail (env.read_file (push (get_block_dir dir f) h)) no_such_file) write_all w v
          x q in
      let (found, same) =
        or_fail-ok (env.read_file (push (get_block_dir dir f) h)) no_such_file w u content k in
      let (sent, _, left) = write_all-ok content u v r in
      (
        content,
        found,
        sent ∙ ap (λ y. y.outgoing ++ content) same,
        left ∙ ap (λ y. y.incoming) same,
      )

  read_status :
      (id i : SendId) (w v : World)
      → (do
        ser_block_status ← read_exact 1
        close
        on_status env id (read_code env ser_block_status))
          w
        ≡ (ok (true, i), v)
      → (i ≡ id)
        × (get_elem? w.incoming 0 ≡ some (to_u8 block_is_correct))
        × (v.outgoing ≡ w.outgoing)
  read_status id i w v h =
      let (bytes, u, q, r) =
        then_ok (read_exact 1) (λ b. close >> on_status env id (read_code env b)) w v (true, i) h in
      let (_, same, _) = read_exact-ok 1 w u bytes q in
      let (x, u', q', r') =
        then_ok close (λ _. on_status env id (read_code env bytes)) u v (true, i) r in
      let (is_correct, same_id, stay) = on_status-true id i (read_code env bytes) u' v r' in
      let (more, first) = read_code-some bytes block_is_correct is_correct in
      (
        same_id,
        take_one w.incoming (to_u8 block_is_correct) more (sym same ∙ first),
        ap (λ y. y.outgoing) stay
            ∙ ap (λ y. y.1.outgoing) (sym q')
            ∙ (close-Mute.mute u).outgoing
            ∙ ap (λ y. y.1.outgoing) (sym q)
            ∙ ((read_exact-Mute 1).mute w).outgoing,
      )

  -- What the sender has read and sent since it got the answer.
  on_answer-true :
      (id i : SendId) (dir : FilePath) (o : Option ExchangeCode) (w v : World)
      → on_answer env id dir o w ≡ (ok (true, i), v)
      → (i ≡ id)
        × (content : List ℕ) × (o ≡ some accept_block_send)
        × (env.read_file (push (get_block_dir dir id.file_hash) id.block_hash) ≡ some content)
        × (get_elem? w.incoming 0 ≡ some (to_u8 block_is_correct))
        × (v.outgoing ≡ w.outgoing ++ content)
  unfolding on_answer send_block
  on_answer-true id i dir (some accept_block_send) w v h =
      let (x, u, q, r) =
        then_ok (send_block env id.block_hash id.file_hash dir) status w v (true, i) h in
      let (content, found, sent, left) = send_block-ok id.block_hash id.file_hash dir w u x q in
      let (same_id, is_correct, same) = read_status id i u v r in
      (same_id, content, refl, found, ap (λ l. get_elem? l 0) (sym left) ∙ is_correct, same ∙ sent)
    where
      status : Unit {0} → M (Bool × SendId)
      status _ = do
        ser_block_status ← read_exact 1
        close
        on_status env id (read_code env ser_block_status)
  on_answer-true id i dir (some reject_block_send) w v h =
      let (x, u, q, r) = then_ok close (λ _. return (false, id)) w v (true, i) h in absurd cc
  on_answer-true id i dir (some block_is_correct) w v h = absurd (close-fail _ w v _ h)
  on_answer-true id i dir (some block_is_incorrect) w v h = absurd (close-fail _ w v _ h)
  on_answer-true id i dir none w v h = absurd (close-fail _ w v _ h)

  send_peer_block_info-ok :
      (own_peer_id : PeerId) (h f : String) (dir : FilePath) (w v : World) (x : Unit {0})
      → send_peer_block_info env own_peer_id h f dir w ≡ (ok x, v)
      → (content : List ℕ) × (env.read_file (push (get_block_dir dir f) h) ≡ some content)
        × (v.outgoing ≡ w.outgoing ++ framed (env.to_vec (sent_info env own_peer_id h f content)))
        × (v.incoming ≡ w.incoming)
  unfolding send_peer_block_info build_peer_block_info
  send_peer_block_info-ok own_peer_id h f dir w v x q =
      let (info, u, k, r) =
        then_ok (build_peer_block_info env own_peer_id h f dir) (λ i. write_info (env.to_vec i)) w v
          x q in
      let (content, u', k', r') =
        then_ok (or_fail (env.read_file (push (get_block_dir dir f) h)) no_such_file)
          (λ c. return (sent_info env own_peer_id h f c)) w u info k in
      let (found, same) =
        or_fail-ok (env.read_file (push (get_block_dir dir f) h)) no_such_file w u' content k' in
      let at : u ≡ w = ap (λ y. y.1) (sym r') ∙ same in
      let is : info ≡ sent_info env own_peer_id h f content = cc in
      let (y, u2, k2, r2) =
        then_ok (write_all (to_be_bytes (length (env.to_vec info))))
          (λ _. write_all (env.to_vec info)) u v x r in
      let (sent, _, left) = write_all-ok (to_be_bytes (length (env.to_vec info))) u u2 k2 in
      let (sent', _, left') = write_all-ok (env.to_vec info) u2 v r2 in
      (
        content,
        found,
        sent'
            ∙ ap (λ l. l ++ env.to_vec info) sent
            ∙ append_assoc u.outgoing (to_be_bytes (length (env.to_vec info))) (env.to_vec info)
            ∙ ap (λ y. y.outgoing ++ framed (env.to_vec info)) at
            ∙ ap (λ y. w.outgoing ++ framed (env.to_vec y)) is,
        left' ∙ left ∙ ap (λ y. y.incoming) at,
      )
    where
      write_info : List ℕ → M (Unit {0})
      write_info ser_info = do write_all (to_be_bytes (length ser_info)); write_all ser_info

  -- A sender that reports a correct block has read the two codes and written the whole frame.
  pub sender_side-true :
      (own_peer_id recv_peer_id : PeerId) (h f : String) (dir : FilePath) (i : SendId) (w v : World)
      → sender_side env own_peer_id recv_peer_id h f dir w ≡ (ok (true, i), v)
      → (i ≡ send_id recv_peer_id (f, h))
        × (content : List ℕ) × (env.read_file (push (get_block_dir dir f) h) ≡ some content)
        × (get_elem? w.incoming 1 ≡ some (to_u8 block_is_correct))
        × (v.outgoing
            ≡ (w.outgoing ++ framed (env.to_vec (sent_info env own_peer_id h f content)))
              ++ content)
  unfolding sender_side sender_side_inner
  sender_side-true own_peer_id recv_peer_id h f dir i w v q =
      let id = send_id recv_peer_id (f, h) in
      let q' =
        label_error-ok id (sender_side_inner env own_peer_id recv_peer_id h f dir w) (true, i) v
          q in
      let (x, u, k, r) =
        then_ok (send_peer_block_info env own_peer_id h f dir) (λ _. read_exact 1 >>= answered) w v
          (true, i) q' in
      let (content, found, sent, left) = send_peer_block_info-ok own_peer_id h f dir w u x k in
      let (bytes, u', k', r') = then_ok (read_exact 1) answered u v (true, i) r in
      let (_, same, rest) = read_exact-ok 1 u u' bytes k' in
      let (same_id, content', accepted, found', is_correct, sent') =
        on_answer-true id i dir (read_code env bytes) u' v r' in
      let same_content : content' ≡ content = ground (arith, found, found') in
      (
        same_id,
        content,
        found,
        drop_one w.incoming (to_u8 block_is_correct) (
            ap (λ l. get_elem? (drop 1 l) 0) (sym left)
            ∙ ap (λ l. get_elem? l 0) (sym rest)
            ∙ is_correct),
        sent'
            ∙ ap (λ l. l ++ content')
                (ap (λ y. y.1.outgoing) (sym k') ∙ ((read_exact-Mute 1).mute u).outgoing ∙ sent)
            ∙ ap
                (λ c.
                  (w.outgoing ++ framed (env.to_vec (sent_info env own_peer_id h f content))) ++ c)
                same_content,
      )
    where
      answered : List ℕ → M (Bool × SendId)
      answered ser_answer =
          on_answer env (send_id recv_peer_id (f, h)) dir (read_code env ser_answer)
