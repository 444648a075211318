-- ===== src/Exchange/Agreement.antt =====
-- The sender's run, and both sides of an exchange together.
use dragoonfly.Base.{
  ℕ, suc, ◌+◌, ◌-◌, ◌<◌, ◌≤◌, ◌≡◌, refl, sym, ap, ◌∙◌, subst, String, Bool, true, false, some, List,
  [], ◌∷◌, ◌++◌, length, if◌then◌else◌, arith, append-nil, append_assoc,
}
use dragoonfly.Base.Result.{Result, ok}
use dragoonfly.Paths.{FilePath, push, get_block_dir}
use dragoonfly.Strategy.{PeerId, SendId, send_id}
use dragoonfly.Exchange.Codes.{accept_block_send, to_u8, from_repr, from_repr-to_u8}
use dragoonfly.Exchange.Frame.{to_be_bytes}
use dragoonfly.Exchange.World.{Env, World, Failure, PeerBlockInfo}
use dragoonfly.Exchange.Receiver.{recv_side, max_pbi_size}
use dragoonfly.Exchange.Session.{recorded, recv_side-stores}
use dragoonfly.Exchange.Sender.{
  build_peer_block_info, send_peer_block_info, send_block, on_status, on_answer, sender_side_inner,
  sender_side, label_error,
}
use dragoonfly.Exchange.Runs.{
  Runs, then_Runs, return-Runs, or_fail-Runs, read_exact-Runs, write_all-Runs, close-Runs, verdict,
}

abbrev pub sent_info : Env → PeerId → String → String → List ℕ → PeerBlockInfo
sent_info env own_peer_id block_hash file_hash content = record {
  peer_id_base_58 = env.to_base58 own_peer_id;
  file_hash = file_hash;
  block_hashes = block_hash ∷ [];
  block_sizes = some (length content ∷ []);
}

-- Four writes go through: the length, the info, the block and the close.
module _ (env : Env) (own_peer_id recv_peer_id : PeerId) (block_hash file_hash : String)
    (dir : FilePath) (content : List ℕ) (good : Bool) (k : ℕ)
    (on_disk : env.read_file (push (get_block_dir dir file_hash) block_hash) ≡ some content) where
  abbrev frame : List ℕ
  frame = env.to_vec (sent_info env own_peer_id block_hash file_hash content)

  abbrev id : SendId
  id = send_id recv_peer_id (file_hash, block_hash)

  abbrev codes : List ℕ
  codes = to_u8 accept_block_send ∷ to_u8 (verdict good) ∷ []

  abbrev sent : World → World
  sent w = record w {
    incoming = [];
    outgoing = ((w.outgoing ++ to_be_bytes (length frame)) ++ frame) ++ content;
    writes_left = k;
  }

  status-Runs : (w : World) (b : Bool) → Runs (on_status env id (some (verdict b))) w (b, id) w
  unfolding on_status
  status-Runs w true = return-Runs _ w
  status-Runs w false = return-Runs _ w

  code_status-Runs :
      (w : World) (b : Bool) → Runs (on_status env id (from_repr (to_u8 (verdict b)))) w (b, id) w
  code_status-Runs w b =
      subst (λ c. Runs (on_status env id c) w (b, id) w) (sym (from_repr-to_u8 (verdict b)))
        (status-Runs w b)

  accepted-Runs :
      (w : World)
      → w.incoming ≡ to_u8 (verdict good) ∷ []
      → w.writes_left ≡ suc (suc k)
      → Runs
          (on_answer env id dir (some accept_block_send))
          w
          (good, id)
          (record w { incoming = []; outgoing = w.outgoing ++ content; writes_left = k })
  unfolding on_answer send_block
  accepted-Runs w i l =
      then_Runs _ _ w _ _ tt _
        (then_Runs _ _ w _ _ content tt (or_fail-Runs _ _ content w on_disk)
          (write_all-Runs w content (suc k) l))
        (then_Runs _ _ _ _ _ (to_u8 (verdict good) ∷ []) _
          (read_exact-Runs _ (to_u8 (verdict good) ∷ []) [] 1 refl i)
          (then_Runs _ _ _ _ _ tt _ (close-Runs _ k refl) (code_status-Runs _ good)))

  code_answer-Runs :
      (w : World)
      → w.incoming ≡ to_u8 (verdict good) ∷ []
      → w.writes_left ≡ suc (suc k)
      → Runs
          (on_answer env id dir (from_repr (to_u8 accept_block_send)))
          w
          (good, id)
          (record w { incoming = []; outgoing = w.outgoing ++ content; writes_left = k })
  code_answer-Runs w i l =
      subst
        (λ c.
          Runs (on_answer env id dir c) w (good, id)
            (record w { incoming = []; outgoing = w.outgoing ++ content; writes_left = k }))
        (sym (from_repr-to_u8 accept_block_send)) (accepted-Runs w i l)

  sender_side_inner-Runs :
      (w : World)
      → w.incoming ≡ codes
      → w.writes_left ≡ suc (suc (suc (suc k)))
      → Runs
          (sender_side_inner env own_peer_id recv_peer_id block_hash file_hash dir)
          w
          (good, id)
          (sent w)
  unfolding sender_side_inner send_peer_block_info build_peer_block_info
  sender_side_inner-Runs w i l =
      then_Runs _ _ w _ _ tt _
        (then_Runs _ _ w _ _ (sent_info env own_peer_id block_hash file_hash content) tt
          (then_Runs _ _ w _ _ content _ (or_fail-Runs _ _ content w on_disk) (return-Runs _ w))
          (then_Runs _ _ _ _ _ tt tt (write_all-Runs w _ _ l) (write_all-Runs _ _ _ refl)))
        (then_Runs _ _ _ _ _ (to_u8 accept_block_send ∷ []) _
          (read_exact-Runs _ (to_u8 accept_block_send ∷ []) (to_u8 (verdict good) ∷ []) 1 refl i)
          (code_answer-Runs _ refl refl))

  sender_side_sends :
      (w : World)
      → w.incoming ≡ codes
      → w.writes_left ≡ suc (suc (suc (suc k)))
      → sender_side env own_peer_id recv_peer_id block_hash file_hash dir w
        ≡ (ok (good, id), sent w)
  unfolding sender_side
  sender_side_sends w i l = ap (label_error id) (sender_side_inner-Runs w i l).runs

-- What each side has done when an exchange is over: the sender's answer, the receiver's answer codes and
-- its disk.
pub record Agrees (good : Bool) (id : SendId) (stored : FilePath × List ℕ) (w : World)
    (sender : Result SendId (Bool × SendId) × World) (receiver : Result Failure (Unit {0}) × World)
    : Type 0 where
  pub answer : sender.0 ≡ ok (good, id)
  pub success : receiver.0 ≡ ok tt
  pub replies : receiver.1.outgoing ≡ to_u8 accept_block_send ∷ to_u8 (verdict good) ∷ []
  pub disk : receiver.1.disk ≡ (if good then stored ∷ w.disk else w.disk)
  pub spent : receiver.1.available_storage + length stored.1 ≡ w.available_storage

module _ (s r : Env) (own_peer_id recv_peer_id : PeerId) (block_hash file_hash : String)
    (sender_dir dir : FilePath) (content : List ℕ) (good : Bool) (block : r.Block)
    (powers : r.Powers) (k n : ℕ) (u w : World) where
  abbrev pub info : PeerBlockInfo
  info = sent_info s own_peer_id block_hash file_hash content

  abbrev pub replies : List ℕ
  replies = to_u8 accept_block_send ∷ to_u8 (verdict good) ∷ []

  abbrev pub sender_end : Result SendId (Bool × SendId) × World
  sender_end =
      sender_side s own_peer_id recv_peer_id block_hash file_hash sender_dir
        (record u { incoming = replies; outgoing = []; writes_left = suc (suc (suc (suc k))) })

  abbrev pub receiver_end : Result Failure (Unit {0}) × World
  receiver_end = recv_side r dir (record w {
    incoming = sender_end.1.outgoing;
    outgoing = [];
    writes_left = suc (suc (suc n));
  })

  -- Both sides of an exchange on streams that hold, with an info of legal length that the receiver
  -- reads back as it was sent, and a receiver that has room for the block, can read and verify it,
  -- whose disk works and which keeps its list: on what the sender writes the receiver answers exactly
  -- the codes that the sender has read, the sender reports the receiver's verdict on the block, and
  -- the block's bytes are stored under the receiver's directory exactly if it is reported correct.
  -- Either way the receiver's storage has gone down by the size of the block.
  pub exchange-Agrees :
      s.read_file (push (get_block_dir sender_dir file_hash) block_hash) ≡ some content
      → r.from_slice (s.to_vec info) ≡ some info
      → length (s.to_vec info) ≤ max_pbi_size
      → length content < w.available_storage
      → r.deserialize content ≡ some block
      → r.powers ≡ some powers
      → r.verify block powers ≡ some good
      → r.create_dir_all (get_block_dir dir file_hash) ≡ true
      → r.write_file (push (get_block_dir dir file_hash) block_hash) content ≡ true
      → r.channel_open ≡ true
      → Agrees good
          (send_id recv_peer_id (file_hash, block_hash))
          (push (get_block_dir dir file_hash) block_hash, content)
          w
          sender_end
          receiver_end
  exchange-Agrees on_disk law small room parsed has_powers checked makes_dir writes open_channel =
      record {
        answer = ap (λ x. x.0) runs_s;
        success = ap (λ x. x.0) runs_r;
        replies = ap (λ x. x.1.outgoing) runs_r;
        disk = ap (λ x. x.1.disk) runs_r;
        spent =
            omega
              (arith, ap (λ (x : Result Failure (Unit {0}) × World). x.1.available_storage) runs_r);
      }
    where
      ser_info : List ℕ
      ser_info = s.to_vec info

      start_s : World
      start_s = record u {
        incoming = replies;
        outgoing = [];
        writes_left = suc (suc (suc (suc k)));
      }

      start_r : World
      start_r = record w {
        incoming = sender_end.1.outgoing;
        outgoing = [];
        writes_left = suc (suc (suc n));
      }

      runs_s : sender_end ≡ (
        ok (good, send_id recv_peer_id (file_hash, block_hash)),
        sent s own_peer_id recv_peer_id block_hash file_hash sender_dir content good k on_disk
            start_s,
      )
      runs_s =
          sender_side_sends s own_peer_id recv_peer_id block_hash file_hash sender_dir content good
            k on_disk start_s refl refl

      wrote : sender_end.1.outgoing ≡ to_be_bytes (length ser_info) ++ (ser_info ++ (content ++ []))
      wrote =
          ap (λ x. x.1.outgoing) runs_s
          ∙ append_assoc (to_be_bytes (length ser_info)) ser_info content
          ∙ ap (λ c. to_be_bytes (length ser_info) ++ (ser_info ++ c)) (sym (append-nil content))

      runs_r : receiver_end ≡ (
        ok tt,
        recorded r dir info content block_hash block powers good n refl refl parsed has_powers
            checked makes_dir writes start_r
            (w.available_storage - length content),
      )
      runs_r =
          recv_side-stores r dir info content block_hash block powers good n refl refl parsed
            has_powers checked makes_dir writes start_r ser_info open_channel law small wrote refl
            room
