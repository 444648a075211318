-- ===== src/Exchange/Tests.antt =====
-- An exchange of one block of three bytes.
use dragoonfly.Base.{ℕ, ◌≡◌, refl, false, true, some, List, [], ◌∷◌, ◌++◌, arith}
use dragoonfly.Base.Result.{ok, err}
use dragoonfly.Paths.{FilePath, push, get_block_dir}
use dragoonfly.Strategy.{send_id}
use dragoonfly.Exchange.Codes.{to_u8, from_repr}
use dragoonfly.Exchange.Frame.{to_be_bytes, from_be_bytes}
use dragoonfly.Exchange.World.{
  Env, Failure, World, PeerBlockInfo, ◌>>=◌, read_exact, write_all, close,
}
use dragoonfly.Exchange.Receiver.{recv_side}
use dragoonfly.Exchange.Sender.{sender_side, sender_side_inner}
use dragoonfly.Exchange.Absolute.{recv_side-absolute}
use dragoonfly.Exchange.Leak.{recv_side-leaks}
use dragoonfly.Exchange.Delivered.{reported-stored}
use dragoonfly.Exchange.Accounting.{Accounted, recv_side-Accounted}
use dragoonfly.Exchange.Session.{recorded, recv_side-stores}
use dragoonfly.Exchange.Agreement.{Agrees, sender_end, receiver_end, exchange-Agrees}

abbrev pub three_bytes : List ℕ
three_bytes = 5 ∷ 6 ∷ 7 ∷ []

abbrev block_info : PeerBlockInfo
block_info = record {
  peer_id_base_58 = "peer";
  file_hash = "f";
  block_hashes = "a" ∷ [];
  block_sizes = some (3 ∷ []);
}

-- Other crates that know one info and take every block for correct.
abbrev pub one_info : Env
one_info = record {
  Block = List ℕ;
  Powers = Unit {0};
  to_base58 = λ p. "peer";
  to_vec = λ i. 9 ∷ [];
  from_slice = λ bytes. some block_info;
  deserialize = λ bytes. some bytes;
  powers = some tt;
  verify = λ b p. some true;
  read_file = λ path. some three_bytes;
  create_dir_all = λ path. true;
  write_file = λ path bytes. true;
  channel_open = true;
}

abbrev pub root : FilePath
root = "blocks" ∷ []

abbrev pub ten_free : World
ten_free = record {
  incoming = to_be_bytes 1 ++ (9 ∷ [] ++ (three_bytes ++ []));
  outgoing = [];
  writes_left = 3;
  available_storage = 10;
  disk = [];
  send_file_infos = [];
}

-- One block whose name is an absolute path.
abbrev absolute_info : PeerBlockInfo
absolute_info = record block_info { block_hashes = "/a" ∷ [] }

recv_side-absolute_example :
    (recv_side (record one_info { from_slice = λ bytes. some absolute_info }) root ten_free).1.disk
    ≡ ("/a" ∷ [], three_bytes) ∷ []
recv_side-absolute_example =
    recv_side-absolute (record one_info { from_slice = λ bytes. some absolute_info }) root
      absolute_info three_bytes "/a" three_bytes tt 0 ten_free (9 ∷ []) refl refl refl refl refl
      refl refl refl refl refl (omega arith) refl refl (omega arith)

recv_side-Accounted_example :
    Accounted false ten_free (recv_side (record one_info { channel_open = false }) root ten_free)
recv_side-Accounted_example =
    recv_side-Accounted (record one_info { channel_open = false }) root ten_free (omega arith)

recv_side-stores_example : recv_side one_info root ten_free ≡ (
  ok tt,
  recorded one_info root block_info three_bytes "a" three_bytes tt true 0 refl refl refl refl refl
      refl refl ten_free 7,
)
recv_side-stores_example =
    recv_side-stores one_info root block_info three_bytes "a" three_bytes tt true 0 refl refl refl
      refl refl refl refl ten_free (9 ∷ []) refl refl (omega arith) refl refl (omega arith)

exchange-Agrees_example :
    Agrees true
      (send_id 2 ("f", "a"))
      (push (get_block_dir root "f") "a", three_bytes)
      ten_free
      (sender_end one_info one_info 1 2 "a" "f" root root three_bytes true three_bytes tt 0 0
        ten_free ten_free)
      (receiver_end one_info one_info 1 2 "a" "f" root root three_bytes true three_bytes tt 0 0
        ten_free ten_free)
exchange-Agrees_example =
    exchange-Agrees one_info one_info 1 2 "a" "f" root root three_bytes true three_bytes tt 0 0
      ten_free ten_free refl refl (omega arith) (omega arith) refl refl refl refl refl refl

-- A sender that reads the two codes of a receiver that takes the block.
abbrev pub asking : World
asking = record ten_free { incoming = 0 ∷ 2 ∷ []; writes_left = 4 }

pub replied : asking.incoming ++ [] ≡ (recv_side one_info root ten_free).1.outgoing
unfolding recv_side to_be_bytes from_be_bytes ◌>>=◌ read_exact write_all close to_u8
replied = refl

sent : ten_free.incoming ++ [] ≡ (sender_side one_info 1 2 "a" "f" root asking).1.outgoing
unfolding sender_side sender_side_inner from_repr to_be_bytes ◌>>=◌ write_all read_exact close
sent = refl

reports : (sender_side one_info 1 2 "a" "f" root asking).0 ≡ ok (true, send_id 2 ("f", "a"))
unfolding sender_side sender_side_inner from_repr ◌>>=◌ write_all read_exact close
reports = refl

reported-stored_example :
    (send_id 2 ("f", "a") ≡ send_id 2 ("f", "a"))
    × (content : List ℕ) × (one_info.read_file (push (get_block_dir root "f") "a") ≡ some content)
    × ((recv_side one_info root ten_free).1.disk
        ≡ (push (get_block_dir root "f") "a", content) ∷ [])
reported-stored_example =
    reported-stored one_info one_info 1 2 "a" "f" root root [] [] asking ten_free
      (send_id 2 ("f", "a")) (λ bytes h. cc) (λ bytes h. omega arith) refl refl sent replied reports

-- The connection breaks at the close.
recv_side-leaks_example :
    let w = record ten_free { writes_left = 2 } in
    (e : Failure) × ((recv_side one_info root w).0 ≡ err e)
    × ((recv_side one_info root w).1.disk ≡ (push (get_block_dir root "f") "a", three_bytes) ∷ [])
    × ((recv_side one_info root w).1.available_storage ≡ 10)
    × ((recv_side one_info root w).1.send_file_infos ≡ [])
recv_side-leaks_example =
    recv_side-leaks one_info root block_info three_bytes "a" three_bytes tt true refl refl refl refl
      refl refl refl (record ten_free { writes_left = 2 }) (9 ∷ []) refl refl (omega arith) refl
      refl (omega arith) (omega arith)
