-- ===== src/Storage/Tests.antt =====
-- A list file of two blocks, and a ledger with one running exchange.
use dragoonfly.Base.{
  ℕ, map, ◌+◌, ◌≤◌, ◌≡◌, refl, ◌⊎◌, true, Option, none, some, List, [], ◌∷◌, arith,
}
use dragoonfly.Exchange.World.{SendFileInfo}
use dragoonfly.Storage.SendFile.{
  Format, work, add_new_block_info_to_send_file, get_current_available_storage, started,
}
use dragoonfly.Storage.Restart.{nothing, fresh, reopened}
use dragoonfly.Storage.Served.{opened, idle, served, Serves-restart}
use dragoonfly.Exchange.Receiver.{recv_side}
use dragoonfly.Exchange.Tests.{one_info, root, ten_free as free}
use dragoonfly.Storage.Handler
use dragoonfly.Storage.Ledger.{Ledger, change_available_send_storage, get_available_storage}
use dragoonfly.Exchange.World.{World, ◌>>=◌, read_exact, write_all, close}
use dragoonfly.Exchange.Frame.{to_be_bytes, from_be_bytes}
use dragoonfly.Storage.Race
use dragoonfly.Storage.Race.{Shared, Reach-lost_update}
use dragoonfly.Storage.Limit.{change_exceeds}

-- A line is the total that it shows, if it shows one.
abbrev pub plain : Format
plain = record {
  Line = Option ℕ;
  Time = Unit {0};
  total_line = λ n. some n;
  block_line = λ now info. none;
  calls = λ now. work;
  read_total = λ line. line;
  read_total-total_line = λ n. refl;
}

abbrev pub of_size : ℕ → SendFileInfo
of_size n = record {
  file_dir = [];
  size_of_block = n;
  file_hash = "f";
  block_hash = "a";
  peer_id_base_58 = "peer";
}

abbrev pub two_infos : List (Unit {0} × SendFileInfo)
two_infos = (tt, of_size 3) ∷ (tt, of_size 4) ∷ []

abbrev three_set_aside : Ledger
three_set_aside = record { available = 7; used = 0; reserved = 3 }

change_exceeds_example :
    (k : Shared) × Race.Reach
      (record { ledger = (change_available_send_storage 8 three_set_aside).1; choosing = [] })
      k
    × (get_available_storage k.ledger + k.ledger.used ≡ 8 + 3)
change_exceeds_example = change_exceeds 8 three_set_aside [] (omega arith) (omega arith)

abbrev both_free : Shared
both_free = record { ledger = record { available = 10; used = 0; reserved = 0 }; choosing = [] }

abbrev ten_world : World
ten_world = record {
  incoming = [];
  outgoing = [];
  writes_left = 0;
  available_storage = 10;
  disk = [];
  send_file_infos = [];
}

Reach-lost_update_example :
    (t : Shared) × Race.Reach both_free t
    × (t.choosing ≡ [])
    × (t.ledger.reserved ≡ 0 + 6 + 7)
    × (t.ledger.available + t.ledger.reserved ≡ 10 + 0 + 6)
Reach-lost_update_example = Reach-lost_update both_free 6 7 (omega arith) (omega arith)

abbrev after_one : World
after_one = (recv_side one_info root (opened free.incoming 3 free)).1

abbrev listed : List (Unit {0} × SendFileInfo)
listed =
    (
      tt,
      record {
        file_dir = root;
        size_of_block = 3;
        file_hash = "f";
        block_hash = "a";
        peer_id_base_58 = "peer";
      },
    )
    ∷ []

wrote_down : map (λ x. x.1) listed ≡ after_one.send_file_infos
unfolding recv_side ◌>>=◌ read_exact to_be_bytes from_be_bytes write_all close
wrote_down = refl

Serves-restart_example :
    let t = add_new_block_info_to_send_file plain (fresh plain) listed in
    (get_current_available_storage plain 10 (nothing plain) ≡ started 10 (fresh plain))
    × (get_current_available_storage plain 10 (reopened plain t)
        ≡ started after_one.available_storage t)
    × (after_one.available_storage + t.total ≡ 10)
Serves-restart_example =
    Serves-restart plain root free after_one listed (omega arith) refl
      (served one_info free.incoming 3 refl idle) wrote_down (refl, tt)

abbrev nine_left : Handler.Handler
nine_left = record Handler.started { permits = 9; running = 1 }

one_runs : Handler.Reach Handler.started nine_left
one_runs =
    Handler.next (Handler.next Handler.here (Handler.acquires refl refl (omega arith)))
      (Handler.spawns refl)

Reach-at_most_ten_example :
    (nine_left.running ≤ 10)
    × ((nine_left.returned ≡ true)
        ⊎ ((nine_left.running ≡ 10)
            ⊎ ((i : Handler.Handler) × Handler.Reach nine_left i × (i.running ≡ 2))))
Reach-at_most_ten_example = Handler.Reach-at_most_ten one_runs
