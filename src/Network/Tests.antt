-- ===== src/Network/Tests.antt =====
-- One block to one peer, and a node whose outside does what it is asked.
use dragoonfly.Base.{
  ◌+◌, ◌*◌, ◌≤◌, ◌≡◌, ◌≢◌, refl, Bool, true, false, ◌&&◌, String, Option, none, some, List, [], ◌∷◌,
  arith, map, pair_eq, nat_eq, string_eq, ℕ, if◌then◌else◌,
}
use dragoonfly.Base.Sets.{contains, insert}
use dragoonfly.Base.Result.{ok, err}
use dragoonfly.Errors.{send_block_to_already_started}
use dragoonfly.Paths.{push, get_block_dir}
use dragoonfly.Strategy.{send_id}
use dragoonfly.SendList.Vectors.{count}
use dragoonfly.Commands.Defs
use dragoonfly.Commands.Defs.{EncodingMethod}
use dragoonfly.Network.SendBlockTo.{
  Entry, Sends, idle, request, Reach, here, next, requested, weight, reply, send_block_to_command,
  send_block_to, after_report, drop_first, Reach-at_most_one, open_stream-stuck,
}
use dragoonfly.Network.Defs.{
  Node, BlockResponse, block, drop_sender, dial_multiple_task, get_providers_task, wrote,
  created_dir, removed_dir, dumped_blocks, requested_block, responded_block, hashes,
}
use dragoonfly.Network.Known.Run.{was_heard, Reach-knows_heard}
use dragoonfly.Network.Outside.{Outside}
use dragoonfly.Network.Files.{encode_file, build_blocks, file_hash_of}
use dragoonfly.Network.Files.Encode.{IsBuilt, encode_file-ok}
use dragoonfly.Network.Files.Hash.{file_hash_of-collides}
use dragoonfly.Network.New.{new, create_block_dir, fresh_node}
use dragoonfly.Network.Command.{handle_command}
use dragoonfly.Network.Event
use dragoonfly.Network.Event.{
  handle_event, block_request, block_response, outbound_query_progressed,
}
use dragoonfly.Network.Steps
use dragoonfly.Network.Steps.{receive, queued, provider_stream, Ends}
use dragoonfly.Network.Balance.{in_tables, firsts}
use dragoonfly.Network.Balance.Run.{Reach-senders}
use dragoonfly.Network.Dials.{Unconnected, Unconnected-pending}
use dragoonfly.Network.Dials
use dragoonfly.Network.Providers.{get_providers-union, report_all, last_result, flat}
use dragoonfly.Network.Fetch.{get_block_from-bytes, block_response-absolute}

abbrev one_sent : Sends
one_sent = record { pending = (1, "a") ∷ []; running = (1, "a") ∷ []; removals = [] }

abbrev one_stuck : Sends
one_stuck = record { pending = (1, "a") ∷ []; running = []; removals = [] }

one_request : request idle 1 "f" "a" ≡ one_sent
unfolding request send_block_to_command contains insert
one_request = refl

Reach-one_sent : Reach idle one_sent
unfolding request send_block_to_command contains insert
Reach-one_sent = next here (requested 1 "f" "a")

Reach-at_most_one_example :
    count {A = Entry} (1, "a") one_sent.running + count {A = Entry} (1, "a") one_sent.removals
    ≤ weight (contains {A = Entry} one_sent.pending (1, "a"))
Reach-at_most_one_example = Reach-at_most_one (1, "a") Reach-one_sent

stays_stuck :
    Reach
      (after_report
        (record one_sent { running = drop_first (1, "a") one_sent.running })
        (send_block_to 1 "a" none))
      one_stuck
unfolding send_block_to
stays_stuck = here

open_stream-stuck_example :
    send_block_to_command 1 "g" "a" one_stuck.pending
    ≡ (one_stuck.pending, reply (err (send_block_to_already_started (send_id 1 ("g", "a")))))
open_stream-stuck_example =
    open_stream-stuck one_sent one_stuck 1 "g" "a" Reach-one_sent (omega arith) stays_stuck

-- Everything succeeds, and every file holds the byte 17.
abbrev pub calm : Outside
calm = record {
  parse = λ a. some [];
  to_string = λ a. "a";
  to_base58 = λ p. "peer";
  show_number = λ n. "0";
  listen_on = λ a. ok 0;
  listener_number = λ n. n;
  remove_listener = λ n. true;
  listeners = [];
  network_info = record {
    peers = 0;
    pending = 0;
    connections = 0;
    established = 0;
    pending_incoming = 0;
    pending_outgoing = 0;
    established_incoming = 0;
    established_outgoing = 0;
  };
  connected_peers = [];
  dial = λ a. none;
  start_providing = λ k. some 0;
  get_providers = λ k. 0;
  bootstrap = none;
  send_request = 0;
  query_mut = λ n. true;
  send_response = true;
  unbounded_channel = 9;
  resolve = λ s. s ∷ [];
  metadata = λ p. true;
  show_path = λ p. "path";
  parent = λ p. none;
  read_dir = λ p. some [];
  read_file = λ p. some (17 ∷ []);
  try_exists = λ p. some true;
  create_dir_all = λ p. true;
  remove_dir_all = λ p. true;
  create_file = λ p. true;
  write_all = λ p bytes. true;
  sha256 = λ bytes. bytes;
  Shard = List ℕ;
  Block = List ℕ;
  Matrix = Unit;
  Powers = Unit;
  Proof = Unit;
  shard = λ b. b;
  read_blocks = λ hs d. some [];
  decode = λ ss. some [];
  vandermonde = λ ps k. some tt;
  random = λ k n. tt;
  encode = λ bytes m. some (bytes ∷ []);
  powers = some tt;
  prove = λ bytes ps k. some tt;
  build = λ ss p. ss;
  serialize = λ b. b;
  dump_blocks = λ bs d. some "dumped";
}

abbrev start : Node
start = fresh_node 1 "peer" 10 [] ("~/.share/dragoonfly/peer/files" ∷ [])

starts : new calm 1 none 10 false ≡ some start
unfolding new create_block_dir
starts = refl

abbrev informed : Node
informed = handle_command calm (receive 7 start) 7 Defs.node_info

Reach-senders_example :
    in_tables 7 informed
      + count 7 (firsts informed.tasks)
      + count 7 (queued informed)
      + count 7 (firsts informed.answered)
      + count 7 informed.dropped
    ≡ count 7 informed.senders
Reach-senders_example =
    Reach-senders 7 calm 1 none 10 false start informed starts
      (Steps.Reach.next Steps.Reach.here (Steps.commanded calm 7 Defs.node_info))

abbrev dialling_a : Node
dialling_a = record start { pending_dial = ("a", 5) ∷ [] }

abbrev later : Node
later = handle_event calm dialling_a Event.logged

Unconnected-pending_example :
    (handle_command calm later 6 (Defs.dial_single "a") ≡ drop_sender 6 later)
    × ¬ Ends later (dial_multiple_task 5) none
Unconnected-pending_example =
    Unconnected-pending "a" 5 dialling_a later calm 6 none refl
      (Dials.Unconnected.next Dials.Unconnected.here (Steps.reported calm Event.logged) (λ e. e))

abbrev two_sets : List (List ℕ)
two_sets = (1 ∷ 2 ∷ []) ∷ (2 ∷ 3 ∷ []) ∷ []

get_providers-union_example :
    let asked = handle_command calm start 7 (Defs.get_providers "f") in
    let told = report_all calm 0 two_sets asked in
    (messages : List (Option (List ℕ))) × ((handle_event calm told
        (outbound_query_progressed 0 (last_result true))).tasks
      ≡ (7, get_providers_task messages) ∷ start.tasks)
    × (count 2 (provider_stream [] messages) ≡ weight (contains (flat two_sets) 2))
get_providers-union_example = get_providers-union calm start 7 "f" two_sets true 2 refl

get_block_from-bytes_example :
    let asked = handle_command calm start 7 (Defs.get_block_from 2 "f" "a" true) in
    (b : BlockResponse) × ((handle_event calm start (block_request "c" "f" "a")).actions
      ≡ responded_block b ∷ start.actions)
    × (b.block_data ≡ 17 ∷ [])
    × ((handle_event calm asked (block_response 0 b)).answered
        ≡ (7, ok (block (if true then none else some b))) ∷ start.answered)
    × ((handle_event calm asked (block_response 0 b)).actions ≡ (
        if true
        then wrote (push (get_block_dir start.file_dir "f") "a") (17 ∷ [])
          ∷ created_dir (get_block_dir start.file_dir "f")
          ∷ requested_block 2 "f" "a"
          ∷ start.actions
        else requested_block 2 "f" "a" ∷ start.actions))
get_block_from-bytes_example =
    get_block_from-bytes calm calm calm start start 7 2 "c" "f" "a" true (17 ∷ []) refl refl refl
      refl

abbrev elsewhere : BlockResponse
elsewhere = record { file_hash = "f"; block_hash = "/etc/passwd"; block_data = 17 ∷ [] }

block_response-absolute_example :
    (handle_event calm
      (handle_command calm start 7 (Defs.get_block_from 2 "f" "a" true))
      (block_response 0 elsewhere)).actions
    ≡ wrote ("/etc/passwd" ∷ []) (17 ∷ [])
      ∷ created_dir (get_block_dir start.file_dir "f")
      ∷ requested_block 2 "f" "a"
      ∷ start.actions
block_response-absolute_example =
    block_response-absolute calm calm start 7 2 "f" "a" elsewhere refl refl refl

file_hash_of-collides_example :
    (file_hash_of (1 ∷ (16 * 2 + 3) ∷ []) ≡ file_hash_of ((16 * 1 + 2) ∷ 3 ∷ []))
    × (1 ∷ (16 * 2 + 3) ∷ [] ≢ (16 * 1 + 2) ∷ 3 ∷ [])
file_hash_of-collides_example =
    file_hash_of-collides 1 2 3 [] (omega arith) (omega arith) (omega arith) (omega arith)
      (omega arith)

abbrev d_11 : List String
d_11 = get_block_dir ("files" ∷ []) "11"

encoded :
    (encode_file calm ("files" ∷ []) ("in" ∷ []) true EncodingMethod.vandermonde 2 3).0
    ≡ ok (hashes "11" "dumped")
unfolding encode_file build_blocks file_hash_of
encoded = refl

encode_file-ok_example :
    (blocks : List (List ℕ)) × (dir_exists : Bool) × IsBuilt calm
      ("in" ∷ [])
      EncodingMethod.vandermonde
      2
      3
      "11"
      blocks
    × (calm.try_exists d_11 ≡ some dir_exists)
    × (calm.dump_blocks blocks d_11 ≡ some "dumped")
    × ((encode_file calm ("files" ∷ []) ("in" ∷ []) true EncodingMethod.vandermonde 2 3).1
        ≡ dumped_blocks d_11 (map (λ b. b) blocks)
          ∷ created_dir d_11
          ∷ (if dir_exists && true then removed_dir d_11 ∷ [] else []))
encode_file-ok_example =
    encode_file-ok calm ("files" ∷ []) ("in" ∷ []) true EncodingMethod.vandermonde 2 3 "11" "dumped"
      encoded

abbrev identified : Node
identified = handle_event calm start (Event.identify_received 2 ([] ∷ []))

abbrev one_heard : Steps.Reach start identified
one_heard =
    Steps.Reach.next Steps.Reach.here (Steps.reported calm (Event.identify_received 2 ([] ∷ [])))

Reach-knows_heard_example : contains identified.known_peer_id 2 ≡ was_heard one_heard 2
Reach-knows_heard_example =
    Reach-knows_heard calm 1 none 10 false start identified starts one_heard 2
