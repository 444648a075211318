-- ===== src/Lib.antt =====
-- Verification of dragoonfly, a provable coded peer-to-peer node: blocks of encoded files are sent from
-- node to node, and each node keeps its received blocks within a storage limit.
--
-- A node is one task that owns the network state and handles commands one at a time
-- (src/dragoon_swarm.rs), an HTTP server that turns requests into commands (src/main.rs,
-- src/commands.rs), and one task for each send. SendBlockList picks a peer for each block by a strategy
-- and then issues SendBlockTo commands, each of which runs the sender's side of an exchange; the other node
-- runs the receiver's side, sets storage aside, checks and stores the block, and tells a further task to
-- list it.
--
-- Which file models which part:
--   Base: names of the libraries, equality as an interface, lists, sets, results.
--   Strategy: src/send_strategy.rs and src/send_strategy_impl. Laws holds what a strategy promises to
--     get_send_stream; RoundRobin and Random fill it. The generator of rand is a parameter, SliceRandom.
--   SendList: the branch SendBlockList of handle_command and send_block_list of src/dragoon_swarm.rs.
--     Optimistic is optimistic_loop; Recovery is handle_rejected_block, the recuperation and the function as
--     a whole. The commands that go out and the answers that come in are lists; Schedule takes the answers
--     from the commands, in any order.
--   Exchange: src/send_block_to/protocol.rs. Codes is ExchangeCode, Frame the length before an info,
--     Sender and Receiver the two sides, each a computation on a World: the bytes still to come, the bytes
--     written, how many more calls the connection carries, the storage counter, the disk, and the messages to
--     the task that lists blocks. Env is a parameter with what the crates serde_json, ark_serialize, komodo
--     and the file system answer. Mute, Confirmed, Stored, Acknowledged and Reported take the runs of the two
--     sides apart, and Delivered puts them together on streams that may break; Breaks
--     and Leak are a connection that breaks after the block is stored.
--   Storage: src/send_block_to.rs (add_send_file_inner, add_new_block_info_to_send_file) and
--     get_current_available_storage of src/dragoon_swarm.rs are SendFile; Ledger is the two counters with
--     the branches GetAvailableStorage and ChangeAvailableSendStorage. Race is the running exchanges, which
--     load, store and add to the counters one atomic operation at a time. Format is a parameter: how lines
--     are formatted and read, and which calls on the list files fail. Handler is SendBlockHandler::run;
--     Served is a node that serves exchanges one at a time, keeps its list and is started again.
--   Network: DragoonNetwork of src/dragoon_swarm.rs. Defs is its state, New its start, Command handle_command,
--     Calls the methods it answers with, Event handle_event, Files the commands on files, and Steps the running node:
--     commands, events and the ends of tasks in any order. Known is about the peers that the node knows. SendBlockTo is the set of running sends alone.
--     Outside is a parameter of each step, with what libp2p, komodo and the file system answer to it.
--   Cluster: send_block_list of src/dragoon_swarm.rs with the exchanges it starts, one node and its peers, each
--     with its disk. A step is a whole exchange, whose streams may break anywhere; exchanges may overlap, as
--     each notes only what it has written itself.
--   Commands: src/commands.rs and the router of src/main.rs. Reading a peer id is a parameter.
--   Download: get_file of src/dragoon_swarm.rs. Loop is download_first_k_blocks, as a loop over what it
--     receives until its time-out; GetFile is what stands around it, with the answers to its commands as
--     data; Verified follows the blocks from their answers to the file. The crates ark_serialize, komodo and
--     bs58 are a parameter, Codec.
--   Serialize: src/to_serialize.rs and SerNetworkInfo of src/commands.rs, into the values of serde_json.
--   Start: what src/main.rs computes before it makes the node, and what run of src/dragoon_swarm.rs does before
--     its loop.
--   Errors and Paths: src/error.rs with its texts, and get_file_dir and get_block_dir of src/dragoon_swarm.rs.
--
-- Peer ids are numbers, since only their equality and order matter. A usize is a native number; where the
-- source can wrap (fetch_add) the model takes the remainder modulo 2 ^ 64. No function has fuel: loops
-- recurse on the list of what they read. A loop that waits for a message that cannot come is the outcome
-- `waiting` of SendList.Recovery. The time-out of the first loop may fall anywhere: the list of the first
-- answers ends there.
--
-- Not modelled: logging, the reading of the command line, the setup of the swarm, and the Nu scripts. The
-- atomic operations on the storage counter in choose_response_to_send_request, a load and a store, follow one
-- another in Exchange, which runs one exchange; Storage.Race takes them apart. A step of Network is a whole
-- command or event: the swarm and the file system answer it before the next one starts, as the node is one
-- task.
pub mod Base
pub mod Strategy
pub mod Errors
pub mod Paths
pub mod Exchange
pub mod Storage
pub mod Network
pub mod Cluster
pub mod Download
pub mod SendList
pub mod Commands
pub mod Serialize
pub mod Start
