-- ===== src/Network/Balance/Commands.antt =====
-- A command's sender goes to one place.
use dragoonfly.Base.{
  ℕ, Bool-cases, inl, inr, String, Option-cases, arith, nat_eq, string_eq, pair_eq,
}
use dragoonfly.Base.Sets.{contains}
use dragoonfly.Base.Result.{Result-cases}
use dragoonfly.Commands.Defs
use dragoonfly.Commands.Defs.{DragoonCommand}
use dragoonfly.Network.SendBlockTo.{send_block_to_command}
use dragoonfly.Network.Table.{lookup}
use dragoonfly.Network.Defs.{
  Channel, p2p, other_protocol, act, Node, requested_block, requested_info,
}
use dragoonfly.Network.Outside.{Outside}
use dragoonfly.Network.Command.{handle_command}
use dragoonfly.Network.Calls.{listen_on, stop_listener, add_address, last}
use dragoonfly.Network.Steps.{receive}
use dragoonfly.Network.Balance.{
  Balanced, await_start-Takes, await_info-Takes, await_block-Takes, await_providers-Takes,
  dial_one-Takes, dial_each-held,
}

listen-Balanced :
    (x : Channel) (w : Outside) (n : Node) (c : Channel) (m : String)
    → Balanced x n
    → Balanced x (handle_command w (receive c n) c (Defs.listen m))
unfolding handle_command listen_on
listen-Balanced x w n c m b = elim (Option-cases (w.parse m)) [
  | inl q ↦ ground (arith, q)
  | inr (addr, q) ↦ elim (Result-cases (w.listen_on addr)) [
    | inl (l, r) ↦ ground (arith, q, r)
    | inr (te, r) ↦ ground (arith, q, r)
  ]
]

remove_listener-Balanced :
    (x : Channel) (w : Outside) (n : Node) (c : Channel) (id : ℕ)
    → Balanced x n
    → Balanced x (handle_command w (receive c n) c (Defs.remove_listener id))
unfolding handle_command stop_listener
remove_listener-Balanced x w n c id b = elim (Option-cases (lookup id n.listeners)) [
  | inl q ↦ ground (arith, q)
  | inr (l, q) ↦ ground (arith, q)
]

add_peer-Balanced :
    (x : Channel) (w : Outside) (n : Node) (c : Channel) (m : String)
    → Balanced x n
    → Balanced x (handle_command w (receive c n) c (Defs.add_peer m))
unfolding handle_command add_address
add_peer-Balanced x w n c m b = elim (Option-cases (w.parse m)) [
  | inl q ↦ ground (arith, q)
  | inr (addr, q) ↦ elim (Option-cases (last addr)) [
    | inl r ↦ ground (arith, q, r)
    | inr (p2p p, r) ↦ ground (arith, q, r)
    | inr (other_protocol p, r) ↦ ground (arith, q, r)
  ]
]

send_block_to-Balanced :
    (x : Channel) (w : Outside) (n : Node) (c : Channel) (p : ℕ) (f h : String)
    → Balanced x n
    → Balanced x (handle_command w (receive c n) c (Defs.send_block_to p f h))
unfolding handle_command send_block_to_command
send_block_to-Balanced x w n c p f h b =
    elim (Bool-cases (contains n.pending_send_block_to (p, h))) [
      | inl q ↦ ground (arith, q)
      | inr q ↦ ground (arith, q)
    ]

start_provide-Balanced :
    (x : Channel) (w : Outside) (n : Node) (c : Channel) (key : String)
    → Balanced x n
    → Balanced x (handle_command w (receive c n) c (Defs.start_provide key))
unfolding handle_command
start_provide-Balanced x w n c key b = elim (Option-cases (w.start_providing key)) [
  | inl q ↦ ground (arith, q)
  | inr (id, q) ↦ ground (arith, q, await_start-Takes x id c (receive c n))
]

pub handle_command-Balanced :
    (x : Channel) (w : Outside) (n : Node) (c : Channel) (cmd : DragoonCommand)
    → Balanced x n
    → Balanced x (handle_command w (receive c n) c cmd)
unfolding handle_command
handle_command-Balanced x w n c (Defs.add_peer m) b = add_peer-Balanced x w n c m b
handle_command-Balanced x w n c Defs.bootstrap b = omega (arith, b)
handle_command-Balanced x w n c (Defs.change_available_send_storage k) b = ground arith
handle_command-Balanced x w n c (Defs.decode_blocks d hs o) b = omega (arith, b)
handle_command-Balanced x w n c (Defs.dial_multiple l) b =
    omega (arith, b, dial_each-held x w.unbounded_channel l (receive c n))
handle_command-Balanced x w n c (Defs.dial_single m) b =
    omega (arith, b, dial_one-Takes x w (receive c n) c m)
handle_command-Balanced x w n c (Defs.encode_file f r e k m) b = omega (arith, b)
handle_command-Balanced x w n c Defs.get_available_storage b = omega (arith, b)
handle_command-Balanced x w n c (Defs.get_block_dir f) b = omega (arith, b)
handle_command-Balanced x w n c (Defs.get_block_from p f h s) b =
    omega
      (arith, b, await_block-Takes x w.send_request s c (act (requested_block p f h) (receive c n)))
handle_command-Balanced x w n c (Defs.get_blocks_info_from p f) b =
    omega (arith, b, await_info-Takes x w.send_request c (act (requested_info p f) (receive c n)))
handle_command-Balanced x w n c (Defs.get_block_list f) b = omega (arith, b)
handle_command-Balanced x w n c Defs.get_connected_peers b = omega (arith, b)
handle_command-Balanced x w n c (Defs.get_file f o) b = omega (arith, b)
handle_command-Balanced x w n c (Defs.get_file_dir f) b = omega (arith, b)
handle_command-Balanced x w n c Defs.get_listeners b = omega (arith, b)
handle_command-Balanced x w n c Defs.get_network_info b = omega (arith, b)
handle_command-Balanced x w n c (Defs.get_providers k) b =
    omega (arith, b, await_providers-Takes x (w.get_providers k) c (receive c n))
handle_command-Balanced x w n c (Defs.listen m) b = listen-Balanced x w n c m b
handle_command-Balanced x w n c Defs.node_info b = omega (arith, b)
handle_command-Balanced x w n c (Defs.remove_entry_from_send_block_to_set p h) b = omega (arith, b)
handle_command-Balanced x w n c (Defs.remove_listener i) b = remove_listener-Balanced x w n c i b
handle_command-Balanced x w n c (Defs.send_block_list s f bs) b = omega (arith, b)
handle_command-Balanced x w n c (Defs.send_block_to p f h) b =
    send_block_to-Balanced x w n c p f h b
handle_command-Balanced x w n c (Defs.start_provide k) b = start_provide-Balanced x w n c k b
handle_command-Balanced x w n c (Defs.stop_provide k) b = omega (arith, b)
