-- ===== src/Network/Calls.antt =====
-- The methods of `DragoonNetwork` that call the swarm and answer at once.
use dragoonfly.Base.{ℕ, String, Option, none, some, [], ◌∷◌, nat_eq}
use dragoonfly.Base.Result.{Result, ok, err}
use dragoonfly.Errors.{bad_listener, dial_error, bootstrap_error}
use dragoonfly.Network.Table.{lookup, put}
use dragoonfly.Network.Defs.{
  format, Protocol, p2p, other_protocol, Multiaddr, Value, nothing, number, flag, NodeError,
  dragoon, listened, dialled, removed_listener, added_address, Node, act,
}
use dragoonfly.Network.Outside.{Outside, TransportError, multiaddr_not_supported, other}

abbrev pub could_not_parse : String → Result NodeError Value
could_not_parse multiaddr = err (dragoon (bad_listener (format "Could not parse " multiaddr "")))

abbrev pub transport_text : Outside → TransportError → String
transport_text w (other e) = e
transport_text w (multiaddr_not_supported addr) =
    format "multiaddr " (w.to_string addr) " not supported"

-- A method's result, and the node that it leaves.
abbrev pub Answered : Type 0
Answered = Result NodeError Value × Node

abbrev pub add_listener : Outside → Multiaddr → Node → Result TransportError ℕ → Answered
add_listener w addr n (ok listener_id) =
    let id = w.listener_number listener_id in
    (ok (number id), act (listened addr) (record n { listeners = put id listener_id n.listeners }))
add_listener w addr n (err te) = (err (dragoon (bad_listener (transport_text w te))), n)

-- `listen`
unfoldable pub listen_on : Outside → String → Node → Answered
listen_on w multiaddr n = elim (w.parse multiaddr) [
  | none ↦ (could_not_parse multiaddr, n)
  | some addr ↦ add_listener w addr n (w.listen_on addr)
]

-- `remove_listener`: the entry stays in the table.
unfoldable pub stop_listener : Outside → ℕ → Node → Answered
stop_listener w listener_id n = elim (lookup listener_id n.listeners) [
  | none ↦ (
    err (dragoon (bad_listener (format "Listener " (w.show_number listener_id) " not found"))),
    n,
  )
  | some listener ↦ (ok (flag (w.remove_listener listener)), act (removed_listener listener) n)
]

-- `dial`
unfoldable pub dial : Outside → String → Node → Answered
dial w multiaddr n = elim (w.parse multiaddr) [
  | none ↦ (could_not_parse multiaddr, n)
  | some addr ↦ elim (w.dial addr) [
    | none ↦ (ok nothing, act (dialled addr) n)
    | some de ↦
        (err (dragoon (dial_error (format "Could not dial " multiaddr (format ": " de "")))), n)
  ]
]

abbrev pub last : Multiaddr → Option Protocol
last [] = none
last (x ∷ []) = some x
last (x ∷ y ∷ xs) = last (y ∷ xs)

abbrev pub add_last : Outside → Multiaddr → Node → Option Protocol → Answered
add_last w addr n (some (p2p hash)) = (ok nothing, act (added_address hash addr) n)
add_last w addr n (some (other_protocol _)) = (
  err (dragoon (bad_listener (format "could no isolate P2P component in " (w.to_string addr) ""))),
  n,
)
add_last w addr n none = (
  err (dragoon (bad_listener (format "could no isolate P2P component in " (w.to_string addr) ""))),
  n,
)

-- `add_peer`
unfoldable pub add_address : Outside → String → Node → Answered
add_address w multiaddr n = elim (w.parse multiaddr) [
  | none ↦ (could_not_parse multiaddr, n)
  | some addr ↦ add_last w addr n (last addr)
]

-- `bootstrap`
unfoldable pub start_bootstrap : Outside → Result NodeError Value
start_bootstrap w = elim w.bootstrap [
  | none ↦ ok nothing
  | some text ↦ err (dragoon (bootstrap_error text))
]
