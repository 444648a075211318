-- ===== src/Network/Balance.antt =====
-- Where the sender of a command can be: in a table, with a task, in the queue, answered or dropped.
pub mod Commands
pub mod Events
pub mod Run
use dragoonfly.Base.{
  ℕ, ◌+◌, ◌≤◌, ◌≡◌, refl, Bool, true, false, Bool-cases, inl, inr, String, Option, none, some,
  Option-cases, List, [], ◌∷◌, ◌++◌, ◌==◌, PartialEq, if◌then◌else◌, arith, nat_eq, string_eq,
}
use dragoonfly.Base.Sets.{insert}
use dragoonfly.Base.Result.{Result, ok, err}
use dragoonfly.Strategy.{PeerId}
use dragoonfly.SendList.Vectors.{count, count-append}
use dragoonfly.Network.SendBlockTo.{Effect, start_task, reply}
use dragoonfly.Network.Table.{
  lookup, erase, put, in_entry, channels, count-erase, count-channels-append,
}
use dragoonfly.Network.Defs.{
  Channel, Value, NodeError, Action, Task, Node, sender_send_match, drop_sender, drop_replaced,
  spawn, act,
}
use dragoonfly.Network.Outside.{Outside}
use dragoonfly.Network.Command.{
  await_dial, await_start, await_info, await_block, await_providers, close_stream, dial_each,
  dial_one, await_dialled,
}
use dragoonfly.Network.Calls.{dial}
use dragoonfly.Network.Steps.{queued, dialling}

abbrev pub firsts {ℓ} : {A : Type ℓ} → List (Channel × A) → List Channel
firsts [] = []
firsts ((c, a) ∷ t) = c ∷ firsts t

abbrev pub in_tables : Channel → Node → ℕ
in_tables c n =
    count c (dialling n)
    + count c (channels (λ d. d) n.pending_start_providing)
    + count c (channels (λ p. p.0) n.pending_get_providers)
    + count c (channels (λ d. d) n.pending_request_block_info)
    + count c (channels (λ p. p.1) n.pending_request_block)

-- The times that a sender is somewhere.
abbrev pub held : Channel → Node → ℕ
held c n =
    in_tables c n
    + count c (firsts n.tasks)
    + count c (queued n)
    + count c (firsts n.answered)
    + count c n.dropped

-- The senders that a node has are those that it was given.
abbrev pub Balanced : Channel → Node → Type 0
Balanced c n = held c n ≡ count c n.senders

-- A step that takes one sender more, and is given none.
abbrev pub Takes : Channel → Channel → Node → Node → Type 0
Takes x c n m =
    (held x m ≡ (if c == x then 1 else 0) + held x n) × (count x m.senders ≡ count x n.senders)

pub await_dial-Takes :
    (x : Channel) (m : String) (c : Channel) (n : Node) → Takes x c n (await_dial m c n)
await_dial-Takes x m c n = elim (Option-cases (lookup m n.pending_dial)) [
  | inl e ↦ ground (arith, e, count-erase (λ (d : Channel). d) x m n.pending_dial)
  | inr (d, e) ↦ ground (arith, e, count-erase (λ (d : Channel). d) x m n.pending_dial)
]

pub await_start-Takes :
    (x : Channel) (i : ℕ) (c : Channel) (n : Node) → Takes x c n (await_start i c n)
await_start-Takes x i c n = elim (Option-cases (lookup i n.pending_start_providing)) [
  | inl e ↦ ground (arith, e, count-erase (λ (d : Channel). d) x i n.pending_start_providing)
  | inr (d, e) ↦ ground (arith, e, count-erase (λ (d : Channel). d) x i n.pending_start_providing)
]

pub await_info-Takes :
    (x : Channel) (i : ℕ) (c : Channel) (n : Node) → Takes x c n (await_info i c n)
await_info-Takes x i c n = elim (Option-cases (lookup i n.pending_request_block_info)) [
  | inl e ↦ ground (arith, e, count-erase (λ (d : Channel). d) x i n.pending_request_block_info)
  | inr (d, e) ↦
      ground (arith, e, count-erase (λ (d : Channel). d) x i n.pending_request_block_info)
]

pub await_block-Takes :
    (x : Channel) (i : ℕ) (save : Bool) (c : Channel) (n : Node)
    → Takes x c n (await_block i save c n)
await_block-Takes x i save c n = elim (Option-cases (lookup i n.pending_request_block)) [
  | inl e ↦ ground (arith, e, count-erase (λ (p : Bool × Channel). p.1) x i n.pending_request_block)
  | inr ((b, d), e) ↦
      ground (arith, e, count-erase (λ (p : Bool × Channel). p.1) x i n.pending_request_block)
]

pub await_providers-Takes :
    (x : Channel) (i : ℕ) (c : Channel) (n : Node) → Takes x c n (await_providers i c n)
await_providers-Takes x i c n =
    let erased =
      count-erase (λ (p : Channel × List (Option (List PeerId))). p.0) x i
        n.pending_get_providers in
    elim (Option-cases (lookup i n.pending_get_providers)) [
      | inl e ↦ ground (arith, e, erased)
      | inr ((d, ms), e) ↦ ground (arith, e, erased)
    ]

pub dial_one-Takes :
    (x : Channel) (w : Outside) (n : Node) (c : Channel) (m : String)
    → Takes x c n (dial_one w n c m)
unfolding dial_one dial
dial_one-Takes x w n c m = elim (Option-cases (lookup m n.pending_dial)) [
  | inr (d, e) ↦ ground (arith, e)
  | inl e ↦ elim (Option-cases (w.parse m)) [
    | inl q ↦ ground (arith, e, q)
    | inr (addr, q) ↦ elim (Option-cases (w.dial addr)) [
      | inl r ↦ ground (arith, e, q, r, await_dial-Takes x m c n)
      | inr (text, r) ↦ ground (arith, e, q, r)
    ]
  ]
]

-- As many senders are put into the queue as are cloned.
pub dial_each-held :
    (x d : Channel) (list : List String) (n : Node)
    → held x (dial_each d list n) + count x n.senders
      ≡ held x n + count x (dial_each d list n).senders
dial_each-held x d [] n = refl
dial_each-held x d (m ∷ list) n = omega (
  arith,
  dial_each-held x d list (record n { queue = n.queue ++ (m, d) ∷ []; senders = d ∷ n.senders }),
  count-channels-append (λ (c : Channel). c) x n.queue ((m, d) ∷ []),
)
