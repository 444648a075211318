-- ===== src/Cluster/Tests.antt =====
-- One block that is sent to one peer.
use dragoonfly.Base.{
  ℕ, ◌+◌, ◌≤◌, ◌≡◌, refl, Bool, true, false, Bool-cases, Option, none, some, List, [], ◌∷◌, ◌++◌,
  ◌==◌, ◌&&◌, nat_eq, string_eq, pair_eq, ap, sym, ◌∙◌, subst, if◌then◌else◌, inl, inr, arith,
  Listed, String,
}
use dragoonfly.Base.Result.{ok}
use dragoonfly.Paths.{FilePath, push, get_block_dir, is_absolute}
use dragoonfly.SendList.Vectors.{count}
use dragoonfly.SendList.Answers.{acks, refusals, blocks_of}
use dragoonfly.Strategy.RoundRobin.{robin_stream}
use dragoonfly.Strategy.Sort.{sort}
use dragoonfly.Strategy.{BlockInput, SendId, send_id, block_of, round_robin}
use dragoonfly.Strategy.Tests.{first_drawn}
use dragoonfly.SendList.{Answer, send_block_list, returned, send_stream}
use dragoonfly.Network.SendBlockTo.{send_block_to}
use dragoonfly.Exchange.World.{Env, ◌>>=◌, read_exact, write_all, close}
use dragoonfly.Exchange.Codes.{from_repr}
use dragoonfly.Exchange.Frame.{to_be_bytes}
use dragoonfly.Exchange.Sender.{sender_side, sender_side_inner}
use dragoonfly.Exchange.Agreement.{sent_info}
use dragoonfly.Exchange.Tests.{one_info, root, three_bytes, ten_free, asking, replied}
use dragoonfly.Cluster.Steps.{
  Cluster, started, exchanged, Reach, here, next, given, answered, written, sender_of, receiver_of,
}
use dragoonfly.Cluster.Safety.{IsStored, send_block_list-IsStored}
use dragoonfly.Cluster.Blocks.{send_block_list-every_block_IsStored}

-- A disk with the one block "a" of the file "f".
abbrev only_block : FilePath → Option (List ℕ)
only_block (_ ∷ f ∷ _ ∷ h ∷ []) = if (f == "f") && (h == "a") then some three_bytes else none
only_block _ = none

abbrev own : Env
own = record one_info { read_file = only_block }

both :
    (b c : Bool) (xs ys : List ℕ)
    → (if b && c then some xs else none) ≡ some ys
    → (b ≡ true) × (c ≡ true) × (xs ≡ ys)
both true true xs ys h = (refl, refl, cc)
both true false xs ys h = absurd cc
both false c xs ys h = absurd cc

only_block-some :
    (f h : String) (bytes : List ℕ)
    → only_block (push (get_block_dir root f) h) ≡ some bytes
    → ((f ≡ "f") × (h ≡ "a")) × (three_bytes ≡ bytes)
unfolding push get_block_dir
only_block-some f h bytes e = elim (Bool-cases (is_absolute h)) [
  | inl a ↦ absurd (ground (arith, a, e))
  | inr a ↦ elim (Bool-cases (is_absolute f)) [
    | inl b ↦ absurd (ground (arith, a, b, e))
    | inr b ↦
        let path : push (get_block_dir root f) h ≡ "blocks" ∷ f ∷ "blocks" ∷ h ∷ [] =
          rw (b, a) refl in
        let (is_f, is_a, same) =
          both (f == "f") (h == "a") three_bytes bytes (ap only_block (sym path) ∙ e) in
        (((string_eq.eq_iff f "f").0 is_f, (string_eq.eq_iff h "a").0 is_a), same)
  ]
]

reads_back :
    (id : SendId) (bytes : List ℕ)
    → only_block (push (get_block_dir root id.file_hash) id.block_hash) ≡ some bytes
    → own.from_slice (own.to_vec (sent_info own 1 id.block_hash id.file_hash bytes))
      ≡ some (sent_info own 1 id.block_hash id.file_hash bytes)
reads_back id bytes e =
    let ((is_f, is_a), same) = only_block-some id.file_hash id.block_hash bytes e in cc

abbrev a_to_2 : SendId
a_to_2 = send_id 2 ("f", "a")

abbrev after : Cluster
after =
    answered
      (given (
        send_block_to 2 "a"
          (some (sender_of own 1 root (λ p. one_info) (λ p. root) a_to_2 asking).0)))
      (written 2 (receiver_of own 1 root (λ p. one_info) (λ p. root) 2 ten_free).1.disk started)

-- What the sender writes is what the receiver has read.
sent :
    ten_free.incoming ++ []
    ≡ (sender_of own 1 root (λ p. one_info) (λ p. root) a_to_2 asking).1.outgoing
unfolding sender_side sender_side_inner from_repr to_be_bytes ◌>>=◌ push get_block_dir write_all
    read_exact close
sent = refl

reached : Reach own 1 root (λ p. one_info) (λ p. root) after
reached = next here (exchanged a_to_2 asking ten_free [] [] refl refl refl sent replied)

abbrev first : List Answer
first = ok (true, a_to_2) ∷ []

after_is_answered : after.answers ≡ first
unfolding sender_side sender_side_inner send_block_to from_repr ◌>>=◌ push get_block_dir write_all
    read_exact close
after_is_answered = refl

run : send_block_list 1 (a_to_2 ∷ []) first [] ≡ returned (ok (a_to_2 ∷ []))
unfolding send_block_list
run = refl

send_block_list-IsStored_example : IsStored own 1 root (λ p. one_info) (λ p. root) after a_to_2
send_block_list-IsStored_example =
    send_block_list-IsStored own 1 root (λ p. one_info) (λ p. root) reads_back
      (λ id bytes e. omega arith) 1 (a_to_2 ∷ []) first [] (a_to_2 ∷ []) reached
      (λ a l. subst (λ x. Listed x a) (sym after_is_answered) l) run a_to_2 (0, refl)

as_stream : send_stream first_drawn tt round_robin (2 ∷ []) "f" ("a" ∷ []) ≡ a_to_2 ∷ []
unfolding send_stream robin_stream sort
as_stream = refl

counted :
    (b : BlockInput)
    → count b (blocks_of (send_stream first_drawn tt round_robin (2 ∷ []) "f" ("a" ∷ [])))
      ≤ count b (blocks_of (acks first)) + count b (refusals first)
counted b = rw as_stream (omega arith)

send_block_list-every_block_IsStored_example :
    (id : SendId) × Listed (a_to_2 ∷ []) id
    × (block_of id ≡ ("f", "a"))
    × IsStored own 1 root (λ p. one_info) (λ p. root) after id
send_block_list-every_block_IsStored_example =
    send_block_list-every_block_IsStored own 1 root (λ p. one_info) (λ p. root) first_drawn tt
      round_robin (2 ∷ []) "f" ("a" ∷ []) first [] (a_to_2 ∷ []) reads_back
      (λ id bytes e. omega arith) (omega arith) reached
      (λ a l. subst (λ x. Listed x a) (sym after_is_answered) l) counted
      (ap (λ x. send_block_list 1 x first []) as_stream ∙ run) "a" (0, refl)
