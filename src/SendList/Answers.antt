-- ===== src/SendList/Answers.antt =====
-- What the answers report: acknowledged sends and refused blocks, and how the first loop keeps them.
use dragoonfly.Base.{
  ◌≡◌, sym, ◌∙◌, true, false, List, [], ◌∷◌, ◌++◌, map, append-nil, append_assoc, nat_eq, string_eq,
  pair_eq,
}
use dragoonfly.Base.Result.{ok, err}
use dragoonfly.Errors.{send_block_to_error}
use dragoonfly.Strategy.{SendId, BlockInput, block_of}
use dragoonfly.SendList.Defs.{Answer}
use dragoonfly.SendList.Optimistic.{Lists, on_answer, collect}

-- The sends that peers acknowledged, in the order of the answers.
abbrev pub acks : List Answer → List SendId
acks [] = []
acks (ok (true, id) ∷ more) = id ∷ acks more
acks (ok (false, id) ∷ more) = acks more
acks (err e ∷ more) = acks more

-- The blocks that were refused, or whose send failed.
abbrev pub refusals : List Answer → List BlockInput
refusals [] = []
refusals (ok (true, id) ∷ more) = refusals more
refusals (ok (false, id) ∷ more) = block_of id ∷ refusals more
refusals (err (send_block_to_error id) ∷ more) = block_of id ∷ refusals more
refusals (err _ ∷ more) = refusals more

abbrev pub blocks_of : List SendId → List BlockInput
blocks_of = map block_of

pub collect-acks :
    (l : Lists) (answers : List Answer)
    → (collect l answers).final_block_distribution ≡ l.final_block_distribution ++ acks answers
unfolding collect on_answer
collect-acks l [] = sym (append-nil _)
collect-acks l (ok (true, id) ∷ more) =
    collect-acks (on_answer l (ok (true, id))) more
    ∙ append_assoc l.final_block_distribution (id ∷ []) (acks more)
collect-acks l (ok (false, id) ∷ more) = collect-acks (on_answer l (ok (false, id))) more
collect-acks l (err (send_block_to_error id) ∷ more) =
    collect-acks (on_answer l (err (send_block_to_error id))) more
collect-acks l (err e ∷ more) = collect-acks l more

pub collect-refusals :
    (l : Lists) (answers : List Answer)
    → (collect l answers).rejected_blocks ≡ l.rejected_blocks ++ refusals answers
unfolding collect on_answer
collect-refusals l [] = sym (append-nil _)
collect-refusals l (ok (true, id) ∷ more) = collect-refusals (on_answer l (ok (true, id))) more
collect-refusals l (ok (false, id) ∷ more) =
    collect-refusals (on_answer l (ok (false, id))) more
    ∙ append_assoc l.rejected_blocks (block_of id ∷ []) (refusals more)
collect-refusals l (err (send_block_to_error id) ∷ more) =
    collect-refusals (on_answer l (err (send_block_to_error id))) more
    ∙ append_assoc l.rejected_blocks (block_of id ∷ []) (refusals more)
collect-refusals l (err e ∷ more) = collect-refusals l more
