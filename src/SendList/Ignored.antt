-- ===== src/SendList/Ignored.antt =====
-- An answer that the recuperation ignores.
use dragoonfly.Base.{ℕ, ◌%◌, ◌≡◌, refl, sym, subst, List, [], ◌∷◌, length, drop, arith}
use dragoonfly.Strategy.{SendId, BlockInput}
use dragoonfly.SendList.Recovery.{Recovery, waiting, recuperation, on_retry_answer}
use dragoonfly.SendList.Schedule.{Verdict, already, answers}
use dragoonfly.SendList.Rounds.{drop-length}

none_pending :
    (sched : List (ℕ × Verdict)) (r : Recovery)
    → answers sched (record { recovery = r; pending = [] }) ≡ []
unfolding answers
none_pending [] r = refl
none_pending ((n, v) ∷ more) r = ground arith

-- While blocks are rejected and one send is pending, the node may answer it with
-- `SendBlockToAlreadyStarted`, as it does when it already sends that block to that peer. The recuperation
-- ignores that answer, asks for no other send, and then waits for ever: no schedule has another answer.
pub recuperation-already :
    (r : Recovery) (c : SendId) (b : BlockInput) (bs : List BlockInput) (n : ℕ)
    (more : List (ℕ × Verdict))
    → r.rejected_blocks ≡ b ∷ bs
    → recuperation r (answers ((n, already) ∷ more) (record { recovery = r; pending = c ∷ [] }))
      ≡ waiting r
unfolding answers recuperation on_retry_answer
recuperation-already r c b bs n more left =
    let first : n % 1 ≡ 0 = omega arith in
    let rest : answers more (record { recovery = r; pending = drop (length r.commands) r.commands })
        ≡ [] =
      subst (λ p. answers more (record { recovery = r; pending = p }) ≡ [])
        (sym (drop-length r.commands)) (none_pending more r) in
    ground (arith, first, rest, left)
