-- ===== src/SendList/Schedule.antt =====
-- The recuperation together with the network that answers it. Each command of `handle_rejected_block` is
-- answered at most once, in any order; a schedule says which one is answered next, and how.
use dragoonfly.Base.{
  ℕ, ◌%◌, Bool, true, false, none, some, List, [], ◌∷◌, ◌++◌, length, drop, get_elem?,
}
use dragoonfly.Base.Result.{ok, err}
use dragoonfly.Errors.{send_block_to_error, send_block_to_already_started}
use dragoonfly.Strategy.{SendId}
use dragoonfly.SendList.Defs.{Answer}
use dragoonfly.SendList.Recovery.{Recovery, on_retry_answer}
use dragoonfly.SendList.Vectors.{remove_at}

-- How a send ends: the peer takes the block, refuses it, the exchange fails, or the node does not begin it
-- as it already sends that block to that peer.
pub data Verdict : Type 0 where
  taken refused broken already : Verdict

-- The answers on which the recuperation goes on: it ignores `SendBlockToAlreadyStarted`.
abbrev pub goes_on : Verdict → Bool
goes_on already = false
goes_on _ = true

abbrev pub reply : Verdict → SendId → Answer
reply taken c = ok (true, c)
reply refused c = ok (false, c)
reply broken c = err (send_block_to_error c)
reply already c = err (send_block_to_already_started c)

-- The recuperation, and the sends that it has asked for and that are not answered yet.
pub record Running : Type 0 where
  pub recovery : Recovery
  pub pending : List SendId

-- The commands that one round has added.
abbrev pub asked_for : Recovery → Recovery → List SendId
asked_for r r' = drop (length r.commands) r'.commands

abbrev pub after : Running → ℕ → Recovery → Running
after s i r' = record { recovery = r'; pending = remove_at i s.pending ++ asked_for s.recovery r' }

-- The answers that the recuperation reads: a number stands for a pending send, modulo their count.
unfoldable pub answers : List (ℕ × Verdict) → Running → List Answer
unfolding on_retry_answer remove_at
answers [] s = []
answers ((n, v) ∷ more) s =
    let i = n % length s.pending in
    elim (get_elem? s.pending i) [
      | none ↦ []
      | some c ↦ reply v c ∷ elim (on_retry_answer s.recovery (reply v c)) [
        | err _ ↦ []
        | ok r' ↦ answers more (after s i r')
      ]
    ]
