-- ===== src/SendList/Defs.antt =====
-- The answers to `SendBlockTo`, and the strategy's stream that `handle_command` builds.
use dragoonfly.Base.{Bool, String, List, [], ◌∷◌, length, replicate}
use dragoonfly.Base.Result.{Result}
use dragoonfly.Errors.{DragoonError}
use dragoonfly.Strategy.{PeerId, SendId, BlockInput, StrategyName, random, round_robin}
use dragoonfly.Strategy.Sort.{sort}
use dragoonfly.Strategy.RoundRobin.{robin_stream}
use dragoonfly.Strategy.Random.{SliceRandom, random_stream}

-- What comes back through the channel of one `SendBlockTo` command.
abbrev pub Answer : Type 0
Answer = Result DragoonError (Bool × SendId)

-- `vec![file_hash; n].into_iter().zip(block_list)`
unfoldable pub zip : List String → List String → List BlockInput
zip [] bs = []
zip (f ∷ fs) [] = []
zip (f ∷ fs) (b ∷ bs) = (f, b) ∷ zip fs bs

abbrev pub block_inputs : String → List String → List BlockInput
block_inputs file_hash block_list = zip (replicate (length block_list) file_hash) block_list

-- The `SendBlockList` branch of `handle_command`: the known peers as they come out of their set, for
-- the round robin in sorted order.
unfoldable pub send_stream :
    (r : SliceRandom) → r.Rng → StrategyName → List PeerId → String → List String → List SendId
unfolding zip
send_stream r g random known_peers file_hash block_list =
    random_stream r g known_peers (block_inputs file_hash block_list)
send_stream r g round_robin known_peers file_hash block_list =
    robin_stream (sort known_peers) (block_inputs file_hash block_list)
