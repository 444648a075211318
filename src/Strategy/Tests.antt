-- ===== src/Strategy/Tests.antt =====
-- Runs of the strategies on three peers or fewer.
use dragoonfly.Base.{
  ◌≡◌, refl, ◌%◌, ◌<◌, Option, some, List, [], ◌∷◌, map, length, get_elem?, head?, true, arith,
  nat_eq,
}
use dragoonfly.Base.Sets.{contains}
use dragoonfly.Strategy.Defs.{PeerId, BlockInput, send_id}
use dragoonfly.Strategy.RoundRobin.{robin_stream}
use dragoonfly.Strategy.RoundRobin.Cycle.{peer_of, robin_stream-cycles}
use dragoonfly.Strategy.Random.{SliceRandom}

abbrev three_blocks : List BlockInput
three_blocks = ("f", "a") ∷ ("f", "b") ∷ ("f", "c") ∷ []

robin_run :
    robin_stream (1 ∷ 2 ∷ []) three_blocks
    ≡ send_id 1 ("f", "a") ∷ send_id 2 ("f", "b") ∷ send_id 1 ("f", "c") ∷ []
unfolding robin_stream
robin_run = refl

robin_stream-cycles_example :
    get_elem? (map peer_of (robin_stream (1 ∷ 2 ∷ []) three_blocks)) 2
    ≡ get_elem? {A = PeerId} (1 ∷ 2 ∷ []) (2 % 2)
robin_stream-cycles_example =
    robin_stream-cycles (1 ∷ 2 ∷ []) three_blocks 2 (omega arith) (omega arith)

-- A generator that always draws the first element.
pub draws_member :
    (ps : List PeerId) (g : Unit {0})
    → 0 < length ps
    → (p : PeerId) × (g' : Unit {0}) × (◌≡◌ {A = Option PeerId × Unit {0}}
        (head? ps, g)
        (some p, g'))
      × (contains ps p ≡ true)
unfolding contains
draws_member [] g h = elim h [ ]
draws_member (p ∷ ps) g h = (p, tt, refl, ground arith)

abbrev pub first_drawn : SliceRandom
first_drawn = record {
  Rng = Unit {0};
  choose = λ ps g. (head? ps, g);
  choose_empty = λ g. refl;
  choose_member = draws_member;
}
