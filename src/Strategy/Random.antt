-- ===== src/Strategy/Random.antt =====
-- send_strategy_impl/random.rs: new peers in the order in which they come, then any peer seen.
-- The crate rand is a parameter: `choose` is `SliceRandom::choose` with the generator's state.
use dragoonfly.Base.{
  ◌+◌, ◌<◌, ◌≡◌, refl, true, Option, none, some, List, [], ◌∷◌, ◌++◌, map, length, All, arith, inl,
  inr, nat_eq, nat_beq_iff, ◌==◌, subst, Bool-cases, length-append,
}
use dragoonfly.Base.Sets.{contains, All-contains_self}
use dragoonfly.Base.Result.{ok, err}
use dragoonfly.Strategy.{
  PeerId, BlockInput, SendId, Chooser, no_peers, send_id, block_of, get_send_stream,
}
use dragoonfly.Strategy.Laws.{Serves, Served, stream-blocks, stream-peers}

-- `None` for an empty slice, and otherwise one of its elements.
pub record SliceRandom : Type 1 where
  pub Rng : Type 0
  pub choose : List PeerId → Rng → Option PeerId × Rng
  pub choose_empty : (g : Rng) → (choose [] g).0 ≡ none
  pub choose_member :
      (ps : List PeerId) (g : Rng)
      → 0 < length ps
      → (p : PeerId) × (g' : Rng) × (choose ps g ≡ (some p, g')) × (contains ps p ≡ true)

-- The strategy, with the state of the thread's generator.
pub record RandomDistribution (G : Type 0) : Type 0 where
  pub already_seen_peers : List PeerId
  pub rng : G

unfoldable pub choose_next_peer_block :
    {G : Type 0} → (List PeerId → G → Option PeerId × G) → Chooser (RandomDistribution G)
choose_next_peer_block choose s (some p) block =
    (record s { already_seen_peers = s.already_seen_peers ++ p ∷ [] }, ok (send_id p block))
choose_next_peer_block choose s none block =
    let (drawn, g) = choose s.already_seen_peers s.rng in
    elim drawn [
      | some p ↦ (record s { rng = g }, ok (send_id p block))
      | none ↦ (record s { rng = g }, err no_peers)
    ]

abbrev pub default : {G : Type 0} → G → RandomDistribution G
default g = record { already_seen_peers = []; rng = g }

unfoldable pub random_stream :
    (r : SliceRandom) → r.Rng → List PeerId → List BlockInput → List SendId
unfolding get_send_stream choose_next_peer_block
random_stream r g peers blocks =
    get_send_stream (choose_next_peer_block r.choose) (default g) peers blocks

choose_drawn :
    {G : Type 0} (choose : List PeerId → G → Option PeerId × G) (s : RandomDistribution G)
    (b : BlockInput) (p : PeerId) (g : G)
    → choose s.already_seen_peers s.rng ≡ (some p, g)
    → choose_next_peer_block choose s none b ≡ (record s { rng = g }, ok (send_id p b))
unfolding choose_next_peer_block
choose_drawn choose s b p g e = ground arith

module _ (r : SliceRandom) (known : List PeerId) where
  abbrev Known : PeerId → Type 0
  Known p = contains known p ≡ true

  abbrev Ready : RandomDistribution r.Rng → List PeerId → Type 0
  Ready s peers =
      All Known s.already_seen_peers
      × All Known peers
      × (0 < length s.already_seen_peers + length peers)

  All-snoc : (xs : List PeerId) (p : PeerId) → All Known xs → Known p → All Known (xs ++ p ∷ [])
  All-snoc [] p h k = (k, tt)
  All-snoc (x ∷ xs) p h k = (h.0, All-snoc xs p h.1 k)

  All-contains : (xs : List PeerId) (p : PeerId) → All Known xs → contains xs p ≡ true → Known p
  unfolding contains
  All-contains [] p h k = cc
  All-contains (x ∷ xs) p h k = elim (Bool-cases (x == p)) [
    | inl same ↦ subst Known ((nat_beq_iff x p).0 same) h.0
    | inr other ↦ All-contains xs p h.1 (ground arith)
  ]

  random_serves :
      (s : RandomDistribution r.Rng) (peers : List PeerId) (b : BlockInput)
      → Ready s peers
      → Served (choose_next_peer_block r.choose) Ready Known s peers b
  unfolding choose_next_peer_block
  random_serves s [] b (seen, _, h) =
      let (p, g, e, m) = r.choose_member s.already_seen_peers s.rng (omega arith) in
      (
        p,
        record s { rng = g },
        choose_drawn r.choose s b p g e,
        All-contains s.already_seen_peers p seen m,
        (seen, tt, h),
      )
  random_serves s (p ∷ ps) b (seen, (k, ks), h) = (
    p,
    record s { already_seen_peers = s.already_seen_peers ++ p ∷ [] },
    refl,
    k,
    (
      All-snoc s.already_seen_peers p seen k,
      ks,
      omega (arith, length-append s.already_seen_peers (p ∷ [])),
    ),
  )

  random-Serves : Serves (choose_next_peer_block r.choose) Ready Known
  random-Serves = record { serves = random_serves }

-- Random: if any peer is known, whatever the generator draws, each block of the list is sent once, in
-- its order, and only to known peers.
pub random_stream-blocks :
    (r : SliceRandom) (g : r.Rng) (peers : List PeerId) (blocks : List BlockInput)
    → 0 < length peers
    → (map block_of (random_stream r g peers blocks) ≡ blocks)
      × All (λ id. contains peers id.peer_id ≡ true) (random_stream r g peers blocks)
unfolding random_stream
random_stream-blocks r g peers blocks h =
    let ready : Ready r peers (default g) peers = (tt, All-contains_self peers, omega arith) in
    (
      stream-blocks (random-Serves r peers) (default g) peers blocks ready,
      stream-peers (random-Serves r peers) (default g) peers blocks ready,
    )
