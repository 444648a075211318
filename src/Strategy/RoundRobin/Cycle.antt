-- ===== src/Strategy/RoundRobin/Cycle.antt =====
-- The peers that the round robin sends to.
use native.Mathlib.Nat.{mod-eq_of_lt}
use dragoonfly.Base.{
  ℕ, zero, suc, ◌+◌, ◌%◌, ◌<◌, ◌≡◌, refl, sym, ap, ◌∙◌, some, List, [], ◌∷◌, ◌++◌, map, length,
  get_elem?, arith, get_elem?-some, get_elem?-append_right, append-nil, append_assoc, length-append,
}
use dragoonfly.Strategy.{PeerId, BlockInput, SendId, send_id, get_send_stream}
use dragoonfly.Strategy.RoundRobin.{next_index, choose_next_peer_block, robin_stream}

abbrev pub peer_of : SendId → PeerId
peer_of s = s.peer_id

abbrev stream : List PeerId → ℕ → List PeerId → List BlockInput → List SendId
stream seen r peers =
    get_send_stream choose_next_peer_block (record { already_seen_peers = seen; round_index = r })
      peers

next_index-lt : (r n : ℕ) → r < n → next_index r n < n
next_index-lt r n h = ground arith

next_index_mod : (r n i : ℕ) → r < n → (next_index r n + i) % n ≡ (r + suc i) % n
next_index_mod r n i h = grind arith

stream_cycles :
    (ps : List PeerId) (r : ℕ) (b : BlockInput) (blocks : List BlockInput) {p : PeerId}
    → get_elem? ps r ≡ some p
    → stream ps r [] (b ∷ blocks) ≡ send_id p b ∷ stream ps (next_index r (length ps)) [] blocks
unfolding get_send_stream choose_next_peer_block
stream_cycles ps r b blocks e = ground arith

add_mod_self : (n i : ℕ) → (n + i) % n ≡ i % n
add_mod_self n i = grind arith

cycle_get :
    (ps : List PeerId) (r : ℕ) (blocks : List BlockInput) (i : ℕ)
    → r < length ps
    → i < length blocks
    → get_elem? (map peer_of (stream ps r [] blocks)) i ≡ get_elem? ps ((r + i) % length ps)
cycle_get ps r [] i h k = elim k [ ]
cycle_get ps r (b ∷ blocks) zero h k =
    let (p, e) = get_elem?-some ps r h in
    rw (stream_cycles ps r b blocks e) (
      sym e
      ∙ ap (get_elem? ps)
          (sym (mod-eq_of_lt (omega arith)) ∙ ap (λ j. j % length ps) (omega arith)))
cycle_get ps r (b ∷ blocks) (suc i) h k =
    let (p, e) = get_elem?-some ps r h in
    rw (stream_cycles ps r b blocks e) (
      cycle_get ps (next_index r (length ps)) blocks i (next_index-lt r (length ps) h) (omega arith)
      ∙ ap (get_elem? ps) (next_index_mod r (length ps) i h))

-- While peers still come, each block goes to the next new one.
fresh_get :
    (xs ys zs : List PeerId) (blocks : List BlockInput) (i : ℕ)
    → zs ≡ xs ++ ys
    → 0 < length zs
    → i < length blocks
    → get_elem? (map peer_of (stream xs 0 ys blocks)) i ≡ get_elem? zs ((length xs + i) % length zs)
unfolding get_send_stream choose_next_peer_block
fresh_get xs [] zs blocks i e h k =
    let same : zs ≡ xs = e ∙ append-nil xs in
    rw same (
      cycle_get xs 0 blocks i (omega (arith, ap length same)) k
      ∙ ap (get_elem? xs)
          (ap (λ j. j % length xs) (omega arith) ∙ sym (add_mod_self (length xs) i)))
fresh_get xs (y ∷ ys) zs [] i e h k = elim k [ ]
fresh_get xs (y ∷ ys) zs (b ∷ blocks) zero e h k =
    let long : length xs + 0 < length zs = omega (arith, ap length e, length-append xs (y ∷ ys)) in
    sym (
      ap (get_elem? zs) (mod-eq_of_lt long)
      ∙ rw e (get_elem?-append_right xs (y ∷ ys) (length xs + 0) 0 refl))
fresh_get xs (y ∷ ys) zs (b ∷ blocks) (suc i) e h k =
    fresh_get (xs ++ y ∷ []) ys zs blocks i (e ∙ sym (append_assoc xs (y ∷ []) ys)) h (omega arith)
    ∙ ap (λ j. get_elem? zs (j % length zs)) (omega (arith, length-append xs (y ∷ [])))

-- Round robin: if any peer is known, block number i goes to peer number i modulo their number.
pub robin_stream-cycles :
    (peers : List PeerId) (blocks : List BlockInput) (i : ℕ)
    → 0 < length peers
    → i < length blocks
    → get_elem? (map peer_of (robin_stream peers blocks)) i ≡ get_elem? peers (i % length peers)
unfolding robin_stream
robin_stream-cycles peers blocks i h k =
    fresh_get [] peers peers blocks i refl h k
    ∙ ap (λ j. get_elem? peers (j % length peers)) (omega arith)
