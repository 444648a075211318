-- ===== src/SendList/Rounds.antt =====
-- One round of the recuperation, and what it leaves to do.
use dragoonfly.Base.{
  ℕ, ◌+◌, ◌*◌, ◌≤◌, ◌<◌, ◌≡◌, refl, true, sym, ap, ◌∙◌, subst, some, List, [], ◌∷◌, ◌++◌,
  map-append, append-nil, length, drop, drop-length-append, get_elem?, length-append, nat_beq,
  arith, inl, inr, Bool-cases, nat_eq, string_eq, pair_eq,
}
use dragoonfly.Base.Result.{ok, ok-injective}
use dragoonfly.Strategy.{SendId, BlockInput, block_of}
use dragoonfly.SendList.Recovery.{Recovery, settle, retry, on_retry_answer}
use dragoonfly.SendList.Vectors.{count, count-append, remove_at}
use dragoonfly.SendList.Answers.{blocks_of}
use dragoonfly.SendList.Delivery.{settle-same}
use dragoonfly.SendList.Schedule.{
  Verdict, taken, refused, broken, already, goes_on, reply, Running, asked_for, after,
}
use dragoonfly.SendList.Pending.{
  get_remove-count, stray, strays, strays-le, strays-append, get_remove-strays, get_remove-length,
  drop_peer-length, drop_peer-absent, Retried, retry-Retried,
}

-- The rejected blocks are those of the pending sends, each as often.
abbrev pub SameBlocks : Running → Type 0
SameBlocks s = (b : BlockInput) → count b s.recovery.rejected_blocks ≡ count b (blocks_of s.pending)

-- What is left to do, where at most `n` sends are pending.
abbrev pub weight : ℕ → Running → ℕ
weight n s =
    length s.recovery.peers.accepted_peers * (n + 1)
    + strays s.recovery.peers.accepted_peers s.pending
    + length s.pending

-- A round that goes on: nothing is lost, and less is left to do.
pub record Falls (n : ℕ) (s t : Running) : Type 0 where
  pub same : SameBlocks t
  pub bounded : length t.pending ≤ n
  pub less : weight n t < weight n s

pub mul_step : (a m : ℕ) → (a + 1) * m ≡ a * m + m
mul_step a m = grind arith

pub drop-length : (xs : List SendId) → drop (length xs) xs ≡ []
drop-length [] = refl
drop-length (x ∷ xs) = drop-length xs

-- The state after a round, with the commands that it has added written out.
abbrev pub moved : Running → ℕ → Recovery → List SendId → Running
moved s i r' new = record { recovery = r'; pending = remove_at i s.pending ++ new }

-- The acknowledgement of a pending send.
pub taken-Falls :
    (n : ℕ) (s : Running) (i : ℕ) (c : SendId) (r' : Recovery)
    → get_elem? s.pending i ≡ some c
    → SameBlocks s
    → length s.pending ≤ n
    → on_retry_answer s.recovery (reply taken c) ≡ ok r'
    → Falls n s (after s i r')
unfolding on_retry_answer
taken-Falls n s i c r' e same few h =
    let r = s.recovery in
    let acked = record r {
      final_block_distribution = r.final_block_distribution ++ c ∷ [];
      rejected_blocks = settle (block_of c) r.rejected_blocks;
    } in
    let ps = r.peers.accepted_peers in
    let rest = remove_at i s.pending in
    let longer = length-append rest [] in
    let shorter = get_remove-length s.pending i c e in
    subst (λ z. Falls n s (after s i z)) (ok-injective h)
      (subst (λ new. Falls n s (moved s i acked new)) (sym (drop-length r.commands))
        (record {
          same = λ b.
              settle-same c rest r.rejected_blocks
                (λ x. same x ∙ omega (arith, get_remove-count x s.pending i c e)) b
              ∙ ap (λ l. count b (blocks_of l)) (sym (append-nil rest));
          bounded = omega (arith, longer, shorter);
          less = omega (
            arith,
            longer,
            shorter,
            strays-append ps rest [],
            get_remove-strays ps s.pending i c e,
          );
        }))

pub count-moved :
    (b : BlockInput) (rest : List SendId) (cmd : SendId)
    → count b (blocks_of (rest ++ cmd ∷ []))
      ≡ count b (blocks_of rest) + count b (block_of cmd ∷ [])
count-moved b rest cmd =
    ap (count b) (map-append block_of rest (cmd ∷ []))
    ∙ count-append b (blocks_of rest) (block_of cmd ∷ [])

-- A refusal takes its peer off the list, or it comes from a peer that is off the list already.
pub retry-less :
    (n : ℕ) (s : Running) (rest : List SendId) (c cmd : SendId) (r' : Recovery)
    → Retried s.recovery r' c cmd
    → length s.pending ≤ n
    → length rest + 1 ≡ length s.pending
    → strays s.recovery.peers.accepted_peers s.pending
      ≡ stray s.recovery.peers.accepted_peers c + strays s.recovery.peers.accepted_peers rest
    → weight n (record { recovery = r'; pending = rest ++ cmd ∷ [] }) < weight n s
retry-less n s rest c cmd r' k few shorter off =
    let ps = s.recovery.peers.accepted_peers in
    let ps' = r'.peers.accepted_peers in
    let longer = length-append rest (cmd ∷ []) in
    elim (Bool-cases (nat_beq (count c.peer_id ps) 0)) [
      | inl absent ↦
          let kept : ps' ≡ ps =
            k.peers
            ∙ ap (λ x. x.accepted_peers)
                (drop_peer-absent s.recovery.peers c.peer_id (ground arith)) in
          ground (arith, kept, k.listed, longer, strays-append ps rest (cmd ∷ []))
      | inr present ↦
          let fewer : length ps' + 1 ≡ length ps = omega (
            arith,
            ap length k.peers,
            drop_peer-length s.recovery.peers c.peer_id (ground arith),
          ) in
          omega (
            arith,
            ap (λ a. a * (n + 1)) fewer,
            mul_step (length ps') (n + 1),
            strays-le ps' (rest ++ cmd ∷ []),
            longer,
          )
    ]

-- A send that is answered by a refusal or an error.
pub retry-Falls :
    (n : ℕ) (s : Running) (i : ℕ) (c : SendId) (r' : Recovery)
    → get_elem? s.pending i ≡ some c
    → SameBlocks s
    → length s.pending ≤ n
    → retry s.recovery c ≡ ok r'
    → Falls n s (after s i r')
retry-Falls n s i c r' e same few h =
    let (cmd, k) = retry-Retried s.recovery r' c h in
    let rest = remove_at i s.pending in
    let new : asked_for s.recovery r' ≡ cmd ∷ [] =
      ap (drop (length s.recovery.commands)) k.commands
      ∙ drop-length-append s.recovery.commands (cmd ∷ []) in
    let longer = length-append rest (cmd ∷ []) in
    let shorter = get_remove-length s.pending i c e in
    subst (λ new. Falls n s (moved s i r' new)) (sym new)
      (record {
        same = λ b.
            ap (count b) k.rejected
            ∙ same b
            ∙ get_remove-count b s.pending i c e
            ∙ omega (arith, count-moved b rest cmd, ap (λ x. count b (x ∷ [])) k.same_block);
        bounded = omega (arith, longer, shorter);
        less = retry-less n s rest c cmd r' k few shorter (get_remove-strays _ s.pending i c e);
      })

pub round-Falls :
    (n : ℕ) (s : Running) (i : ℕ) (c : SendId) (v : Verdict) (r' : Recovery)
    → get_elem? s.pending i ≡ some c
    → SameBlocks s
    → length s.pending ≤ n
    → goes_on v ≡ true
    → on_retry_answer s.recovery (reply v c) ≡ ok r'
    → Falls n s (after s i r')
unfolding on_retry_answer
round-Falls n s i c taken r' e same few onward h = taken-Falls n s i c r' e same few h
round-Falls n s i c refused r' e same few onward h = retry-Falls n s i c r' e same few h
round-Falls n s i c broken r' e same few onward h = retry-Falls n s i c r' e same few h
round-Falls n s i c already r' e same few onward h = absurd cc
