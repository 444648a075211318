-- ===== src/SendList/Blocks.antt =====
-- Where each block is when `send_block_list` returns.
use dragoonfly.Base.{
  ℕ, suc, ◌+◌, ◌≤◌, ◌≡◌, refl, sym, ap, ◌∙◌, true, false, List, [], ◌∷◌, ◌++◌, append-nil,
  append_assoc, map-append, take, length, arith, inl, inr, ◌⊎◌, Option-cases, nat_eq, string_eq,
  pair_eq, subst,
}
use dragoonfly.Base.Result.{ok, err, Result-cases, ok-injective}
use dragoonfly.Errors.{send_block_to_error}
use dragoonfly.Strategy.{SendId, BlockInput, block_of}
use dragoonfly.SendList.Defs.{Answer}
use dragoonfly.SendList.Optimistic.{Lists, no_lists, collect, send_all, optimistic_loop}
use dragoonfly.SendList.Recovery.{
  Recovery, resend_all, returned, settle, retry, on_retry_answer, recuperation, first_peers,
  after_first_loop, send_block_list,
}
use dragoonfly.SendList.Vectors.{count, count-append, position, count-swap_remove}
use dragoonfly.SendList.Answers.{acks, refusals, blocks_of, collect-acks, collect-refusals}

pub Nil-cases {ℓ} :
    {A : Type ℓ} (xs : List A) → (xs ≡ []) ⊎ ((x : A) × (ys : List A) × (xs ≡ x ∷ ys))
Nil-cases [] = inl refl
Nil-cases (x ∷ xs) = inr (x, xs, refl)

acks-cons : (a : Answer) (more : List Answer) → acks (a ∷ []) ++ acks more ≡ acks (a ∷ more)
acks-cons (ok (true, id)) more = refl
acks-cons (ok (false, id)) more = refl
acks-cons (err e) more = refl

-- One answer adds its acknowledgement to the distribution, and takes no block out of both lists.
held : BlockInput → Recovery → ℕ
held b r = count b (blocks_of r.final_block_distribution) + count b r.rejected_blocks

count-settle :
    (b : BlockInput) (id : SendId) (blocks : List BlockInput)
    → count b blocks ≤ count b (settle (block_of id) blocks) + count b (block_of id ∷ [])
count-settle b id blocks = elim (Option-cases (position (block_of id) blocks)) [
  | inl e ↦ ground arith
  | inr (i, e) ↦ ground (arith, count-swap_remove (block_of id) b blocks i e)
]

retry-lists :
    (r r' : Recovery) (id : SendId)
    → retry r id ≡ ok r'
    → (r'.final_block_distribution ≡ r.final_block_distribution)
      × (r'.rejected_blocks ≡ r.rejected_blocks)
unfolding retry
retry-lists r r' id h = ground arith

step_acks :
    (r r' : Recovery) (a : Answer)
    → on_retry_answer r a ≡ ok r'
    → r'.final_block_distribution ≡ r.final_block_distribution ++ acks (a ∷ [])
unfolding on_retry_answer
step_acks r r' (ok (true, id)) h = ground arith
step_acks r r' (ok (false, id)) h = (retry-lists r r' id h).0 ∙ sym (append-nil _)
step_acks r r' (err (send_block_to_error id)) h = (retry-lists r r' id h).0 ∙ sym (append-nil _)
step_acks r r' (err e) h = ground (arith, append-nil r.final_block_distribution)

step_held :
    (b : BlockInput) (r r' : Recovery) (a : Answer)
    → on_retry_answer r a ≡ ok r'
    → held b r ≤ held b r'
unfolding on_retry_answer held
step_held b r r' (ok (true, id)) h =
    subst (λ s. held b r ≤ held b s) (ok-injective h)
      (rw (map-append block_of r.final_block_distribution (id ∷ [])) (
        omega (
          arith,
          count-append b (blocks_of r.final_block_distribution) (block_of id ∷ []),
          count-settle b id r.rejected_blocks,
        )))
step_held b r r' (ok (false, id)) h = ground (arith, retry-lists r r' id h)
step_held b r r' (err (send_block_to_error id)) h = ground (arith, retry-lists r r' id h)
step_held b r r' (err e) h = ground arith

-- A loop that returns has read an answer, and has then stopped or gone on.
recuperation_read :
    (r : Recovery) (a : Answer) (more : List Answer) (sent : List SendId)
    → recuperation r (a ∷ more) ≡ returned (ok sent)
    → (r' : Recovery) × (on_retry_answer r a ≡ ok r')
      × (((sent ≡ r'.final_block_distribution) × (r'.rejected_blocks ≡ []))
          ⊎ (recuperation r' more ≡ returned (ok sent)))
unfolding recuperation
recuperation_read r a more sent h = elim (Result-cases (on_retry_answer r a)) [
  | inr (c, q) ↦ absurd (ground arith)
  | inl (r', q) ↦ (
    r',
    q,
    elim (Nil-cases r'.rejected_blocks) [
      | inl done ↦ inl (ground arith, done)
      | inr (b, bs, left) ↦ inr (ground arith)
    ],
  )
]

recuperation-acks :
    (r : Recovery) (answers : List Answer) (sent : List SendId)
    → recuperation r answers ≡ returned (ok sent)
    → (k : ℕ) × (sent ≡ r.final_block_distribution ++ acks (take k answers))
unfolding recuperation
recuperation-acks r [] sent h = absurd (ground arith)
recuperation-acks r (a ∷ more) sent h =
    let (r', q, rest) = recuperation_read r a more sent h in
    elim rest [
      | inl (e, _) ↦ (1, e ∙ step_acks r r' a q)
      | inr e ↦
          let (k, f) = recuperation-acks r' more sent e in
          (
            suc k,
            f
                ∙ ap (λ l. l ++ acks (take k more)) (step_acks r r' a q)
                ∙ append_assoc r.final_block_distribution (acks (a ∷ [])) (acks (take k more))
                ∙ ap (◌++◌ r.final_block_distribution) (acks-cons a (take k more)),
          )
    ]

recuperation-held :
    (r : Recovery) (answers : List Answer) (sent : List SendId) (b : BlockInput)
    → recuperation r answers ≡ returned (ok sent)
    → held b r ≤ count b (blocks_of sent)
unfolding recuperation held
recuperation-held r [] sent b h = absurd (ground arith)
recuperation-held r (a ∷ more) sent b h =
    let (r', q, rest) = recuperation_read r a more sent h in
    elim rest [
      | inl (e, none_left) ↦ ground (arith, step_held b r r' a q)
      | inr e ↦ ground (arith, step_held b r r' a q, recuperation-held r' more sent b e)
    ]

abbrev lists : List Answer → Lists
lists first = collect no_lists first

-- What the recuperation starts with, besides the peers and the commands.
abbrev Resumed : Lists → List Answer → List SendId → Type 0
Resumed l second sent =
    (r : Recovery) × (r.final_block_distribution ≡ l.final_block_distribution)
    × (r.rejected_blocks ≡ l.rejected_blocks)
    × (recuperation r second ≡ returned (ok sent))

abbrev AtOnce : ℕ → Lists → List SendId → Type 0
AtOnce number l sent =
    (l.rejected_blocks ≡ [])
    × (sent ≡ l.final_block_distribution)
    × (length l.final_block_distribution ≡ number)

after_first_loop_cases :
    (number : ℕ) (l : Lists) (second : List Answer) (sent : List SendId)
    → after_first_loop number l second ≡ returned (ok sent)
    → AtOnce number l sent ⊎ Resumed l second sent
unfolding after_first_loop
after_first_loop_cases number l second sent h = elim (Nil-cases l.rejected_blocks) [
  | inl done ↦ inl (done, ground arith, ground arith)
  | inr (b, bs, left) ↦ elim (Result-cases (resend_all (first_peers l) l.rejected_blocks)) [
    | inr (c, q) ↦ absurd (ground arith)
    | inl ((cmds, s), q) ↦ inr (
      record {
        peers = s;
        rejected_blocks = l.rejected_blocks;
        final_block_distribution = l.final_block_distribution;
        commands = cmds;
      },
      refl,
      refl,
      ground arith,
    )
  ]
]

-- A list that is returned: the first loop refused nothing and sent everything, or the recuperation
-- returned it.
pub send_block_list_cases :
    (number : ℕ) (stream : List SendId) (first second : List Answer) (sent : List SendId)
    → send_block_list number stream first second ≡ returned (ok sent)
    → AtOnce number (collect no_lists first) sent ⊎ Resumed (collect no_lists first) second sent
unfolding send_block_list optimistic_loop
send_block_list_cases number stream first second sent h =
    elim (Result-cases (send_all number stream)) [
      | inr (c, q) ↦ absurd (ground arith)
      | inl (cmds, q) ↦
          after_first_loop_cases number (collect no_lists first) second sent (ground arith)
    ]

-- A returned distribution lists acknowledged sends only: those of the first loop, in the order of their
-- answers, then those of the answers that the recuperation has read.
pub send_block_list-acks :
    (number : ℕ) (stream : List SendId) (first second : List Answer) (sent : List SendId)
    → send_block_list number stream first second ≡ returned (ok sent)
    → (k : ℕ) × (sent ≡ acks first ++ acks (take k second))
send_block_list-acks number stream first second sent h =
    elim (send_block_list_cases number stream first second sent h) [
      | inl (_, e, _) ↦ (0, e ∙ collect-acks no_lists first ∙ sym (append-nil (acks first)))
      | inr (r, e, _, q) ↦
          let (k, f) = recuperation-acks r second sent q in
          (k, f ∙ ap (λ l. l ++ acks (take k second)) (e ∙ collect-acks no_lists first))
    ]

-- If the first loop got an answer about every block, an acknowledgement, a refusal or a failed send, then
-- a returned distribution has every block of the list, as often as it was to be sent.
pub send_block_list_complete :
    (number : ℕ) (stream : List SendId) (first second : List Answer) (sent : List SendId)
    → ((b : BlockInput)
        → count b (blocks_of stream) ≤ count b (blocks_of (acks first)) + count b (refusals first))
    → send_block_list number stream first second ≡ returned (ok sent)
    → (b : BlockInput) → count b (blocks_of stream) ≤ count b (blocks_of sent)
unfolding held
send_block_list_complete number stream first second sent answered h b =
    let acked = collect-acks no_lists first in
    let rs = collect-refusals no_lists first in
    elim (send_block_list_cases number stream first second sent h) [
      | inl (e, f, _) ↦ ground (arith, answered b)
      | inr (r, e, f, q) ↦ ground (arith, answered b, recuperation-held r second sent b q)
    ]
