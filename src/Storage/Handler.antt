-- ===== src/Storage/Handler.antt =====
-- `SendBlockHandler::run` of send_block_to.rs: the loop that takes streams from other nodes, and the
-- semaphore that bounds how many of them it handles at once.
use dragoonfly.Base.{
  ℕ, ◌+◌, ◌-◌, ◌≤◌, ◌<◌, ◌≡◌, refl, Bool, true, false, Bool-cases, ◌⊎◌, inl, inr, ltb, arith,
}
use dragoonfly.Network.SendBlockTo.{weight}

-- The permits that are left, whether the loop holds one, the tasks that run, each with a permit, and
-- whether the loop has returned.
pub record Handler : Type 0 where
  pub permits : ℕ
  pub permit : Bool
  pub running : ℕ
  pub returned : Bool

abbrev pub max_send_request : ℕ
max_send_request = 10

abbrev pub started : Handler
started = record { permits = max_send_request; permit = false; running = 0; returned = false }

-- The loop acquires a permit; a stream comes, and a task is spawned that owns the permit; or there are
-- no more streams, and the loop returns, which drops its permit. A task drops its permit when its
-- exchange has ended, well or not.
pub data Step (h : Handler) : Handler → Type 0 where
  acquires :
      h.returned ≡ false
      → h.permit ≡ false
      → 0 < h.permits
      → Step h (record h { permits = h.permits - 1; permit = true })
  spawns : h.permit ≡ true → Step h (record h { permit = false; running = h.running + 1 })
  returns :
      h.permit ≡ true
      → Step h (record h { permits = h.permits + 1; permit = false; returned = true })
  ends : 0 < h.running → Step h (record h { permits = h.permits + 1; running = h.running - 1 })

pub data Reach (h : Handler) : Handler → Type 0 where
  here : Reach h h
  next : {i j : Handler} → Reach h i → Step i j → Reach h j

-- Each permit is left, with the loop, or with a task.
abbrev IsAccounted : Handler → Type 0
IsAccounted h = h.permits + weight h.permit + h.running ≡ max_send_request

Step-IsAccounted : {h i : Handler} → Step h i → IsAccounted h → IsAccounted i
Step-IsAccounted (acquires r p some_left) a = ground arith
Step-IsAccounted (spawns p) a = ground arith
Step-IsAccounted (returns p) a = ground arith
Step-IsAccounted (ends some_run) a = ground arith

Reach-IsAccounted : {h i : Handler} → Reach h i → IsAccounted h → IsAccounted i
Reach-IsAccounted here a = a
Reach-IsAccounted (next r s) a = Step-IsAccounted s (Reach-IsAccounted r a)

takes_next :
    (h : Handler)
    → h.returned ≡ false
    → IsAccounted h
    → (h.running ≡ max_send_request) ⊎ ((i : Handler) × Reach h i × (i.running ≡ h.running + 1))
takes_next h still a = elim (Bool-cases h.permit) [
  | inl held ↦
      inr (record h { permit = false; running = h.running + 1 }, next here (spawns held), refl)
  | inr free ↦ elim (Bool-cases (ltb 0 h.permits)) [
    | inl some_left ↦ inr (
      record h { permits = h.permits - 1; permit = false; running = h.running + 1 },
      next (next here (acquires still free (ground (arith, some_left)))) (spawns refl),
      refl,
    )
    | inr none_left ↦ inl (ground (arith, a, free, none_left))
  ]
]

-- At most ten exchanges run at once; and as long as the loop has not returned and fewer than ten run, the
-- loop can go on to take the next stream: some steps lead to a state in which one more exchange runs.
pub Reach-at_most_ten :
    {h : Handler}
    → Reach started h
    → (h.running ≤ max_send_request)
      × ((h.returned ≡ true)
          ⊎ ((h.running ≡ max_send_request)
              ⊎ ((i : Handler) × Reach h i × (i.running ≡ h.running + 1))))
Reach-at_most_ten {h} r =
    let a = Reach-IsAccounted r (omega arith) in
    (
      omega (arith, a),
      elim (Bool-cases h.returned) [ inl over ↦ inl over | inr still ↦ inr (takes_next h still a) ],
    )
