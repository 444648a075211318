-- ===== src/Storage/Race.antt =====
-- The storage counters by their atomic operations: several exchanges run at once, and between the load of
-- `choose_response_to_send_request` and its store another exchange may load or store.
use dragoonfly.Base.{
  ℕ, ◌+◌, ◌-◌, ◌%◌, ◌<◌, ◌≤◌, ◌≡◌, refl, List, [], ◌∷◌, ◌++◌, arith, ltb, if◌then◌else◌, inl, inr,
  Bool-cases, some,
}
use dragoonfly.Exchange.World.{World, usize_mod}
use dragoonfly.Storage.Ledger.{Ledger}
use dragoonfly.Exchange.Receiver.{choose}

-- An exchange between its load and its store: the size that it asks for, and what it has loaded.
pub record Loaded : Type 0 where
  pub size : ℕ
  pub seen : ℕ

-- The counters, with the storage that accepted exchanges have set aside, and the exchanges in between.
pub record Shared : Type 0 where
  pub ledger : Ledger
  pub choosing : List Loaded

-- The load at the start of a choice.
unfoldable pub load : ℕ → Shared → Shared
load size s = record s { choosing = record { size = size; seen = s.ledger.available } ∷ s.choosing }

-- The rest of a choice: the test and, where it holds, the store.
unfoldable pub store : Loaded → Shared → Shared
store l s =
    if ltb l.size l.seen
    then record s {
      ledger = record s.ledger {
        available = l.seen - l.size;
        reserved = s.ledger.reserved + l.size;
      };
    }
    else s

-- An exchange that fails gives back what it has set aside, and one that has ended well has it recorded as
-- used; both additions wrap.
pub data Step (s : Shared) : Shared → Type 0 where
  loads : (size : ℕ) → Step s (load size s)
  stores :
      (before after : List Loaded) (l : Loaded)
      → s.choosing ≡ before ++ l ∷ after
      → Step s (store l (record s { choosing = before ++ after }))
  frees :
      (n : ℕ)
      → n ≤ s.ledger.reserved
      → Step s (record s {
        ledger = record s.ledger {
          available = (s.ledger.available + n) % usize_mod;
          reserved = s.ledger.reserved - n;
        };
      })
  records :
      (n : ℕ)
      → n ≤ s.ledger.reserved
      → Step s (record s {
        ledger = record s.ledger {
          used = (s.ledger.used + n) % usize_mod;
          reserved = s.ledger.reserved - n;
        };
      })

pub data Reach (s : Shared) : Shared → Type 0 where
  here : Reach s s
  next : {t u : Shared} → Reach s t → Step t u → Reach s u

-- A choice whose load and store follow one another is the choice of the receiver: it leaves the same
-- counter, sets aside the size that the receiver is told, and keeps the free and the reserved storage
-- in balance.
pub choose-store :
    (size : ℕ) (more : List ℕ) (w : World) (s : Shared)
    → s.ledger.available ≡ w.available_storage
    → let r = choose (some (size ∷ more)) w in
      let t = store (record { size = size; seen = s.ledger.available }) s in
      (t.ledger.available ≡ r.1.available_storage)
      × (t.ledger.reserved ≡ s.ledger.reserved + r.0.1)
      × (t.ledger.available + t.ledger.reserved ≡ s.ledger.available + s.ledger.reserved)
unfolding store
choose-store size more w s same = elim (Bool-cases (ltb size w.available_storage)) [
  | inl room ↦ ground arith
  | inr full ↦ ground arith
]

-- Two exchanges that both load before either stores are both accepted if each fits by itself, each against
-- the whole counter: the first store is lost, so that the free and the reserved storage grow together by
-- the size of the first.
pub Reach-lost_update :
    (s : Shared) (a b : ℕ)
    → a < s.ledger.available
    → b < s.ledger.available
    → (t : Shared) × Reach s t
      × (t.choosing ≡ s.choosing)
      × (t.ledger.reserved ≡ s.ledger.reserved + a + b)
      × (t.ledger.available + t.ledger.reserved ≡ s.ledger.available + s.ledger.reserved + a)
unfolding load store
Reach-lost_update s a b ha hb =
    let la : Loaded = record { size = a; seen = s.ledger.available } in
    let lb : Loaded = record { size = b; seen = s.ledger.available } in
    let u = store la (record (load b (load a s)) { choosing = lb ∷ s.choosing }) in
    let t = store lb (record u { choosing = s.choosing }) in
    (
      t,
      next (next (next (next here (loads a)) (loads b)) (stores (lb ∷ []) s.choosing la refl))
          (stores [] s.choosing lb (ground arith)),
      ground arith,
      ground arith,
      ground arith,
    )
