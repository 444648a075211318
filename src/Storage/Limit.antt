-- ===== src/Storage/Limit.antt =====
-- A change of the storage size.
use dragoonfly.Base.{ℕ, ◌+◌, ◌-◌, ◌%◌, ◌<◌, ◌≡◌, List, arith}
use native.Mathlib.Nat.{mod-eq_of_lt}
use dragoonfly.Exchange.World.{usize_mod}
use dragoonfly.Storage.Ledger.{Ledger, change_available_send_storage, get_available_storage}
use dragoonfly.Storage.Race.{Loaded, Shared, Reach, here, next, records}

-- A change to more than is used, while exchanges run, forgets what these have set aside: if they are then
-- recorded, and what is used stays a usize, the free and the used storage exceed the new size by all that
-- was set aside.
pub change_exceeds :
    (size : ℕ) (l : Ledger) (choosing : List Loaded)
    → l.used < size
    → l.used + l.reserved < usize_mod
    → let m = (change_available_send_storage size l).1 in
      (k : Shared) × Reach (record { ledger = m; choosing = choosing }) k
      × (get_available_storage k.ledger + k.ledger.used ≡ size + l.reserved)
unfolding change_available_send_storage get_available_storage
change_exceeds size l choosing h fits =
    let m = (change_available_send_storage size l).1 in
    let used : (m.used + m.reserved) % usize_mod ≡ m.used + m.reserved =
      mod-eq_of_lt (ground (arith, fits)) in
    (
      record {
        ledger = record m {
          used = (m.used + m.reserved) % usize_mod;
          reserved = m.reserved - m.reserved;
        };
        choosing = choosing;
      },
      next here (records m.reserved (omega arith)),
      ground (arith, used),
    )
