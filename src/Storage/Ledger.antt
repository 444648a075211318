-- ===== src/Storage/Ledger.antt =====
-- The two atomic counters, `current_available_storage_for_send` and
-- `current_total_size_of_blocks_on_disk`, and the storage that running exchanges have set aside.
use dragoonfly.Base.{ℕ, ◌-◌, leb, if◌then◌else◌}

pub record Ledger : Type 0 where
  pub available : ℕ
  pub used : ℕ
  pub reserved : ℕ

-- The text of the answer to ChangeAvailableSendStorage, as the data that it is formatted from.
pub data StorageAnswer : Type 0 where
  no_more_blocks : ℕ → ℕ → StorageAnswer
  remaining : ℕ → ℕ → ℕ → StorageAnswer

-- The branch `GetAvailableStorage` of `handle_command`.
unfoldable pub get_available_storage : Ledger → ℕ
get_available_storage l = l.available

-- The branch `ChangeAvailableSendStorage`.
unfoldable pub change_available_send_storage : ℕ → Ledger → StorageAnswer × Ledger
change_available_send_storage new_storage_size l =
    if leb new_storage_size l.used
    then (no_more_blocks new_storage_size l.used, record l { available = 0 })
    else (
      remaining new_storage_size l.used (new_storage_size - l.used),
      record l { available = new_storage_size - l.used },
    )
