-- ===== src/Exchange/Codes.antt =====
-- `ExchangeCode`: one byte on the wire.
use dragoonfly.Base.{ℕ, ◌≡◌, refl, Option, none, some, arith, nat_beq, if◌then◌else◌}

pub data ExchangeCode : Type 0 where
  accept_block_send reject_block_send block_is_correct block_is_incorrect : ExchangeCode

-- `answer as u8` under `#[repr(u8)]`: the variants count from 0.
unfoldable pub to_u8 : ExchangeCode → ℕ
to_u8 accept_block_send = 0
to_u8 reject_block_send = 1
to_u8 block_is_correct = 2
to_u8 block_is_incorrect = 3

-- `FromRepr`
unfoldable pub from_repr : ℕ → Option ExchangeCode
from_repr b =
    if nat_beq b 0
    then some accept_block_send
    else if nat_beq b 1
    then some reject_block_send
    else if nat_beq b 2
    then some block_is_correct
    else if nat_beq b 3
    then some block_is_incorrect
    else none

pub from_repr-to_u8 : (c : ExchangeCode) → from_repr (to_u8 c) ≡ some c
unfolding from_repr to_u8
from_repr-to_u8 accept_block_send = refl
from_repr-to_u8 reject_block_send = refl
from_repr-to_u8 block_is_correct = refl
from_repr-to_u8 block_is_incorrect = refl

-- Each code is read back from its byte, and a byte is read as a code only if it is that code's byte, so
-- every other byte is refused.
pub from_repr_iff :
    (b : ℕ) (c : ExchangeCode)
    → ((from_repr b ≡ some c) → (b ≡ to_u8 c)) × ((b ≡ to_u8 c) → (from_repr b ≡ some c))
unfolding from_repr to_u8
from_repr_iff b accept_block_send = (λ h. ground arith, λ h. ground arith)
from_repr_iff b reject_block_send = (λ h. ground arith, λ h. ground arith)
from_repr_iff b block_is_correct = (λ h. ground arith, λ h. ground arith)
from_repr_iff b block_is_incorrect = (λ h. ground arith, λ h. ground arith)
