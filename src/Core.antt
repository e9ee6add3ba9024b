-- ===== src/Core.antt =====
-- The small types of crates/tgin-core/src: facts.rs, ids.rs, envelope.rs and sink.rs.
use tgin.Prelude.{
  ℕ, suc, ◌+◌, ◌-◌, ◌/◌, ◌%◌, ◌^◌, Bool, Option, none, some, List, String, ◌==◌, if◌then◌else◌,
}
use tgin.Prelude.Int.{ℤ, pos, negsuc}

-- `SourceId` and `ConsumerId` are `u16` inside.
abbrev pub SourceId : Type 0
SourceId = ℕ

abbrev pub ConsumerId : Type 0
ConsumerId = ℕ

pub data ChatType : Type 0 where
  private_chat group supergroup channel other : ChatType

-- `self as u8`
abbrev pub ordinal : ChatType → ℕ
ordinal private_chat = 0
ordinal group = 1
ordinal supergroup = 2
ordinal channel = 3
ordinal other = 4

-- `1 << (self as u8)`
abbrev pub bit : ChatType → ℕ
bit t = 2 ^ ordinal t

-- `mask & t.bit() != 0` and `mask | t.bit()`, of one bit.
abbrev pub has_bit : ℕ → ChatType → Bool
has_bit mask t = mask / bit t % 2 == 1

abbrev pub with_bit : ℕ → ChatType → ℕ
with_bit mask t = if has_bit mask t then mask else mask + bit t

pub record Facts : Type 0 where
  pub update_type : String
  pub chat_id : Option ℤ
  pub chat_type : Option ChatType
  pub user_id : Option ℤ
  pub text : Option String
  pub callback_data : Option String
  pub command : Option (String × Option String)

-- `id as u64`, of an `i64`
abbrev pub as_u64 : ℤ → ℕ
as_u64 (pos n) = n
as_u64 (negsuc n) = 2 ^ 64 - suc n

abbrev pub or_else {ℓ} : {A : Type ℓ} → Option A → Option A → Option A
or_else none o = o
or_else (some a) o = some a

abbrev pub option_map {ℓ κ} : {A : Type ℓ} {B : Type κ} → (A → B) → Option A → Option B
option_map f none = none
option_map f (some a) = some (f a)

unfoldable pub ordering_key : Facts → Option ℕ
ordering_key facts = option_map as_u64 (or_else facts.chat_id facts.user_id)

-- A payload is bytes, of which the code uses the length.
pub record Envelope : Type 0 where
  pub source : SourceId
  pub update_id : ℤ
  pub update_type : String
  pub key : Option ℕ
  pub payload : List ℕ
  pub received_at : ℕ

pub data Admit : Type 0 where
  admitted backpressured unroutable : Admit
