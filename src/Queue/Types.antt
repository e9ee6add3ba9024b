-- ===== src/Queue/Types.antt =====
-- The data of crates/tgin-runtime/src/queue.rs. Instants and durations are nanoseconds.
use tgin.Prelude.{ℕ, Option, List, String}
use tgin.Prelude.Int.{ℤ}

pub data Ordering : Type 0 where
  -- `Ordering::None`
  any_order : Ordering
  per_key : Ordering

pub data OnFull : Type 0 where
  backpressure drop_oldest : OnFull

pub record QueueConfig : Type 0 where
  pub capacity : ℕ
  pub capacity_bytes : ℕ
  pub lease_timeout : ℕ
  pub ordering : Ordering
  pub on_full : OnFull

abbrev pub HolderId : Type 0
HolderId = String

-- `Full::Items`, `Full::Bytes`, `Full::TooLarge`.
pub data Full : Type 0 where
  items_full bytes_full too_large : Full

-- `granted_by` stands for the pointer to the queue's reservations.
pub record Permit : Type 0 where
  pub evicted : ℕ
  pub size : ℕ
  pub granted_by : ℕ

pub record ForeignPermit (T : Type 0) : Type 0 where
  pub permit : Permit
  pub item : T

pub record Lease (T : Type 0) : Type 0 where
  pub seq : ℕ
  pub ack_id : ℤ
  pub item : T

pub record QueueStats : Type 0 where
  pub available : ℕ
  pub leased : ℕ
  pub reserved : ℕ
  pub bytes : ℕ

pub record Holding : Type 0 where
  pub holder : HolderId
  pub deadline : Option ℕ

pub record Entry (T : Type 0) : Type 0 where
  pub item : T
  pub key : Option ℕ
  pub ack_id : ℤ
  pub size : ℕ
  pub lease : Option Holding

pub record Inner (T : Type 0) : Type 0 where
  pub cfg : QueueConfig
  pub entries : List (ℕ × Entry T)
  pub available : List ℕ
  pub eligible : List ℕ
  pub queued_per_key : List (ℕ × List ℕ)
  pub leases : List (HolderId × List ℕ)
  pub leased_per_key : List (ℕ × ℕ)
  pub next_seq : ℕ
  pub bytes : ℕ
  pub leased_bytes : ℕ

-- `reserved_items` and `reserved_bytes` are the atomics of `Reservations`, `reservations` stands for
-- the pointer to them, and `wakes` counts the calls of `notify_waiters`.
pub record LeaseQueue (T : Type 0) : Type 0 where
  pub inner : Inner T
  pub reserved_items : ℕ
  pub reserved_bytes : ℕ
  pub reservations : ℕ
  pub wakes : ℕ
