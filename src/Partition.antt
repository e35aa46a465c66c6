-- ===== src/Partition.antt =====
-- swale/src/partition.rs: the partition key of an asset. The civil time of a timestamp is a
-- parameter, since the crate `chrono` computes it.
pub mod Keys
pub mod Examples
use swale.Base.{
  ℕ, ◌-◌, ◌^◌, Bool, true, false, not, ◌&&◌, ◌||◌, Option, none, some, List, [], ◌∷◌, ◌++◌, Text,
  length, all, leb, ltb, ◌==◌, if◌then◌else◌, codes, pad, is_ascii_alphanumeric,
}
use swale.Graph.{Partitioning, daily, hourly, unpartitioned, is_empty}

-- `MAX_PARTITION_LEN`
abbrev pub max_partition_len : ℕ
max_partition_len = 16

-- `UNPARTITIONED`
abbrev pub unpartitioned_key : Text
unpartitioned_key = codes "none"

-- `Partition`, a newtype of its text
pub record Partition : Type 0 where
  pub key : Text

abbrev pub is_partition_byte : ℕ → Bool
is_partition_byte b = is_ascii_alphanumeric b || b == b'_'

unfoldable pub is_partition : Text → Bool
is_partition t = not (is_empty t) && leb (length t) max_partition_len && all is_partition_byte t

-- `Partition::new`; `none` is `InvalidPartition`
unfoldable pub new : Text → Option Partition
new t = if is_partition t then some (record { key = t }) else none

-- `Partition::none`
abbrev pub unpartitioned_partition : Partition
unpartitioned_partition = record { key = unpartitioned_key }

-- the fields of `chrono::DateTime<Utc>` that the program reads
pub record CivilTime : Type 0 where
  pub year : ℕ
  pub month : ℕ
  pub day : ℕ
  pub hour : ℕ

-- `i64::MAX`
abbrev pub i64_max : ℕ
i64_max = 2 ^ 63 - 1

unfoldable pub date_key : CivilTime → Text
date_key c = pad 4 c.year ++ (pad 2 c.month ++ pad 2 c.day)

unfoldable pub time_key : Partitioning → CivilTime → Partition
time_key daily c = record { key = date_key c }
time_key hourly c = record { key = date_key c ++ (b'T' ∷ pad 2 c.hour) }
time_key unpartitioned c = unpartitioned_partition

-- `Partition::of_time`, over `DateTime::from_timestamp_millis`
unfoldable pub of_time : (ℕ → Option CivilTime) → Partitioning → ℕ → Option Partition
unfolding time_key date_key
of_time from_timestamp_millis partitioning ms =
    if leb ms i64_max
    then elim (from_timestamp_millis ms) [
      | none ↦ none
      | some c ↦ if ltb 9999 c.year then none else some (time_key partitioning c)
    ]
    else none
