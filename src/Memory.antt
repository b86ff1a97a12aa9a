-- ===== src/Memory.antt =====
-- The memory of the control groups of the monitored servers: the data types of src/memory.rs.
pub mod Parse
pub mod Resolve
pub mod Slope
pub mod Sampler
use opencode_beacon.Prelude.{
  ℕ, ◌*◌, Bool, Option, none, some, List, ◌≡◌, ◌↔◌, ◌&&◌, eqb, arith, true, [],
}
use opencode_beacon.Prelude.Integers.{ℤ}
use opencode_beacon.Prelude.Table.{Key, Table}
use opencode_beacon.Prelude.Files.{FilePath}

-- Times are in nanoseconds since the earliest moment that an `Instant` can be.
abbrev pub second : ℕ
second = 1000000000

abbrev pub history_window : ℕ
history_window = 2 * 60 * 60 * second

abbrev pub slope_window : ℕ
slope_window = 30 * 60 * second

abbrev pub max_history_samples : ℕ
max_history_samples = 721

pub record CgroupKey : Type 0 where
  pub device : ℕ
  pub inode : ℕ

-- `==` on the keys
unfoldable pub cgroup_eq : CgroupKey → CgroupKey → Bool
cgroup_eq a b = eqb a.device b.device && eqb a.inode b.inode

pub cgroup_eq_iff : (a b : CgroupKey) → (cgroup_eq a b ≡ true) ↔ (a ≡ b)
unfolding cgroup_eq
cgroup_eq_iff a b = ground arith

abbrev pub cgroup_key : Key CgroupKey
cgroup_key = record { same = cgroup_eq; same_iff = cgroup_eq_iff }

pub record MemoryValues : Type 0 where
  pub current : ℕ
  pub peak : Option ℕ
  pub swap : ℕ
  pub anon : ℕ
  pub file : ℕ
  pub kernel : ℕ

pub data MemoryAvailability : Type 0 where
  fresh stale unavailable : MemoryAvailability

pub record MemoryView : Type 0 where
  pub availability : MemoryAvailability
  pub values : Option MemoryValues
  pub observed_peak : Option ℕ
  pub slope_bytes_per_minute : Option ℤ
  pub scope : Option CgroupKey
  pub shared : Bool

-- `MemoryView::unavailable`
abbrev pub unavailable_view : Option CgroupKey → Bool → MemoryView
unavailable_view scope shared = record {
  availability = unavailable;
  values = none;
  observed_peak = none;
  slope_bytes_per_minute = none;
  scope = scope;
  shared = shared;
}

pub record InstanceTarget : Type 0 where
  pub pid : ℕ
  pub start_time : Option ℕ
  pub scope : Option CgroupKey

pub record ResolvedScope : Type 0 where
  pub key : CgroupKey
  pub path : FilePath

-- A sample: when it was taken, and the bytes in use. The oldest sample is the first.
abbrev pub Sample : Type 0
Sample = ℕ × ℕ

pub record ScopeHistory : Type 0 where
  pub path : FilePath
  pub values : Option MemoryValues
  pub observed_peak : Option ℕ
  pub samples : List Sample
  pub sampled_at : Option ℕ

abbrev pub new_history : FilePath → ScopeHistory
new_history path = record {
  path = path;
  values = none;
  observed_peak = none;
  samples = [];
  sampled_at = none;
}
