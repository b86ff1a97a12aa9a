-- ===== src/Memory/Resolve.antt =====
-- `read_start_time`, `resolve_scope`, `read_u64` and `read_memory_values` (src/memory.rs). Other
-- processes change files at any time, so each call has the files of its own moment: `files n` is
-- what the n-th call of the routine meets.
pub mod Identity
use opencode_beacon.Prelude.{
  ℕ, Bool, true, false, Option, none, some, List, [], ◌∷◌, ◌++◌, not, eqb, if◌then◌else◌, ◌≡◌, refl,
  arith, filter,
}
use opencode_beacon.Prelude.Chars.{Chars, is_whitespace, parse_number, u64_max}
use opencode_beacon.Prelude.Files.{
  ErrorKind, file_missing, invalid_data, other_error, IoResult, done, failed, and_then, or_invalid,
  FilePath, join, below, starts_with, Files, decimal,
}
use opencode_beacon.Memory.{CgroupKey, MemoryValues, ResolvedScope}
use opencode_beacon.Memory.Parse.{
  parse_start_time, parse_unified_cgroup, parse_memory_stat, parse_u64,
}

-- "stat" and "cgroup"
abbrev stat_name : Chars
stat_name = 115 ∷ 116 ∷ 97 ∷ 116 ∷ []

abbrev pub cgroup_name : Chars
cgroup_name = 99 ∷ 103 ∷ 114 ∷ 111 ∷ 117 ∷ 112 ∷ []

unfoldable pub process_file : FilePath → ℕ → Chars → FilePath
unfolding decimal
process_file proc_root pid name = join proc_root (below (decimal pid ∷ name ∷ []))

unfoldable pub read_start_time : Files → FilePath → ℕ → IoResult ℕ
unfolding parse_start_time process_file
read_start_time files proc_root pid =
    and_then (files.read_to_string (process_file proc_root pid stat_name)) parse_start_time

-- The start time is read, and compared with the expected one.
unfoldable pub check_start_time : Files → FilePath → ℕ → ℕ → IoResult Bool
unfolding read_start_time
check_start_time files proc_root pid expected =
    and_then (read_start_time files proc_root pid)
      (λ start. if not (eqb start expected) then failed invalid_data else done true)

-- The reads between the first check of the start time and the second: the canonical root, and the
-- canonical path of the process's group.
unfoldable pub locate_scope : (ℕ → Files) → FilePath → FilePath → ℕ → IoResult (FilePath × FilePath)
unfolding parse_unified_cgroup process_file
locate_scope files proc_root cgroup_root pid =
    and_then ((files 1).read_to_string (process_file proc_root pid cgroup_name)) (λ cgroup.
      and_then (parse_unified_cgroup cgroup) (λ relative.
        and_then ((files 2).canonicalize cgroup_root) (λ canonical_root.
          and_then ((files 3).canonicalize (join canonical_root relative))
            (λ canonical_path. done (canonical_root, canonical_path)))))

-- The rest, from the second check on.
unfoldable pub identify_scope : (ℕ → Files) → FilePath → ℕ → ℕ → FilePath → IoResult ResolvedScope
unfolding check_start_time
identify_scope files proc_root pid expected canonical_path =
    and_then (check_start_time (files 4) proc_root pid expected) (λ _.
      and_then ((files 5).metadata canonical_path) (λ metadata.
        and_then (check_start_time (files 6) proc_root pid expected) (λ _. done (record {
          key = record { device = metadata.dev; inode = metadata.ino };
          path = canonical_path;
        }))))

unfoldable pub resolve_scope : (ℕ → Files) → FilePath → FilePath → ℕ → ℕ → IoResult ResolvedScope
unfolding check_start_time locate_scope identify_scope starts_with
resolve_scope files proc_root cgroup_root pid expected =
    and_then (check_start_time (files 0) proc_root pid expected) (λ _.
      and_then (locate_scope files proc_root cgroup_root pid) (λ found.
        if not (starts_with found.1 found.0)
        then failed invalid_data
        else identify_scope files proc_root pid expected found.1))

-- `str::trim`
drop_space : Chars → Chars
unfolding is_whitespace
drop_space [] = []
drop_space (c ∷ cs) = let rest = drop_space cs in if is_whitespace c then rest else c ∷ cs

drop_end_space : Chars → Chars
unfolding is_whitespace
drop_end_space [] = []
drop_end_space (c ∷ cs) = elim (drop_end_space cs) [
  | [] ↦ if is_whitespace c then [] else c ∷ []
  | d ∷ ds ↦ c ∷ d ∷ ds
]

unfoldable pub trim : Chars → Chars
unfolding drop_space drop_end_space
trim s = drop_space (drop_end_space s)

unfoldable pub read_u64 : Files → FilePath → IoResult ℕ
unfolding trim parse_number
read_u64 files path = and_then (files.read_to_string path) (λ text. parse_u64 (trim text))

-- A missing `memory.peak` is no error.
unfoldable pub optional : IoResult ℕ → IoResult (Option ℕ)
optional (done peak) = done (some peak)
optional (failed file_missing) = done none
optional (failed invalid_data) = failed invalid_data
optional (failed other_error) = failed other_error

-- "memory.current", "memory.peak", "memory.swap.current" and "memory.stat"
abbrev memory_dot : Chars
memory_dot = 109 ∷ 101 ∷ 109 ∷ 111 ∷ 114 ∷ 121 ∷ 46 ∷ []

abbrev current_name : Chars
current_name = 99 ∷ 117 ∷ 114 ∷ 114 ∷ 101 ∷ 110 ∷ 116 ∷ []

abbrev memory_current : Chars
memory_current = memory_dot ++ current_name

abbrev memory_peak : Chars
memory_peak = memory_dot ++ (112 ∷ 101 ∷ 97 ∷ 107 ∷ [])

abbrev memory_swap_current : Chars
memory_swap_current = memory_dot ++ (115 ∷ 119 ∷ 97 ∷ 112 ∷ 46 ∷ current_name)

abbrev memory_stat : Chars
memory_stat = memory_dot ++ stat_name

abbrev file_in : FilePath → Chars → FilePath
file_in path name = join path (below (name ∷ []))

unfoldable pub read_memory_values : (ℕ → Files) → FilePath → IoResult MemoryValues
unfolding read_u64 optional parse_memory_stat
read_memory_values files path =
    and_then (read_u64 (files 0) (file_in path memory_current)) (λ current.
      and_then (optional (read_u64 (files 1) (file_in path memory_peak))) (λ peak.
        and_then (read_u64 (files 2) (file_in path memory_swap_current)) (λ swap.
          and_then ((files 3).read_to_string (file_in path memory_stat)) (λ text.
            and_then (parse_memory_stat text) (λ stat. done (record {
              current = current;
              peak = peak;
              swap = swap;
              anon = stat.0;
              file = stat.1;
              kernel = stat.2;
            }))))))
