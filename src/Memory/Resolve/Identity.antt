-- ===== src/Memory/Resolve/Identity.antt =====
-- What a successful `resolve_scope` has checked (src/memory.rs).
use opencode_beacon.Prelude.{
  ℕ, Bool, true, not, eqb, if◌then◌else◌, ◌≡◌, refl, arith, Bool-cases, inl, inr, sym, ◌∙◌, ap,
}
use opencode_beacon.Prelude.Files.{
  done, failed, IoResult-cases, FilePath, starts_with, Files, and_then, invalid_data, and_then-done,
  join,
}
use opencode_beacon.Memory.{ResolvedScope}
use opencode_beacon.Memory.Resolve.{
  read_start_time, check_start_time, resolve_scope, cgroup_name, process_file, and_then,
  invalid_data, parse_unified_cgroup, join, locate_scope, identify_scope,
}

check-read :
    (files : Files) (proc_root : FilePath) (pid expected : ℕ)
    → check_start_time files proc_root pid expected
      ≡ and_then
          (read_start_time files proc_root pid)
          (λ start. if not (eqb start expected) then failed invalid_data else done true)
unfolding check_start_time
check-read files proc_root pid expected = refl

check-done :
    (files : Files) (proc_root : FilePath) (pid expected : ℕ) (b : Bool)
    → check_start_time files proc_root pid expected ≡ done b
    → read_start_time files proc_root pid ≡ done expected
check-done files proc_root pid expected b h =
    elim (IoResult-cases (read_start_time files proc_root pid)) [
      | inl (a, e) ↦ ground (arith, e, h, check-read files proc_root pid expected)
      | inr (err, e) ↦ absurd (ground (arith, e, h, check-read files proc_root pid expected))
    ]

-- The process had its start time before, during and after the lookup; the path lies below the
-- canonical root; and the key is what the file system says of that path.
pub record IsIdentified (files : ℕ → Files) (proc_root cgroup_root : FilePath) (pid start : ℕ)
    (r : ResolvedScope) : Type 0 where
  pub first_read : read_start_time (files 0) proc_root pid ≡ done start
  pub second_read : read_start_time (files 4) proc_root pid ≡ done start
  pub last_read : read_start_time (files 6) proc_root pid ≡ done start
  pub inside :
      (root : FilePath) × ((files 2).canonicalize cgroup_root ≡ done root)
      × (starts_with r.path root ≡ true)
  pub keyed : (files 5).metadata r.path ≡ done (record { dev = r.key.device; ino = r.key.inode })

module _ (files : ℕ → Files) (proc_root cgroup_root : FilePath) (pid start : ℕ) where
  locate_scope-reads :
      locate_scope files proc_root cgroup_root pid
      ≡ and_then ((files 1).read_to_string (process_file proc_root pid cgroup_name)) (λ cgroup.
        and_then (parse_unified_cgroup cgroup) (λ relative.
          and_then ((files 2).canonicalize cgroup_root) (λ canonical_root.
            and_then
              ((files 3).canonicalize (join canonical_root relative))
              (λ canonical_path. done (canonical_root, canonical_path)))))
  unfolding locate_scope
  locate_scope-reads = refl

  locate_scope-done :
      (found : FilePath × FilePath)
      → locate_scope files proc_root cgroup_root pid ≡ done found
      → (files 2).canonicalize cgroup_root ≡ done found.0
  locate_scope-done found h =
      let (cgroup, e1, h1) =
        and_then-done ((files 1).read_to_string (process_file proc_root pid cgroup_name)) _ found
          (sym locate_scope-reads ∙ h) in
      let (relative, e2, h2) = and_then-done (parse_unified_cgroup cgroup) _ found h1 in
      let (root, e3, h3) = and_then-done ((files 2).canonicalize cgroup_root) _ found h2 in
      let (path, e4, h4) = and_then-done ((files 3).canonicalize (join root relative)) _ found h3 in
      ground (arith, e3, h4)

  identify_scope-reads :
      (path : FilePath)
      → identify_scope files proc_root pid start path
        ≡ and_then (check_start_time (files 4) proc_root pid start) (λ _.
          and_then ((files 5).metadata path) (λ metadata.
            and_then (check_start_time (files 6) proc_root pid start) (λ _. done (record {
              key = record { device = metadata.dev; inode = metadata.ino };
              path = path;
            }))))
  unfolding identify_scope
  identify_scope-reads path = refl

  identify_scope-done :
      (path : FilePath) (r : ResolvedScope)
      → identify_scope files proc_root pid start path ≡ done r
      → (read_start_time (files 4) proc_root pid ≡ done start)
        × (read_start_time (files 6) proc_root pid ≡ done start)
        × ((files 5).metadata path ≡ done (record { dev = r.key.device; ino = r.key.inode }))
        × (r.path ≡ path)
  identify_scope-done path r h =
      let (a, e1, h1) =
        and_then-done (check_start_time (files 4) proc_root pid start) _ r
          (sym (identify_scope-reads path) ∙ h) in
      let (metadata, e2, h2) = and_then-done ((files 5).metadata path) _ r h1 in
      let (b, e3, h3) = and_then-done (check_start_time (files 6) proc_root pid start) _ r h2 in
      (
        check-done (files 4) proc_root pid start a e1,
        check-done (files 6) proc_root pid start b e3,
        ground (arith, e2, h3),
        ground (arith, h3),
      )

resolve_scope-stages :
    (files : ℕ → Files) (proc_root cgroup_root : FilePath) (pid start : ℕ)
    → resolve_scope files proc_root cgroup_root pid start
      ≡ and_then (check_start_time (files 0) proc_root pid start) (λ _.
        and_then (locate_scope files proc_root cgroup_root pid) (λ found.
          if not (starts_with found.1 found.0)
          then failed invalid_data
          else identify_scope files proc_root pid start found.1))
unfolding resolve_scope
resolve_scope-stages files proc_root cgroup_root pid start = refl

-- Where the lookup of a process's control group succeeds, the start time read before, between and
-- after the other reads is the expected one, the path is inside the canonical root of the
-- hierarchy, and the key has the device and the inode of that path.
pub resolve_scope-IsIdentified :
    (files : ℕ → Files) (proc_root cgroup_root : FilePath) (pid start : ℕ) (r : ResolvedScope)
    → resolve_scope files proc_root cgroup_root pid start ≡ done r
    → IsIdentified files proc_root cgroup_root pid start r
resolve_scope-IsIdentified files proc_root cgroup_root pid start r h =
    let (a, e1, h1) =
      and_then-done (check_start_time (files 0) proc_root pid start) _ r
        (sym (resolve_scope-stages files proc_root cgroup_root pid start) ∙ h) in
    let (found, e2, h2) = and_then-done (locate_scope files proc_root cgroup_root pid) _ r h1 in
    elim (Bool-cases (starts_with found.1 found.0)) [
      | inr outside ↦ absurd (ground (arith, h2, outside))
      | inl inside ↦
          let (second_read, last_read, keyed, same) =
            identify_scope-done files proc_root cgroup_root pid start found.1 r
              (ground (arith, h2, inside)) in
          record {
            first_read = check-done (files 0) proc_root pid start a e1;
            second_read = second_read;
            last_read = last_read;
            inside = (
              found.0,
              locate_scope-done files proc_root cgroup_root pid start found e2,
              ap (λ x. starts_with x found.0) same ∙ inside,
            );
            keyed = ap (files 5).metadata same ∙ keyed;
          }
    ]
