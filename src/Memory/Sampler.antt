-- ===== src/Memory/Sampler.antt =====
-- `CgroupMemorySampler` (src/memory.rs). The calls of the file system are numbered where they
-- happen, so that files may change between any two of them.
pub mod History
pub mod Rounds
pub mod Readings
pub mod Invariant
use opencode_beacon.Prelude.{
  ℕ, suc, ◌+◌, Bool, true, false, Option, none, some, List, [], ◌∷◌, ◌++◌, map, any, count, length,
  not, ◌&&◌, ◌||◌, eqb, ltb, leb, if◌then◌else◌, is_some, is_some_and, unwrap_or, ◌≡◌, refl, arith,
}
use opencode_beacon.Prelude.Table.{Table, lookup, insert, remove, retain}
use opencode_beacon.Prelude.Files.{IoResult, done, failed, FilePath, same_path, is_done_and, Files}
use opencode_beacon.Model.Keys.{instance_key}
use opencode_beacon.Model.{InstanceKey, linux_procfs, managed_service, InstanceSource}
use opencode_beacon.Events.{BeaconEvent, server_found, server_removed}
use opencode_beacon.Memory.{
  CgroupKey, cgroup_key, cgroup_eq, MemoryValues, MemoryView, MemoryAvailability, fresh, stale,
  unavailable_view, InstanceTarget, ResolvedScope, Sample, ScopeHistory, new_history,
  max_history_samples,
}
use opencode_beacon.Memory.Resolve.{read_start_time, resolve_scope, read_memory_values}
use opencode_beacon.Memory.Slope.{slope, prune_history}

pub record CgroupMemorySampler : Type 0 where
  pub proc_root : FilePath
  pub cgroup_root : FilePath
  pub instances : Table InstanceKey InstanceTarget
  pub scopes : Table CgroupKey ScopeHistory

-- `.ok()`
abbrev pub ok : {A : Type 0} → IoResult A → Option A
ok (done a) = some a
ok (failed e) = none

abbrev pub is_scope : CgroupKey → InstanceTarget → Bool
is_scope k target = is_some_and target.scope (cgroup_eq k)

-- `retained.contains(key)`
unfoldable pub is_referenced : Table InstanceKey InstanceTarget → CgroupKey → Bool
unfolding any
is_referenced instances k = any (λ e. is_scope k e.1) instances

unfoldable pub purge_unreferenced_scopes : CgroupMemorySampler → CgroupMemorySampler
unfolding retain is_referenced
purge_unreferenced_scopes s = record s {
  scopes = retain cgroup_key (λ k h. is_referenced s.instances k) s.scopes;
}

-- `entry(key).or_insert_with(..)`
unfoldable pub admit_scope :
    Option ResolvedScope → Table CgroupKey ScopeHistory → Table CgroupKey ScopeHistory
unfolding lookup insert
admit_scope none scopes = scopes
admit_scope (some r) scopes = elim (lookup cgroup_key r.key scopes) [
  | none ↦ insert cgroup_key r.key (new_history r.path) scopes
  | some h ↦ scopes
]

abbrev pub scope_key : Option ResolvedScope → Option CgroupKey
scope_key none = none
scope_key (some r) = some r.key

-- The start time and the scope of an instance that is being registered.
abbrev pub registered_start : (ℕ → Files) → InstanceKey → CgroupMemorySampler → Option ℕ
registered_start files i s = ok (read_start_time (files 0) s.proc_root i.pid)

unfoldable pub registered_scope :
    (ℕ → Files) → InstanceKey → CgroupMemorySampler → Option ResolvedScope
unfolding read_start_time resolve_scope
registered_scope files i s = elim (registered_start files i s) [
  | none ↦ none
  | some expected ↦ ok (resolve_scope (λ n. files (suc n)) s.proc_root s.cgroup_root i.pid expected)
]

unfoldable pub registered_target : (ℕ → Files) → InstanceKey → CgroupMemorySampler → InstanceTarget
unfolding read_start_time registered_scope
registered_target files i s = record {
  pid = i.pid;
  start_time = registered_start files i s;
  scope = scope_key (registered_scope files i s);
}

unfoldable pub register : (ℕ → Files) → InstanceKey → CgroupMemorySampler → CgroupMemorySampler
unfolding registered_target registered_scope admit_scope insert purge_unreferenced_scopes
register files i s = purge_unreferenced_scopes (record s {
  scopes = admit_scope (registered_scope files i s) s.scopes;
  instances = insert instance_key i (registered_target files i s) s.instances;
})

unfoldable pub remove_instance : InstanceKey → CgroupMemorySampler → CgroupMemorySampler
unfolding remove purge_unreferenced_scopes
remove_instance i s =
    purge_unreferenced_scopes (record s { instances = remove instance_key i s.instances })

abbrev pub is_procfs : InstanceSource → Bool
is_procfs linux_procfs = true
is_procfs (managed_service id version) = false

-- `CgroupMemorySampler::observe`
unfoldable pub observe_memory :
    (ℕ → Files) → BeaconEvent → CgroupMemorySampler → CgroupMemorySampler
unfolding register remove_instance
observe_memory files (server_found i) s =
    let registered = register files i.key s in if is_procfs i.key.source then registered else s
observe_memory files (server_removed i) s = remove_instance i.key s
observe_memory files _ s = s

-- The files that each call of one `sample` meets.
pub record Moments : Type 0 where
  pub start : InstanceKey → Files
  pub first : InstanceKey → ℕ → Files
  pub again : CgroupKey → ℕ → ℕ → Files
  pub reading : CgroupKey → ℕ → Files

-- What the first loop of `sample` collects besides the targets.
pub record Round : Type 0 where
  pub scopes : Table CgroupKey ScopeHistory
  pub resolved : Table InstanceKey CgroupKey
  pub validators : Table CgroupKey (List (ℕ × ℕ))

-- `entry(key).and_modify(..).or_insert_with(..)`
unfoldable pub renew_scope :
    ResolvedScope → Table CgroupKey ScopeHistory → Table CgroupKey ScopeHistory
unfolding lookup insert
renew_scope r scopes =
    let history : ScopeHistory = elim (lookup cgroup_key r.key scopes) [
      | none ↦ new_history r.path
      | some h ↦ record h { path = r.path }
    ] in
    insert cgroup_key r.key history scopes

abbrev pub known_start : Moments → FilePath → InstanceKey → InstanceTarget → Option ℕ
known_start m proc_root i target = elim target.start_time [
  | none ↦ ok (read_start_time (m.start i) proc_root target.pid)
  | some start ↦ some start
]

-- One round of the first loop.
unfoldable pub visit :
    Moments → FilePath → FilePath → InstanceKey → InstanceTarget → Round → InstanceTarget × Round
unfolding read_start_time resolve_scope renew_scope lookup insert
visit m proc_root cgroup_root i target round = elim (known_start m proc_root i target) [
  | none ↦ (target, round)
  | some start ↦
      let started = record target { start_time = some start } in
      elim (resolve_scope (m.first i) proc_root cgroup_root target.pid start) [
        | failed e ↦ (started, round)
        | done r ↦ (
          record started { scope = some r.key },
          record {
            scopes = renew_scope r round.scopes;
            resolved = insert instance_key i r.key round.resolved;
            validators =
                insert cgroup_key r.key
                  (unwrap_or (lookup cgroup_key r.key round.validators) []
                    ++ ((target.pid, start) ∷ []))
                  round.validators;
          },
        )
      ]
]

unfoldable pub visit_all :
    Moments
    → FilePath
    → FilePath
    → Table InstanceKey InstanceTarget
    → Round
    → Table InstanceKey InstanceTarget × Round
unfolding visit
visit_all m proc_root cgroup_root [] round = ([], round)
visit_all m proc_root cgroup_root ((i, target) ∷ rest) round =
    let (target', round') = visit m proc_root cgroup_root i target round in
    let (rest', round'') = visit_all m proc_root cgroup_root rest round' in
    ((i, target') ∷ rest', round'')

-- `targets.iter().any(..)`, the n-th target at its own moments
unfoldable pub is_validated :
    (ℕ → ℕ → Files) → FilePath → FilePath → CgroupKey → FilePath → ℕ → List (ℕ × ℕ) → Bool
unfolding resolve_scope same_path
is_validated files proc_root cgroup_root k path n [] = false
is_validated files proc_root cgroup_root k path n ((pid, start) ∷ targets) =
    is_done_and (resolve_scope (files n) proc_root cgroup_root pid start)
      (λ r. cgroup_eq r.key k && same_path r.path path)
    || is_validated files proc_root cgroup_root k path (suc n) targets

-- `while len > MAX { pop_front }`
unfoldable pub bound_samples : List Sample → List Sample
bound_samples [] = []
bound_samples (x ∷ xs) =
    let rest = bound_samples xs in
    if ltb max_history_samples (length (x ∷ xs)) then rest else x ∷ xs

abbrev pub max : ℕ → ℕ → ℕ
max a b = if leb a b then b else a

unfoldable pub add_sample : ℕ → MemoryValues → ScopeHistory → ScopeHistory
unfolding bound_samples
add_sample now v h = record h {
  values = some v;
  observed_peak = some (max (unwrap_or h.observed_peak 0) v.current);
  samples = bound_samples (h.samples ++ ((now, v.current) ∷ []));
  sampled_at = some now;
}

-- One round of the second loop.
unfoldable pub sample_scope :
    Moments
    → FilePath
    → FilePath
    → ℕ
    → Table CgroupKey (List (ℕ × ℕ))
    → CgroupKey
    → ScopeHistory
    → ScopeHistory
unfolding prune_history lookup is_validated read_memory_values add_sample
sample_scope m proc_root cgroup_root now validators k h =
    let pruned = record h { samples = prune_history now h.samples } in
    let targets = unwrap_or (lookup cgroup_key k validators) [] in
    elim (is_validated (m.again k) proc_root cgroup_root k h.path 0 targets) [
      | false ↦ pruned
      | true ↦ elim (read_memory_values (m.reading k) h.path) [
        | failed e ↦ pruned
        | done v ↦ add_sample now v pruned
      ]
    ]

-- The second loop: each of the resolved keys changes its own history only.
unfoldable pub sample_scopes :
    Moments
    → FilePath
    → FilePath
    → ℕ
    → Round
    → Table CgroupKey ScopeHistory
    → Table CgroupKey ScopeHistory
unfolding any sample_scope
sample_scopes m proc_root cgroup_root now round [] = []
sample_scopes m proc_root cgroup_root now round ((k, h) ∷ rest) =
    let sampled = sample_scope m proc_root cgroup_root now round.validators k h in
    (k, if any (λ e. cgroup_eq e.1 k) round.resolved then sampled else h)
    ∷ sample_scopes m proc_root cgroup_root now round rest

-- More than one instance has the scope.
unfoldable pub is_shared : Table InstanceKey InstanceTarget → CgroupKey → Bool
unfolding count
is_shared instances k = ltb 1 (count (λ e. is_scope k e.1) instances)

unfoldable pub view :
    ℕ
    → Table InstanceKey CgroupKey
    → CgroupMemorySampler
    → InstanceKey
    → InstanceTarget
    → MemoryView
unfolding lookup is_shared slope
view now resolved s i target = elim target.scope [
  | none ↦ unavailable_view none false
  | some k ↦
      let shared = is_shared s.instances k in
      elim (lookup cgroup_key k s.scopes) [
        | none ↦ unavailable_view (some k) shared
        | some h ↦ elim h.values [
          | none ↦ unavailable_view (some k) shared
          | some v ↦ record {
            availability =
                if is_some (lookup instance_key i resolved) && is_some_and h.sampled_at (eqb now)
                then fresh
                else stale;
            values = some v;
            observed_peak = h.observed_peak;
            slope_bytes_per_minute = slope h.samples;
            scope = some k;
            shared = shared;
          }
        ]
      ]
]

unfoldable pub sample :
    Moments → ℕ → CgroupMemorySampler → List (InstanceKey × MemoryView) × CgroupMemorySampler
unfolding visit_all purge_unreferenced_scopes sample_scopes view
sample m now s =
    let (instances, round) =
      visit_all m s.proc_root s.cgroup_root s.instances
        (record { scopes = s.scopes; resolved = []; validators = [] }) in
    let purged =
      purge_unreferenced_scopes (record s { instances = instances; scopes = round.scopes }) in
    let sampled = record purged {
      scopes = sample_scopes m s.proc_root s.cgroup_root now round purged.scopes;
    } in
    (map (λ e. (e.0, view now round.resolved sampled e.0 e.1)) sampled.instances, sampled)
