-- ===== src/Tests/Memory.antt =====
-- The memory sampler on a concrete file system: one process in one control group.
use opencode_beacon.Prelude.{
  ◌*◌, ◌^◌, Bool, true, false, none, some, List, [], ◌∷◌, any, ◌≡◌, refl, leb, if◌then◌else◌,
  is_some, ◌+◌, ◌-◌,
}
use opencode_beacon.Prelude.Order.{codes}
use opencode_beacon.Prelude.Integers.{negsuc}
use opencode_beacon.Prelude.Chars.{Chars, chars_eq}
use opencode_beacon.Prelude.Chars.Parts.{breaks}
use opencode_beacon.Prelude.Files.{done, FilePath, below, Files}
use opencode_beacon.Prelude.Table.{lookup}
use opencode_beacon.Model.{v4, linux_procfs, ServerInstance, protocol_v1}
use opencode_beacon.Events.{server_found}
use opencode_beacon.Memory.{ResolvedScope, Sample, second, slope_window}
use opencode_beacon.Memory.Parse.{parse_unified_cgroup}
use opencode_beacon.Memory.Parse.Safe.{is_plain, parse_unified_cgroup_safe}
use opencode_beacon.Memory.Resolve.{resolve_scope, read_memory_values}
use opencode_beacon.Memory.Resolve.Identity.{IsIdentified, resolve_scope-IsIdentified}
use opencode_beacon.Memory.Slope.{slope, last, last_before}
use opencode_beacon.Memory.Slope.Exact.{slope_exists, slope_exact, exact_change}
use opencode_beacon.Memory.Sampler.{
  CgroupMemorySampler, observe_memory, sample, Moments, is_referenced,
}
use opencode_beacon.Memory.Sampler.Invariant.{IsSampler, observe_memory-IsSampler, sample-IsSampler}

abbrev cgroup_text : Chars
cgroup_text = codes "1:cpu:/x\n0::/user.slice/app.scope\n"

abbrev stat_text : Chars
stat_text = codes "7 (a) b) S 1 2 3 4 5 6 7 8 9 10 11 12 13 14 15 16 17 18 99 20"

abbrev memory_text : Chars
memory_text = codes "anon 5\nfile 6\nkernel_stack 9\nkernel 7\n"

abbrev ends_with : Chars → List Chars → Bool
ends_with s [] = false
ends_with s (x ∷ []) = chars_eq x s
ends_with s (x ∷ y ∷ xs) = ends_with s (y ∷ xs)

abbrev text_at : FilePath → Chars
text_at p =
    if ends_with (codes "stat") p.parts
    then stat_text
    else if ends_with (codes "cgroup") p.parts
    then cgroup_text
    else if ends_with (codes "memory.stat") p.parts
    then memory_text
    else codes "1024\n"

abbrev disk : Files
disk = record {
  read_to_string = λ p. done (text_at p);
  canonicalize = λ p. done p;
  metadata = λ p. done (record { dev = 3; ino = 4 });
}

abbrev proc : FilePath
proc = record { rooted = true; parts = codes "proc" ∷ [] }

abbrev groups : FilePath
groups = record { rooted = true; parts = codes "cgroup2" ∷ [] }

abbrev app : ResolvedScope
app = record {
  key = record { device = 3; inode = 4 };
  path = record {
    rooted = true;
    parts = codes "cgroup2" ∷ codes "user.slice" ∷ codes "app.scope" ∷ [];
  };
}

app_resolved : resolve_scope (λ n. disk) proc groups 7 99 ≡ done app
unfolding resolve_scope
app_resolved = refl

resolve_scope-IsIdentified_example : IsIdentified (λ n. disk) proc groups 7 99 app
resolve_scope-IsIdentified_example =
    resolve_scope-IsIdentified (λ n. disk) proc groups 7 99 app app_resolved

cgroup_parsed :
    parse_unified_cgroup cgroup_text ≡ done (below (codes "user.slice" ∷ codes "app.scope" ∷ []))
unfolding parse_unified_cgroup
cgroup_parsed = refl

parse_unified_cgroup_safe_example :
    (false ≡ false) × (breaks is_plain (codes "user.slice" ∷ codes "app.scope" ∷ []) ≡ false)
parse_unified_cgroup_safe_example =
    parse_unified_cgroup_safe cgroup_text (below (codes "user.slice" ∷ codes "app.scope" ∷ []))
      cgroup_parsed

memory_read :
    read_memory_values (λ n. disk) app.path
    ≡ done
        (record { current = 1024; peak = some 1024; swap = 1024; anon = 5; file = 6; kernel = 7 })
unfolding read_memory_values
memory_read = refl

-- From 6000 bytes down to 0 in 3600 seconds.
abbrev falling : List Sample
falling = (5000 * second, 6000) ∷ (8600 * second, 0) ∷ []

falling-slope : slope falling ≡ some (negsuc 99)
unfolding slope
falling-slope = refl

falling_small : any (λ x. leb (2 ^ 64) x.1) falling ≡ false
unfolding any
falling_small = refl

slope_exists_example : is_some (slope falling) ≡ elim (last falling) [
  | none ↦ false
  | some newest ↦ any (λ x. leb (x.0 + slope_window) newest.0) falling
]
slope_exists_example = slope_exists falling

slope_exact_example :
    (newest : Sample) × (old : Sample) × (last falling ≡ some newest)
    × (last_before (newest.0 - slope_window) falling ≡ some old)
    × (negsuc 99 ≡ exact_change newest old)
slope_exact_example = slope_exact falling (negsuc 99) falling_small falling-slope

abbrev empty_sampler : CgroupMemorySampler
empty_sampler = record { proc_root = proc; cgroup_root = groups; instances = []; scopes = [] }

empty-IsSampler : IsSampler empty_sampler
unfolding lookup is_referenced any
empty-IsSampler = record {
  instances_unique = record {};
  scopes_unique = record {};
  exact = λ k. refl;
  histories = λ k h e. cc;
}

abbrev server : ServerInstance
server = record {
  key = record {
    network_namespace_inode = 1;
    socket_inode = 2;
    listener = v4 127 0 0 1 4096;
    pid = 7;
    source = linux_procfs;
  };
  endpoint = record { socket = v4 127 0 0 1 4096 };
  protocol = protocol_v1;
  executable = none;
  version = "1.17.0";
}

abbrev found_sampler : CgroupMemorySampler
found_sampler = observe_memory (λ n. disk) (server_found server) empty_sampler

observe_memory-IsSampler_example : IsSampler found_sampler
observe_memory-IsSampler_example =
    observe_memory-IsSampler (λ n. disk) (server_found server) empty_sampler empty-IsSampler

found-IsSampler : IsSampler found_sampler
found-IsSampler =
    observe_memory-IsSampler (λ n. disk) (server_found server) empty_sampler empty-IsSampler

abbrev moments : Moments
moments = record {
  start = λ i. disk;
  first = λ i n. disk;
  again = λ k n j. disk;
  reading = λ k n. disk;
}

sample-IsSampler_example : IsSampler (sample moments (9000 * second) found_sampler).1
sample-IsSampler_example = sample-IsSampler moments (9000 * second) found_sampler found-IsSampler
