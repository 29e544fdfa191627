-- ===== src/PolicyStore.antt =====
-- The policy handle that is refreshed while the proxy runs: mcp-proxy/src/policy_store.rs. Instants
-- are numbers of a clock in seconds, and what the sources yield is an argument.
pub mod Refresh
use sqreen_core.Prelude.{ℕ, ◌-◌, leb, String, Bool, true, Option, none, some, if◌then◌else◌}
use sqreen_core.Policy.Compile.{CompiledPolicy}
use sqreen_core.Gateway.Posture.{
  PolicyAvailability, available, missing, invalid, unreadable, stale, remote_unavailable,
}

-- `POLICY_REFRESH_INTERVAL`
abbrev pub policy_refresh_interval : ℕ
policy_refresh_interval = 5

-- `PolicyLoadSource`
pub data PolicyLoadSource : Type 0 where
  from_control_plane from_cache from_local_yaml : PolicyLoadSource

-- `Result<LoadOutcome, LoadError>`
pub data LoadResult : Type 0 where
  loaded : CompiledPolicy → PolicyLoadSource → LoadResult
  absent : LoadResult
  failed_unreadable failed_invalid failed_remote : String → LoadResult

-- `PolicyStore`
pub record PolicyStore : Type 0 where
  pub engine : Option CompiledPolicy
  pub availability : PolicyAvailability
  pub last_refresh : ℕ

-- `PolicyStore::new`
unfoldable pub new_store : Option CompiledPolicy → ℕ → PolicyStore
new_store none now = record { engine = none; availability = missing; last_refresh = now }
new_store (some engine) now = record {
  engine = some engine;
  availability = available;
  last_refresh = now;
}

-- `PolicyStore::with_availability`
unfoldable pub with_availability : Option CompiledPolicy → PolicyAvailability → ℕ → PolicyStore
with_availability engine availability now = record {
  engine = engine;
  availability = availability;
  last_refresh = now;
}

-- The availability after a load from a source
unfoldable pub availability_of : PolicyLoadSource → PolicyAvailability
availability_of from_control_plane = available
availability_of from_local_yaml = available
availability_of from_cache = stale

-- The availability after a load that gave no engine: stale where there is one, and else the reason
abbrev pub kept_or : Option CompiledPolicy → PolicyAvailability → PolicyAvailability
kept_or none reason = reason
kept_or (some engine) reason = stale

-- The `match` of `refresh_if_stale` on what was loaded
unfoldable pub apply_load : PolicyStore → LoadResult → PolicyStore
unfolding availability_of
apply_load store (loaded engine source) = record store {
  engine = some engine;
  availability = availability_of source;
}
apply_load store absent = record store { availability = kept_or store.engine missing }
apply_load store (failed_unreadable _) = record store {
  availability = kept_or store.engine unreadable;
}
apply_load store (failed_invalid _) = record store { availability = kept_or store.engine invalid }
apply_load store (failed_remote _) = record store {
  availability = kept_or store.engine remote_unavailable;
}

-- `refresh_if_stale`, at an instant
unfoldable pub refresh_if_stale : PolicyStore → ℕ → LoadResult → PolicyStore
unfolding apply_load
refresh_if_stale store now result =
    if leb policy_refresh_interval (now - store.last_refresh)
    then apply_load (record store { last_refresh = now }) result
    else store
