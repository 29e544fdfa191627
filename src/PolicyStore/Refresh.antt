-- ===== src/PolicyStore/Refresh.antt =====
-- Refreshing never drops a policy (mcp-proxy/src/policy_store.rs).
use sqreen_core.Prelude.{
  ℕ, ◌-◌, leb, ◌≡◌, refl, arith, Bool, true, false, is_some, Option, none, some, List, [], ◌∷◌,
  if◌then◌else◌,
}
use sqreen_core.Policy.Compile.{CompiledPolicy}
use sqreen_core.Gateway.Posture.{PolicyAvailability, has_engine}
use sqreen_core.PolicyStore.{
  from_control_plane, from_cache, from_local_yaml, LoadResult, loaded, absent, failed_unreadable,
  failed_invalid, failed_remote, PolicyStore, new_store, availability_of, kept_or, apply_load,
  refresh_if_stale, policy_refresh_interval,
}

-- The store after a number of calls, each with its instant and what the sources yield
abbrev pub refresh_all : PolicyStore → List (ℕ × LoadResult) → PolicyStore
unfolding refresh_if_stale
refresh_all store [] = store
refresh_all store ((now, result) ∷ calls) = refresh_all (refresh_if_stale store now result) calls

-- The availability says truly whether there is an engine.
abbrev pub IsTruthful : PolicyStore → Type 0
IsTruthful store = has_engine store.availability ≡ is_some store.engine

kept_or-has_engine :
    (engine : Option CompiledPolicy) (reason : PolicyAvailability)
    → has_engine reason ≡ false
    → has_engine (kept_or engine reason) ≡ is_some engine
unfolding has_engine
kept_or-has_engine none reason h = h
kept_or-has_engine (some engine) reason h = refl

apply_load-IsTruthful : (store : PolicyStore) (r : LoadResult) → IsTruthful (apply_load store r)
unfolding apply_load has_engine availability_of
apply_load-IsTruthful store (loaded engine from_control_plane) = refl
apply_load-IsTruthful store (loaded engine from_cache) = refl
apply_load-IsTruthful store (loaded engine from_local_yaml) = refl
apply_load-IsTruthful store absent = kept_or-has_engine store.engine PolicyAvailability.missing refl
apply_load-IsTruthful store (failed_unreadable e) =
    kept_or-has_engine store.engine PolicyAvailability.unreadable refl
apply_load-IsTruthful store (failed_invalid e) =
    kept_or-has_engine store.engine PolicyAvailability.invalid refl
apply_load-IsTruthful store (failed_remote e) =
    kept_or-has_engine store.engine PolicyAvailability.remote_unavailable refl

refresh-IsTruthful :
    (store : PolicyStore) (now : ℕ) (r : LoadResult)
    → IsTruthful store
    → IsTruthful (refresh_if_stale store now r)
unfolding refresh_if_stale
refresh-IsTruthful store now r h = by_time (leb policy_refresh_interval (now - store.last_refresh))
  where
    by_time :
        (b : Bool)
        → IsTruthful (if b then apply_load (record store { last_refresh = now }) r else store)
    by_time true = apply_load-IsTruthful (record store { last_refresh = now }) r
    by_time false = h

apply_load-keeps :
    (store : PolicyStore) (r : LoadResult)
    → is_some store.engine ≡ true
    → is_some (apply_load store r).engine ≡ true
unfolding apply_load
apply_load-keeps store (loaded engine source) h = refl
apply_load-keeps store absent h = h
apply_load-keeps store (failed_unreadable e) h = h
apply_load-keeps store (failed_invalid e) h = h
apply_load-keeps store (failed_remote e) h = h

refresh-keeps :
    (store : PolicyStore) (now : ℕ) (r : LoadResult)
    → is_some store.engine ≡ true
    → is_some (refresh_if_stale store now r).engine ≡ true
unfolding refresh_if_stale
refresh-keeps store now r h = by_time (leb policy_refresh_interval (now - store.last_refresh))
  where
    by_time :
        (b : Bool)
        → is_some (if b then apply_load (record store { last_refresh = now }) r else store).engine
          ≡ true
    by_time true = apply_load-keeps (record store { last_refresh = now }) r h
    by_time false = h

refresh_all-IsTruthful :
    (store : PolicyStore) (calls : List (ℕ × LoadResult))
    → IsTruthful store
    → IsTruthful (refresh_all store calls)
unfolding refresh_all
refresh_all-IsTruthful store [] h = h
refresh_all-IsTruthful store ((now, r) ∷ calls) h =
    refresh_all-IsTruthful (refresh_if_stale store now r) calls (refresh-IsTruthful store now r h)

refresh_all-keeps :
    (store : PolicyStore) (calls : List (ℕ × LoadResult))
    → is_some store.engine ≡ true
    → is_some (refresh_all store calls).engine ≡ true
unfolding refresh_all
refresh_all-keeps store [] h = h
refresh_all-keeps store ((now, r) ∷ calls) h =
    refresh_all-keeps (refresh_if_stale store now r) calls (refresh-keeps store now r h)

-- A store that `new` started with a policy has one after any calls, whatever the sources yield, and
-- a store that `new` started, with a policy or without, reports an engine exactly where it has one.
pub refresh_all-never_drops :
    (engine : Option CompiledPolicy) (now : ℕ) (calls : List (ℕ × LoadResult))
    → IsTruthful (refresh_all (new_store engine now) calls)
      × (is_some engine ≡ true → is_some (refresh_all (new_store engine now) calls).engine ≡ true)
unfolding new_store has_engine
refresh_all-never_drops none now calls =
    (refresh_all-IsTruthful (new_store none now) calls refl, (λ h. ground (arith, h)))
refresh_all-never_drops (some engine) now calls = (
  refresh_all-IsTruthful (new_store (some engine) now) calls refl,
  (λ h. refresh_all-keeps (new_store (some engine) now) calls refl),
)
