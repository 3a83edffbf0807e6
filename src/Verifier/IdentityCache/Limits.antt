-- ===== src/Verifier/IdentityCache/Limits.antt =====
-- The limits of the cache (packages/verifier/src/identity-provider.ts): its size, the age of what it
-- serves, and the calls of the node.
use v.Base.{
  ℕ, suc, ◌+◌, ◌≤◌, ◌<◌, ◌≡◌, refl, true, false, some, List, [], ◌∷◌, inl, inr, arith, ltb, leb,
  Bool-cases, Option-cases,
}
use v.Base.Text.{Text, text_eq, text_eq_refl}
use v.Base.Lists.{length}
use v.Base.Dict.{Dict, get, set, delete, get-set}
use v.Verifier.IdentityCache.{
  IdentityCacheEvent, CachedIdentityProviderOptions, CacheEntry, IdentityCache, served, is_younger,
  is_listed, evict, fetch, look_up, get_identity_state, refresh_identity_state, fetched,
  fetch_failed,
}

length-delete : {V : Type 0} (k : Text) (m : Dict V) → length (delete k m) ≤ length m
unfolding delete
length-delete k [] = omega arith
length-delete k ((j, v) ∷ m) = elim (Bool-cases (text_eq j k)) [
  | inl same ↦ rw same (omega (arith, length-delete k m))
  | inr other ↦ rw other (omega (arith, length-delete k m))
]

length-set : {V : Type 0} (k : Text) (v : V) (m : Dict V) → length (set k v m) ≤ suc (length m)
unfolding set
length-set k v [] = omega arith
length-set k v ((j, w) ∷ m) = elim (Bool-cases (text_eq j k)) [
  | inl same ↦ rw same (omega arith)
  | inr other ↦ rw other (omega (arith, length-set k v m))
]

leb-false : (a b : ℕ) → leb a b ≡ false → b < a
leb-false a b h = ground arith

length-evict :
    {V : Type 0} (limit : ℕ) (m : Dict V)
    → 0 < limit
    → length m ≤ limit
    → length (evict limit m) < limit
unfolding evict delete
length-evict limit [] h full = omega arith
length-evict limit ((k, v) ∷ m) h full = elim (Bool-cases (leb limit (length ((k, v) ∷ m)))) [
  | inl most ↦ rw (most, evict) (rw (text_eq_refl k) (omega (arith, length-delete k m, full)))
  | inr fewer ↦ rw (fewer, evict) (leb-false limit (suc (length m)) fewer)
]

-- What happens to the cache: a lookup, a refresh, or the end of a fetch.
pub data CacheStep (State : Type 0) : Type 0 where
  got refreshed : (now : ℕ) (key : Text) → CacheStep State
  arrived : (now : ℕ) (key : Text) → State → CacheStep State
  failed : (key : Text) → CacheStep State

abbrev pub empty_cache : {State : Type 0} → IdentityCache State
empty_cache = record { cache = []; inflight = [] }

module _ {State : Type 0} (options : CachedIdentityProviderOptions) where
  unfoldable pub step_cache : CacheStep State → IdentityCache State → IdentityCache State
  unfolding get_identity_state refresh_identity_state fetched fetch_failed
  step_cache (got now key) c = (get_identity_state options now key c).1
  step_cache (refreshed now key) c = (refresh_identity_state options now key c).1
  step_cache (arrived now key state) c = fetched options now key state c
  step_cache (failed key) c = fetch_failed key c

  unfoldable pub run_cache : List (CacheStep State) → IdentityCache State → IdentityCache State
  unfolding step_cache
  run_cache [] c = c
  run_cache (e ∷ es) c = run_cache es (step_cache e c)

fetch-cache :
    {State : Type 0} (event : IdentityCacheEvent) (key : Text) (c : IdentityCache State)
    → (fetch event key c).1.cache ≡ c.cache
unfolding fetch
fetch-cache event key c = elim (Bool-cases (is_listed key c.inflight)) [
  | inl waiting ↦ rw (waiting, fetch) refl
  | inr idle ↦ rw (idle, fetch) refl
]

look_up-cache :
    {State : Type 0} (age : ℕ) (young old : IdentityCacheEvent) (now : ℕ) (key : Text)
    (c : IdentityCache State)
    → (look_up age young old now key c).1.cache ≡ c.cache
unfolding look_up
look_up-cache age young old now key c = elim (Option-cases (get key c.cache)) [
  | inl missing ↦ rw (missing, look_up) (fetch-cache old key c)
  | inr (entry, found) ↦ elim (Bool-cases (is_younger now age entry)) [
    | inl fresh ↦ rw (found, look_up) (rw fresh refl)
    | inr stale ↦ rw (found, look_up) (rw stale (fetch-cache old key c))
  ]
]

step-bounded :
    {State : Type 0} (options : CachedIdentityProviderOptions) (e : CacheStep State)
    (c : IdentityCache State)
    → 0 < options.max_entries
    → length c.cache ≤ options.max_entries
    → length (step_cache options e c).cache ≤ options.max_entries
unfolding step_cache get_identity_state refresh_identity_state fetched fetch_failed
step-bounded options (got now key) c h bound =
    rw (look_up-cache options.ttl_sec IdentityCacheEvent.hit IdentityCacheEvent.miss now key c)
      bound
step-bounded options (refreshed now key) c h bound =
    rw
      (look_up-cache options.min_refresh_age_sec IdentityCacheEvent.refresh_suppressed
        IdentityCacheEvent.refresh now key c)
      bound
step-bounded options (arrived now key state) c h bound =
    let room =
      length-evict options.max_entries (delete key c.cache) h
        (omega (arith, length-delete key c.cache, bound)) in
    omega (
      arith,
      room,
      length-set key (record { state = state; fetched_at = now })
          (evict options.max_entries (delete key c.cache)),
    )
step-bounded options (failed key) c h bound = bound

run-bounded :
    {State : Type 0} (options : CachedIdentityProviderOptions) (es : List (CacheStep State))
    (c : IdentityCache State)
    → 0 < options.max_entries
    → length c.cache ≤ options.max_entries
    → length (run_cache options es c).cache ≤ options.max_entries
unfolding run_cache
run-bounded options [] c h bound = bound
run-bounded options (e ∷ es) c h bound =
    run-bounded options es (step_cache options e c) h (step-bounded options e c h bound)

-- Whatever is looked up, refreshed and fetched, the cache never holds more entries than the option
-- allows, when that is 1 or more.
pub cache_is_bounded :
    {State : Type 0} (options : CachedIdentityProviderOptions) (es : List (CacheStep State))
    → 0 < options.max_entries
    → length (run_cache options es empty_cache).cache ≤ options.max_entries
cache_is_bounded options es h = run-bounded options es empty_cache h (omega (arith, h))

lt→ltb : (a b : ℕ) → a < b → ltb a b ≡ true
lt→ltb a b h = ground arith

serves :
    {State : Type 0} (options : CachedIdentityProviderOptions) (now : ℕ) (key : Text)
    (state : State) (c : IdentityCache State) (age : ℕ) (young old : IdentityCacheEvent) (later : ℕ)
    → later < now + age
    → look_up age young old later key (fetched options now key state c)
      ≡ (served state young, fetched options now key state c)
unfolding look_up fetched
serves {State} options now key state c age young old later h =
    let entry : CacheEntry State = record { state = state; fetched_at = now } in
    let there : get key (set key entry (evict options.max_entries (delete key c.cache)))
        ≡ some entry =
      rw (get-set key key entry (evict options.max_entries (delete key c.cache)), text_eq_refl key)
        refl in
    rw (there, look_up) (rw (lt→ltb later (now + age) h) refl)

-- After a fetch has brought a key's state, a lookup within the time to live, and a refresh within
-- the minimum age, are served that state and change nothing: no call of the node is made.
pub fetched_is_served :
    {State : Type 0} (options : CachedIdentityProviderOptions) (now : ℕ) (key : Text)
    (state : State) (c : IdentityCache State)
    → let d = fetched options now key state c in
      ((later : ℕ)
        → later < now + options.ttl_sec
        → get_identity_state options later key d ≡ (served state IdentityCacheEvent.hit, d))
      × ((later : ℕ)
          → later < now + options.min_refresh_age_sec
          → refresh_identity_state options later key d
            ≡ (served state IdentityCacheEvent.refresh_suppressed, d))
unfolding get_identity_state refresh_identity_state
fetched_is_served options now key state c =
    let d = fetched options now key state c in
    let serve = serves options now key state c in
    (
      λ later young.
          serve options.ttl_sec IdentityCacheEvent.hit IdentityCacheEvent.miss later young,
      λ later young.
          serve options.min_refresh_age_sec IdentityCacheEvent.refresh_suppressed
            IdentityCacheEvent.refresh later young,
    )
