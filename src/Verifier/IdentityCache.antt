-- ===== src/Verifier/IdentityCache.antt =====
-- `CachedIdentityProvider` of packages/verifier/src/identity-provider.ts. A lookup ends at once with
-- a cached state, or it waits for a fetch: one that is in flight, or one that it starts. What a fetch
-- brings is a later event. Keys are normalized.
pub mod Limits
use v.Base.{
  ℕ, ◌+◌, Bool, true, false, ◌||◌, Option, none, some, List, [], ◌∷◌, ◌++◌, if◌then◌else◌, ltb, leb,
}
use v.Base.Text.{Text, text_eq}
use v.Base.Lists.{length}
use v.Base.Dict.{Dict, get, set, delete}

pub data IdentityCacheEvent : Type 0 where
  hit miss refresh refresh_suppressed : IdentityCacheEvent

pub record CachedIdentityProviderOptions : Type 0 where
  pub ttl_sec : ℕ
  pub min_refresh_age_sec : ℕ
  pub max_entries : ℕ

-- The constructor's defaults.
abbrev pub or_default : Option ℕ → ℕ → ℕ
or_default none value = value
or_default (some given) value = given

abbrev pub options_of :
    (ttl_sec min_refresh_age_sec max_entries : Option ℕ) → CachedIdentityProviderOptions
options_of ttl_sec min_refresh_age_sec max_entries = record {
  ttl_sec = or_default ttl_sec 60;
  min_refresh_age_sec = or_default min_refresh_age_sec 5;
  max_entries = or_default max_entries 10000;
}

unfoldable pub is_listed : Text → List Text → Bool
is_listed key [] = false
is_listed key (k ∷ ks) = text_eq k key || is_listed key ks

unfoldable pub without : Text → List Text → List Text
without key [] = []
without key (k ∷ ks) = let rest = without key ks in if text_eq k key then rest else k ∷ rest

-- What a lookup that finds no cached state waits for.
pub data Waiting : Type 0 where
  joined started : Waiting

pub record CacheEntry (State : Type 0) : Type 0 where
  pub state : State
  pub fetched_at : ℕ

pub record IdentityCache (State : Type 0) : Type 0 where
  pub cache : Dict (CacheEntry State)
  pub inflight : List Text

pub data Lookup (State : Type 0) : Type 0 where
  served : State → IdentityCacheEvent → Lookup State
  waits : Waiting → IdentityCacheEvent → Lookup State

-- The oldest key leaves a map that is full.
unfoldable pub evict : {V : Type 0} → ℕ → Dict V → Dict V
unfolding delete
evict max_entries [] = []
evict max_entries ((k, v) ∷ m) =
    if leb max_entries (length ((k, v) ∷ m)) then delete k ((k, v) ∷ m) else (k, v) ∷ m

module _ {State : Type 0} where
  -- `now - entry.fetchedAt < age`
  abbrev pub is_younger : ℕ → ℕ → CacheEntry State → Bool
  is_younger now age entry = ltb now (entry.fetched_at + age)

  -- `fetch`, with the event that comes before it.
  unfoldable pub fetch :
      IdentityCacheEvent → Text → IdentityCache State → Lookup State × IdentityCache State
  unfolding is_listed
  fetch event key c =
      if is_listed key c.inflight
      then (waits joined event, c)
      else (waits started event, record c { inflight = key ∷ c.inflight })

  -- Both lookups: a young entry is served, an old or missing one is fetched.
  unfoldable pub look_up :
      (age : ℕ) (young old : IdentityCacheEvent)
      → (now : ℕ) → Text
      → IdentityCache State
      → Lookup State × IdentityCache State
  unfolding fetch get
  look_up age young old now key c = elim (get key c.cache) [
    | none ↦ fetch old key c
    | some entry ↦
        if is_younger now age entry then (served entry.state young, c) else fetch old key c
  ]

  unfoldable pub get_identity_state :
      CachedIdentityProviderOptions
      → (now : ℕ) → Text
      → IdentityCache State
      → Lookup State × IdentityCache State
  unfolding look_up
  get_identity_state options now key c =
      look_up options.ttl_sec IdentityCacheEvent.hit IdentityCacheEvent.miss now key c

  unfoldable pub refresh_identity_state :
      CachedIdentityProviderOptions
      → (now : ℕ) → Text
      → IdentityCache State
      → Lookup State × IdentityCache State
  unfolding look_up
  refresh_identity_state options now key c =
      look_up options.min_refresh_age_sec IdentityCacheEvent.refresh_suppressed
        IdentityCacheEvent.refresh now key c

  -- What the fetch of a key does when the node answers.
  unfoldable pub fetched :
      CachedIdentityProviderOptions
      → (now : ℕ) → Text
      → State
      → IdentityCache State
      → IdentityCache State
  unfolding evict delete set without
  fetched options now key state c = record {
    cache =
        set key (record { state = state; fetched_at = now })
          (evict options.max_entries (delete key c.cache));
    inflight = without key c.inflight;
  }

  -- And when the node does not.
  unfoldable pub fetch_failed : Text → IdentityCache State → IdentityCache State
  unfolding without
  fetch_failed key c = record c { inflight = without key c.inflight }
