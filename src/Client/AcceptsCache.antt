-- ===== src/Client/AcceptsCache.antt =====
-- packages/client-fetch/src/accepts-cache.ts: the challenges of the endpoints that were paid before.
-- The clock's seconds are an argument.
use v.Base.{ℕ, ◌+◌, Option, none, some, [], ◌∷◌, ◌++◌, if◌then◌else◌, leb}
use v.Base.Text.{Text}
use v.Base.Lists.{length}
use v.Base.Dict.{Dict, get, set, delete}
use v.Protocol.Types.{PaymentRequirement}

pub record AcceptsEntry : Type 0 where
  pub requirement : PaymentRequirement
  pub stored_at : ℕ

pub record AcceptsCache : Type 0 where
  pub ttl_sec : ℕ
  pub max_entries : ℕ
  pub entries : Dict AcceptsEntry

abbrev pub default_to : ℕ → Option ℕ → ℕ
default_to value none = value
default_to value (some given) = given

unfoldable pub new_cache : (ttl_sec max_entries : Option ℕ) → AcceptsCache
new_cache ttl_sec max_entries = record {
  ttl_sec = default_to 300 ttl_sec;
  max_entries = default_to 1000 max_entries;
  entries = [];
}

-- `${method.toUpperCase()} ${target.origin}${target.pathname}`
unfoldable pub key_for : (upper : Text → Text) (method origin pathname : Text) → Text
key_for upper method origin pathname = upper method ++ 32 ∷ (origin ++ pathname)

abbrev pub read_entry :
    ℕ → Text → AcceptsCache → Option AcceptsEntry → Option PaymentRequirement × AcceptsCache
read_entry now key c none = (none, c)
read_entry now key c (some entry) =
    if leb (entry.stored_at + c.ttl_sec) now
    then (none, record c { entries = delete key c.entries })
    else (some entry.requirement, c)

-- `get`: an old entry is dropped.
unfoldable pub get_requirement : ℕ → Text → AcceptsCache → Option PaymentRequirement × AcceptsCache
unfolding get delete
get_requirement now key c = read_entry now key c (get key c.entries)

-- The oldest key leaves a map that is full.
unfoldable pub drop_oldest : ℕ → Dict AcceptsEntry → Dict AcceptsEntry
unfolding delete
drop_oldest max_entries [] = []
drop_oldest max_entries ((k, e) ∷ m) =
    if leb max_entries (length ((k, e) ∷ m)) then delete k ((k, e) ∷ m) else (k, e) ∷ m

-- `set`: the entry moves to the end.
unfoldable pub set_requirement : ℕ → Text → PaymentRequirement → AcceptsCache → AcceptsCache
unfolding drop_oldest delete set
set_requirement now key requirement c = record c {
  entries =
      set key (record { requirement = requirement; stored_at = now })
        (drop_oldest c.max_entries (delete key c.entries));
}

unfoldable pub delete_requirement : Text → AcceptsCache → AcceptsCache
unfolding delete
delete_requirement key c = record c { entries = delete key c.entries }
