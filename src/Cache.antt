-- ===== src/Cache.antt =====
-- apps/api/src/proxy/response-cache.ts, class `ResponseCache`: a bounded map of response bodies,
-- the least recently used entry first. The clock is an argument of `get` and `set`.
mod Tests
pub mod Invariant
pub mod Eviction
pub mod History
pub mod Lookup
pub mod Sorting
pub mod Reordered
pub mod FieldOrder
pub mod Clients
pub mod Served
pub mod Collect
pub mod Collected
mod RequestTests
use firecrawl_gateway.Prelude.{
  ℕ, ◌+◌, ◌-◌, ◌*◌, Bool, true, false, not, ◌&&◌, ◌||◌, List, [], ◌∷◌, Option, none, some, ltb, leb,
  ◌===◌, nat_eq, length, if◌then◌else◌,
}
use firecrawl_gateway.Prelude.OrderedMap
use firecrawl_gateway.Prelude.Text.{Text, codes_eq}
use firecrawl_gateway.Prelude.Json.{Number, plus, minus}

abbrev pub max_cached_entry_bytes : ℕ
max_cached_entry_bytes = 2 * 1024 * 1024

pub record CachedResponse : Type 0 where
  pub status : ℕ
  pub content_type : Text
  pub body : Text
  pub stored_at : ℕ

abbrev pub Entries : Type 0
Entries = List (Text × CachedResponse)

pub record ResponseCache : Type 0 where
  pub entries : Entries
  pub total_bytes : ℕ
  pub ttl_ms : ℕ
  pub max_bytes : ℕ

unfoldable pub new_cache : ℕ → ℕ → ResponseCache
new_cache ttl max_bytes = record {
  entries = [];
  total_bytes = 0;
  ttl_ms = ttl;
  max_bytes = max_bytes;
}

unfoldable pub enabled : ResponseCache → Bool
enabled c = ltb 0 c.ttl_ms && ltb 0 c.max_bytes

unfoldable pub set_ttl_ms : ℕ → ResponseCache → ResponseCache
set_ttl_ms ttl c =
    if ttl === c.ttl_ms
    then c
    else if leb ttl 0
    then record c { ttl_ms = ttl; entries = []; total_bytes = 0 }
    else record c { ttl_ms = ttl }

-- Each caller passes the entry that it has just read under `key`, so `=== entry` holds if there
-- is one.
unfoldable pub remove : Text → CachedResponse → ResponseCache → ResponseCache
unfolding OrderedMap.delete OrderedMap.has
remove key entry c =
    if OrderedMap.has key c.entries
    then record c {
      entries = OrderedMap.delete key c.entries;
      total_bytes = c.total_bytes - length entry.body;
    }
    else c

-- `age > maxAgeMs`, where `maxAgeMs` may be negative and `null` is no limit.
abbrev pub older_than : Option Number → ℕ → ℕ → Bool
older_than none stored_at now = false
older_than (some (plus m)) stored_at now = ltb (stored_at + m) now
older_than (some (minus m)) stored_at now = ltb stored_at (now + m)

unfoldable pub refresh : Text → CachedResponse → ResponseCache → ResponseCache
unfolding OrderedMap.delete OrderedMap.set
refresh key entry c = record c {
  entries = OrderedMap.set key entry (OrderedMap.delete key c.entries);
}

abbrev get_found :
    Text
    → Option Number
    → ℕ
    → ResponseCache
    → Option CachedResponse
    → ResponseCache × Option CachedResponse
get_found key max_age now c none = (c, none)
get_found key max_age now c (some entry) =
    if leb (entry.stored_at + c.ttl_ms) now
    then (remove key entry c, none)
    else if older_than max_age entry.stored_at now
    then (c, none)
    else (refresh key entry c, some entry)

unfoldable pub get :
    Text → Option Number → ℕ → ResponseCache → ResponseCache × Option CachedResponse
unfolding OrderedMap.get remove refresh
get key max_age now c = get_found key max_age now c (OrderedMap.get key c.entries)

-- The loop of `set`: the oldest entry goes until the bodies fit.
unfoldable pub evict : ℕ → Entries → ℕ → Entries × ℕ
evict max [] total = ([], total)
evict max ((key, entry) ∷ entries) total =
    let rest = evict max entries (total - length entry.body) in
    if ltb max total then rest else ((key, entry) ∷ entries, total)

abbrev drop_previous : Text → ResponseCache → Option CachedResponse → ResponseCache
drop_previous key c none = c
drop_previous key c (some previous) = remove key previous c

abbrev fit : ResponseCache → Entries × ℕ → ResponseCache
fit c (entries, total) = record c { entries = entries; total_bytes = total }

unfoldable pub insert : Text → CachedResponse → ResponseCache → ResponseCache
insert key entry c =
    let c' = drop_previous key c (OrderedMap.get key c.entries) in
    fit c' (
      evict c'.max_bytes (OrderedMap.set key entry c'.entries) (c'.total_bytes + length entry.body))

-- The argument's `stored_at` is replaced by the time of the call.
unfoldable pub set : Text → CachedResponse → ℕ → ResponseCache → ResponseCache
unfolding enabled insert
set key entry now c =
    if not (enabled c) || ltb max_cached_entry_bytes (length entry.body)
    then c
    else if ltb c.max_bytes (length entry.body)
    then c
    else insert key (record entry { stored_at = now }) c
