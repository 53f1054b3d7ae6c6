-- ===== src/ApiKeys/Validation.antt =====
-- `validateApiKey` of api-keys/api-keys.service.ts, among writes of the table.
use firecrawl_gateway.Prelude.{ℕ, List, Option, some, ◌≡◌}
use firecrawl_gateway.Prelude.Text.{Text, codes_eq}
use firecrawl_gateway.Reads.{Found, begin}
use firecrawl_gateway.Reads.World.{World, Event, calls, step, run}
use firecrawl_gateway.Reads.Calls.{outcome}
use firecrawl_gateway.Reads.Acknowledged.{AllKeep, acknowledged, acknowledged_call}
use firecrawl_gateway.ApiKeys.{ApiKeyRecord, api_key_validation_cache_ttl_ms}
use firecrawl_gateway.ApiKeys.Store.{validations}

-- The table, the cache and the reads under way; a row is looked for by the hash of its key.
abbrev pub Keys : Type 0
Keys = World Text (Option ApiKeyRecord)

unfoldable pub step_keys : Keys → Event Text (Option ApiKeyRecord) → Keys
step_keys w event = step validations api_key_validation_cache_ttl_ms w event

unfoldable pub run_keys : Keys → List (Event Text (Option ApiKeyRecord)) → Keys
run_keys w events = run validations api_key_validation_cache_ttl_ms w events

-- `validateApiKey`: what the call finds at once.
unfoldable pub validate_api_key : Text → ℕ → Keys → Found (Option ApiKeyRecord)
validate_api_key hash now w = (begin hash w.next now w.reads).1

-- The row under a hash is changed to `row`, by `revokeApiKey` (to none) or `updateApiKeyLimits`, and
-- the caller has invalidated the hash.
unfoldable pub changed_key :
    Text
    → Option ApiKeyRecord
    → (Text → Option ApiKeyRecord)
    → List (Event Text (Option ApiKeyRecord))
    → List (Event Text (Option ApiKeyRecord))
    → List (Event Text (Option ApiKeyRecord))
    → Keys
changed_key hash row db before between after =
    acknowledged validations api_key_validation_cache_ttl_ms hash row db before between after

-- Once a key has been revoked, or its limits changed, and the call that did it has returned, every
-- later validation of the key returns its new state, and none at all for a revoked key, also if a
-- validation that had started before ends only afterwards. The key is not changed again before the
-- validation ends; anything else may happen before, in between and afterwards.
pub validate_api_key-changed_key :
    (hash : Text) (row seen : Option ApiKeyRecord) (db : Text → Option ApiKeyRecord)
    (before between after events : List (Event Text (Option ApiKeyRecord))) (now : ℕ)
    → AllKeep hash between
    → AllKeep hash after
    → AllKeep hash events
    → let w = changed_key hash row db before between after in
      outcome (validate_api_key hash now w) w.next (run_keys (step_keys w (calls hash now)) events)
        ≡ some seen
      → seen ≡ row
unfolding validate_api_key run_keys step_keys changed_key
validate_api_key-changed_key hash row seen db before between after events now =
    acknowledged_call validations api_key_validation_cache_ttl_ms hash row seen db before between
      after events now
