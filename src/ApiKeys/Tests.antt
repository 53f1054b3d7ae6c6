-- ===== src/ApiKeys/Tests.antt =====
-- Tests of the API keys (api-keys/api-keys.service.ts), and the theorems at concrete inputs.
use firecrawl_gateway.Prelude.{true, false, List, [], ◌∷◌, Option, none, some, ◌≡◌, refl}
use firecrawl_gateway.Prelude.OrderedMap.{get, set, delete, has}
use firecrawl_gateway.Prelude.Text.{Text, codes, codes_beq, codes_eq}
use firecrawl_gateway.Reads.{begin, finish, invalidate}
use firecrawl_gateway.Reads.World.{Event, calls, queries, settles, step, run}
use firecrawl_gateway.Reads.Calls.{outcome}
use firecrawl_gateway.ApiKeys.{
  ApiKeyRecord, find_valid, revoke_api_key, hit_quota, record_newest, start_touch, finish_touch,
}
use firecrawl_gateway.ApiKeys.Table.{revoke_api_key-find_valid}
use firecrawl_gateway.ApiKeys.Validation.{
  validate_api_key, changed_key, run_keys, step_keys, validate_api_key-changed_key,
}

abbrev stored_key : Text → Text → ApiKeyRecord
stored_key id hash = record {
  id = id;
  name = [];
  key_hash = hash;
  key_value = none;
  key_prefix = [];
  revoked = false;
  created_at = 0;
  updated_at = 0;
  last_used_at = none;
  expires_at = none;
  rate_limit_per_minute = none;
  monthly_quota = some 2;
}

abbrev key_a : ApiKeyRecord
key_a = stored_key (codes "a") (codes "h")

abbrev key_b : ApiKeyRecord
key_b = stored_key (codes "b") (codes "g")

-- A second key with the hash of the first.
abbrev key_c : ApiKeyRecord
key_c = stored_key (codes "c") (codes "h")

revoke_api_key-find_valid_example :
    find_valid (codes "h") (revoke_api_key (codes "a") (key_b ∷ key_a ∷ key_c ∷ [])).0 ≡ some key_c
unfolding find_valid codes_beq
revoke_api_key-find_valid_example =
    revoke_api_key-find_valid (codes "a") (codes "h") (key_b ∷ key_a ∷ key_c ∷ [])
      ((refl, (refl, tt)), ((refl, tt), (tt, tt)))

-- The table has the key, a validation reads it, and the key is revoked before that validation ends.
abbrev table : Text → Option ApiKeyRecord
table hash = some key_a

abbrev Keyed : Type 0
Keyed = Event Text (Option ApiKeyRecord)

abbrev reading : List Keyed
reading = calls (codes "h") 5 ∷ queries 0 ∷ []

abbrev ending : List Keyed
ending = settles 0 6 ∷ []

validate_after_revoke :
    let w = changed_key (codes "h") none table reading [] ending in
    outcome
      (validate_api_key (codes "h") 7 w)
      w.next
      (run_keys (step_keys w (calls (codes "h") 7)) (queries 1 ∷ []))
    ≡ some none
unfolding validate_api_key changed_key run_keys step_keys run step begin finish invalidate get set
    delete codes_beq
validate_after_revoke = refl

validate_api_key-changed_key_example : ◌≡◌ {A = Option ApiKeyRecord} none none
validate_api_key-changed_key_example =
    validate_api_key-changed_key (codes "h") none none table reading [] ending (queries 1 ∷ []) 7 tt
      (refl, tt) (refl, tt) validate_after_revoke

quota_spent :
    hit_quota (λ key. some (record { count = 3; reset_at = 9 })) (codes "2026") (codes "09") key_a
    ≡ some (record { limit = 2; remaining = 0; reset_at = 9; exceeded = true })
unfolding hit_quota
quota_spent = refl

-- A key that was touched is not written again within the minute.
touch_twice :
    start_touch (codes "a") 60999 (finish_touch (codes "a") 1000 [])
    ≡ ((codes "a", 1000) ∷ [], false)
unfolding start_touch finish_touch record_newest get set delete has codes_beq
touch_twice = refl
