-- ===== src/Policy/Tests.antt =====
-- Tests of proxy/policy.ts, and its theorems at concrete inputs.
use firecrawl_gateway.Prelude.{◌≡◌, refl, true, false, List, [], ◌∷◌, none, some}
use firecrawl_gateway.Prelude.Text.{codes}
use firecrawl_gateway.Prelude.Json.{Json, num, str, arr, obj, nil, cons, end, field, plus}
use firecrawl_gateway.Common.{cloud, fallback, CloudKeyEntry, NeedsCloudResult, has_actions}
use firecrawl_gateway.Policy.{PrivacyFlags}
use firecrawl_gateway.Policy.Paths.{cloud_only_path_patterns, some_pattern, cannot_verb}

managed_path_matches :
    some_pattern cloud_only_path_patterns (codes "/v1/scrape/job-7/interact/stop") ≡ true
unfolding some_pattern
managed_path_matches = refl

plain_path_does_not_match : some_pattern cloud_only_path_patterns (codes "/v1/agents") ≡ false
unfolding some_pattern
plain_path_does_not_match = refl

cannot_post : cannot_verb (codes "error: cannot  post /v1/x") ≡ true
unfolding cannot_verb
cannot_post = refl

cannot_inside_a_word : cannot_verb (codes "xcannot get") ≡ false
unfolding cannot_verb
cannot_inside_a_word = refl

-- {"options": [{"headers": {"X-Api-Key": "k"}}], "actions": [1]}
abbrev sample_body : Json
sample_body = obj (
    field (codes "options")
      (arr (
        cons
          (obj
            (field (codes "headers") (obj (field (codes "X-Api-Key") (str (codes "k")) end)) end))
          nil))
      (field (codes "actions") (arr (cons (num (plus 1)) nil)) end))

abbrev two_keys : List CloudKeyEntry
two_keys =
    record { key = codes "k1"; role = fallback } ∷ record { key = codes "k2"; role = cloud } ∷ []

abbrev needs_nothing : NeedsCloudResult
needs_nothing = record { required = false; reason = none }

abbrev needs_actions : NeedsCloudResult
needs_actions = record { required = true; reason = some has_actions }

abbrev open_privacy : PrivacyFlags
open_privacy = record { has_sensitive_headers = false; has_private_target_url = false }
