-- ===== src/Cache/Collect.antt =====
-- `captureForCache` and `collectForCache` of apps/api/src/proxy/proxy.service.ts: which responses
-- are stored in the cache. The reads of the split stream come one by one.
use firecrawl_gateway.Prelude.{
  ℕ, ◌+◌, Bool, true, false, ◌&&◌, List, [], ◌∷◌, ◌++◌, Option, none, some, length, ltb, ◌===◌,
  nat_eq, if◌then◌else◌,
}
use firecrawl_gateway.Prelude.Text.{Text, codes, codes_eq}
use firecrawl_gateway.Prelude.Json.{Json, obj, property}
use firecrawl_gateway.Common.{Backend, cloud, Response, ResultKind, response, ProxyResult}
use firecrawl_gateway.Proxy.Headers.{is_json_content_type}
use firecrawl_gateway.Cache.{CachedResponse, max_cached_entry_bytes}
use firecrawl_gateway.Cache.Lookup.{is_true}

-- What one `read` gives, or the collector's timer: the body's next part, its end, an error, or the
-- end of the time that is allowed.
pub data Read : Type 0 where
  chunk : Text → Read
  finished broken timed_out : Read

-- The loop of `collectForCache`, with the parts and the size so far: the body, if all of it came.
unfoldable pub collect : Text → ℕ → List Read → Option Text
collect chunks size [] = none
collect chunks size (chunk value ∷ reads) =
    let rest = collect (chunks ++ value) (size + length value) reads in
    if ltb max_cached_entry_bytes (size + length value) then none else rest
collect chunks size (finished ∷ reads) = some chunks
collect chunks size (broken ∷ reads) = none
collect chunks size (timed_out ∷ reads) = none

abbrev pub json_type : Option Response → Option Text
json_type none = none
json_type (some r) =
    if r.status === 200 && is_json_content_type r.content_type then r.content_type else none

abbrev pub of_cloud : Backend → ResultKind → Option Text → Bool
of_cloud cloud response (some stream) = true
of_cloud _ _ _ = false

-- The content type under which a result is collected, if it is.
unfoldable pub capture_type : ProxyResult → Option Text
unfolding is_json_content_type
capture_type result =
    if of_cloud result.backend result.kind result.stream then json_type result.response else none

unfoldable pub succeeded : Option Json → Bool
unfolding property
succeeded (some (obj fs)) = is_true (property (codes "success") fs)
succeeded _ = false

unfoldable pub stored_body : (Text → Option Json) → Text → Option Text → Option CachedResponse
unfolding succeeded
stored_body parse content_type none = none
stored_body parse content_type (some body) =
    if succeeded (parse body)
    then some (record { status = 200; content_type = content_type; body = body; stored_at = 0 })
    else none

-- What `collectForCache` gives to `set`, if anything; `set` puts the time.
unfoldable pub capture_for_cache :
    (Text → Option Json) → ProxyResult → List Read → Option CachedResponse
unfolding capture_type collect stored_body
capture_for_cache parse result reads = elim (capture_type result) [
  | none ↦ none
  | some content_type ↦ stored_body parse content_type (collect [] 0 reads)
]
