-- ===== src/Proxy/Calls.antt =====
-- apps/api/src/proxy/proxy.service.ts: `proxyCloud` and `proxySelfHosted`, the two calls that a
-- request is made of. The credits that a streamed answer names are recorded where the stream is
-- returned: the request makes no further call after an answer of that kind.
use firecrawl_gateway.Prelude.{
  ℕ, ◌+◌, Bool, true, not, ◌&&◌, List, Option, none, some, length, if◌then◌else◌,
}
use firecrawl_gateway.Prelude.Text.{Text, codes_eq}
use firecrawl_gateway.Prelude.Sets.{add}
use firecrawl_gateway.Common.{cloud, self_hosted, Response, ResultKind, response, ProxyResult}
use firecrawl_gateway.Policy.{is_self_hosted_unavailable}
use firecrawl_gateway.Breaker.{Settled, resolved, rejected, execute}
use firecrawl_gateway.Credits.{CreditReservation, reserve, record_response}
use firecrawl_gateway.Scanner.Values.{extract_credits_used}
use firecrawl_gateway.Proxy.{
  RoutePlan, UpstreamCall, Gateway, ProxyState, CloudAttempt, circuit_open_result, response_ok,
  proxy_to_backend,
}
use firecrawl_gateway.Proxy.Headers.{is_json_content_type}

module _ {L : Type 0} (g : Gateway L) where
  unfoldable pub clock : ProxyState L → ℕ
  clock s = g.time (length s.calls)

  unfoldable pub record_credits : CreditReservation → ℕ → Option ℕ → ProxyState L → ProxyState L
  unfolding clock
  record_credits r status used s =
      let (c, l) = record_response g.store (clock s) r status used s.credits s.ledger in
      record s { credits = c; ledger = l }

  -- The stream observer: `recordResponse` is called only if the scanner finds a value.
  abbrev record_found : CreditReservation → ℕ → Option ℕ → ProxyState L → ProxyState L
  record_found r status none s = s
  record_found r status (some used) s = record_credits r status (some used) s

  abbrev used_in : Bool → Option Text → Option ℕ
  used_in json none = none
  used_in json (some body) = if json then extract_credits_used body else none

  -- An answer with or without a stream.
  abbrev record_body :
      CreditReservation → Response → Option Text → Option Text → ProxyState L → ProxyState L
  record_body r answer none body s =
      record_credits r answer.status (used_in (is_json_content_type answer.content_type) body) s
  record_body r answer (some stream) body s =
      let json = is_json_content_type answer.content_type in
      if response_ok answer.status && json
      then record_found r answer.status (extract_credits_used stream) s
      else if not json
      then s
      else record_credits r answer.status (used_in json body) s

  abbrev record_kind :
      CreditReservation
      → ResultKind
      → Option Response
      → Option Text
      → Option Text
      → ProxyState L
      → ProxyState L
  record_kind r response (some answer) stream body s = record_body r answer stream body s
  record_kind r _ _ stream body s = s

  -- What `proxyCloud` does with the answer.
  unfoldable pub record_answer : CreditReservation → ProxyResult → ProxyState L → ProxyState L
  unfolding record_credits
  record_answer r result s = record_kind r result.kind result.response result.stream result.body s

  abbrev pub with_reservation :
      CreditReservation → ProxyState L → Option CloudAttempt × ProxyState L
  with_reservation r s =
      let (result, calls) = proxy_to_backend g cloud (some r.key) s.calls in
      (
        some (record { result = result; reservation = r }),
        record_answer r result (record s {
          attempted_cloud_key_ids = add r.key_id s.attempted_cloud_key_ids;
          upstream_attempted = true;
          calls = calls;
        }),
      )

  abbrev pub with_reserved :
      Option CreditReservation → ProxyState L → Option CloudAttempt × ProxyState L
  with_reserved none s = (none, s)
  with_reserved (some r) s = with_reservation r s

  -- The routing state after `reserve`.
  unfoldable pub reserve_key : RoutePlan → ProxyState L → Option CreditReservation × ProxyState L
  unfolding clock
  reserve_key plan s =
      let (r, c, l) =
        reserve g.store g.key_id g.pick (clock s) (clock s) s.cloud_api_keys plan.estimated_credits
          s.attempted_cloud_key_ids s.credits s.ledger in
      (r, record s { credits = c; ledger = l })

  unfoldable pub proxy_cloud : RoutePlan → ProxyState L → Option CloudAttempt × ProxyState L
  unfolding reserve_key record_answer
  proxy_cloud plan s = let (r, s') = reserve_key plan s in with_reserved r s'

  -- The call that the breaker guards, on the calls made and `upstreamAttempted`.
  abbrev pub guarded_call :
      List UpstreamCall × Bool → Settled ProxyResult × (List UpstreamCall × Bool)
  guarded_call (calls, attempted) =
      let (result, calls') = proxy_to_backend g self_hosted none calls in
      (resolved result, (calls', true))

  -- The call never throws.
  abbrev pub settled_result : Settled ProxyResult → ProxyResult
  settled_result (resolved result) = result
  settled_result rejected = circuit_open_result

  unfoldable pub proxy_self_hosted : ProxyState L → ProxyResult × ProxyState L
  unfolding clock circuit_open_result
  proxy_self_hosted s =
      let (r, b, c, rejected_call) =
        execute g.breaker_options (clock s) (g.time (length s.calls + 1)) guarded_call
          is_self_hosted_unavailable circuit_open_result s.breaker
          (s.calls, s.upstream_attempted) in
      (
        settled_result r,
        record s {
          self_hosted_attempted = true;
          breaker = b;
          calls = c.0;
          upstream_attempted = c.1;
        },
      )
