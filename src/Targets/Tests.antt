-- ===== src/Targets/Tests.antt =====
-- Tests of common/utils.ts, and its theorem at a concrete input.
use firecrawl_gateway.Prelude.{true, false, ◌≡◌, refl}
use firecrawl_gateway.Prelude.Text.{codes, codes_beq, codes_eq}
use firecrawl_gateway.Prelude.Json.{Json, str, obj, end, field}
use firecrawl_gateway.Prelude.Sets.{contains}
use firecrawl_gateway.Targets.{is_private_hostname, collect_target_urls}
use firecrawl_gateway.Targets.Collected.{IsWebUrl, Occurs, collect_target_urls_iff}

private_network : is_private_hostname (codes "172.31.0.9") ≡ true
unfolding is_private_hostname codes_beq
private_network = refl

mapped_network : is_private_hostname (codes "[::ffff:c0a8:101]") ≡ true
unfolding is_private_hostname codes_beq
mapped_network = refl

public_address : is_private_hostname (codes "172.32.0.9") ≡ false
unfolding is_private_hostname codes_beq
public_address = refl

any_address : is_private_hostname (codes "0.0.0.0") ≡ true
unfolding is_private_hostname codes_beq
any_address = refl

-- The same address in its mapped form, as a URL's `hostname` writes it.
mapped_any_address : is_private_hostname (codes "[::ffff:0:0]") ≡ false
unfolding is_private_hostname codes_beq
mapped_any_address = refl

abbrev one_target : Json
one_target = obj (field (codes "url") (str (codes "HTTPS://example.com")) end)

finds_the_target : contains (codes "HTTPS://example.com") (collect_target_urls one_target) ≡ true
unfolding collect_target_urls contains codes_beq
finds_the_target = refl

collect_target_urls_iff_example :
    IsWebUrl (codes "HTTPS://example.com") × Occurs (codes "HTTPS://example.com") one_target
collect_target_urls_iff_example =
    (collect_target_urls_iff (codes "HTTPS://example.com") one_target).0 finds_the_target
