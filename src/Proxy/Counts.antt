-- ===== src/Proxy/Counts.antt =====
-- How often the calls of one request (apps/api/src/proxy/proxy.service.ts) go where.
use firecrawl_gateway.Prelude.{
  ℕ, suc, ◌≤◌, Bool, true, false, List, [], ◌∷◌, Option, none, some, nat_eq, ◌≡◌, refl, ap, arith,
  if◌then◌else◌, All,
}
use firecrawl_gateway.Prelude.Text.{Text, codes_eq}
use firecrawl_gateway.Prelude.Sets.{contains, add, contains_self, contains-add}
use firecrawl_gateway.Common.{cloud, self_hosted}
use firecrawl_gateway.Proxy.{UpstreamCall}

abbrev pub self_hosted_calls : List UpstreamCall → ℕ
self_hosted_calls [] = 0
self_hosted_calls (call ∷ calls) = elim call.backend [
  | cloud ↦ self_hosted_calls calls
  | self_hosted ↦ suc (self_hosted_calls calls)
]

abbrev pub id_of_key : (Text → Text) → Option Text → List Text → List Text
id_of_key key_id none ids = ids
id_of_key key_id (some key) ids = key_id key ∷ ids

-- The ids of the keys with which Cloud was called, the last first.
abbrev pub cloud_ids : (Text → Text) → List UpstreamCall → List Text
cloud_ids key_id [] = []
cloud_ids key_id (call ∷ calls) = id_of_key key_id call.api_key (cloud_ids key_id calls)

abbrev pub NoRepeat : List Text → Type 0
NoRepeat [] = Unit {0}
NoRepeat (id ∷ ids) = (contains id ids ≡ false) × NoRepeat ids

abbrev pub allowed_calls : Bool → ℕ
allowed_calls attempted = if attempted then 1 else 0

not_contained :
    (id : Text) (ids known : List Text)
    → All (λ i. contains i known ≡ true) ids
    → contains id known ≡ false
    → contains id ids ≡ false
unfolding contains
not_contained id [] known h e = refl
not_contained id (i ∷ ids) known h e = ground (
  arith,
  not_contained id ids known h.1 e,
  codes_eq.equal_iff i id,
  λ (q : i ≡ id). ap (λ j. contains j known) q,
  h.0,
)

All-add :
    (id : Text) (ids known : List Text)
    → All (λ i. contains i known ≡ true) ids
    → All (λ i. contains i (add id known) ≡ true) ids
All-add id [] known h = tt
All-add id (i ∷ ids) known h = (contains-add i id known h.0, All-add id ids known h.1)

-- At most one call of self-hosted, none before it is marked, and no Cloud key twice.
pub record OnceOf (key_id : Text → Text) (calls : List UpstreamCall) (ids : List Text)
    (attempted : Bool) : Type 0 where
  pub one_self_hosted : self_hosted_calls calls ≤ allowed_calls attempted
  pub no_key_twice : NoRepeat (cloud_ids key_id calls)
  pub known : All (λ i. contains i ids ≡ true) (cloud_ids key_id calls)

pub cloud_call-OnceOf :
    (key_id : Text → Text) (calls : List UpstreamCall) (ids : List Text) (attempted : Bool)
    (key : Text)
    → contains (key_id key) ids ≡ false
    → OnceOf key_id calls ids attempted
    → OnceOf key_id
        (record { backend = cloud; api_key = some key } ∷ calls)
        (add (key_id key) ids)
        attempted
cloud_call-OnceOf key_id calls ids attempted key h v = record {
  one_self_hosted = v.one_self_hosted;
  no_key_twice =
      (not_contained (key_id key) (cloud_ids key_id calls) ids v.known h, v.no_key_twice);
  known =
      (contains_self (key_id key) ids, All-add (key_id key) (cloud_ids key_id calls) ids v.known);
}

pub self_hosted_call-OnceOf :
    (key_id : Text → Text) (calls : List UpstreamCall) (ids : List Text)
    → OnceOf key_id calls ids false
    → OnceOf key_id (record { backend = self_hosted; api_key = none } ∷ calls) ids true
self_hosted_call-OnceOf key_id calls ids v = record {
  one_self_hosted = omega (arith, v.one_self_hosted);
  no_key_twice = v.no_key_twice;
  known = v.known;
}

pub no_call-OnceOf :
    (key_id : Text → Text) (calls : List UpstreamCall) (ids : List Text)
    → OnceOf key_id calls ids false
    → OnceOf key_id calls ids true
no_call-OnceOf key_id calls ids v = record {
  one_self_hosted = omega (arith, v.one_self_hosted);
  no_key_twice = v.no_key_twice;
  known = v.known;
}
