-- ===== src/RateLimits/Middleware.antt =====
-- apps/api/src/common/rate-limit.middleware.ts, and the query of common/rate-limit-counter.ts that
-- stores a flush.
use firecrawl_gateway.Prelude.{
  ℕ, ◌+◌, ◌-◌, ◌/◌, ◌≤◌, ◌<◌, Bool, false, ◌||◌, List, [], ◌∷◌, Option, none, some, ltb, leb, ◌===◌,
  nat_eq, ◌≡◌, refl, arith, if◌then◌else◌,
}
use firecrawl_gateway.Prelude.Text.{Text, codes, codes_beq, codes_eq}
use firecrawl_gateway.RateLimits.{Row, RateLimitHit, rate_limit_window_ms}

abbrev pub max_requests : ℕ
max_requests = 300

before_question : Text → Text
before_question [] = []
before_question (c ∷ t) = if c === b'?' then [] else c ∷ before_question t

unfoldable pub is_exempt_path : Text → Bool
unfolding before_question
is_exempt_path url =
    let path = before_question url in
    path === codes "/health" || path === codes "/ready" || path === codes "/admin/api/metrics"

-- The key that a request is counted under.
unfoldable pub client_key : Text → Option Text → Text
client_key ip remote =
    if ip === []
    then elim remote [
      | none ↦ codes "unknown"
      | some address ↦ if address === [] then codes "unknown" else address
    ]
    else ip

pub client_key_named : (ip : Text) (remote : Option Text) → (client_key ip remote === []) ≡ false
unfolding client_key codes_beq
client_key_named [] none = refl
client_key_named [] (some []) = refl
client_key_named [] (some (c ∷ t)) = refl
client_key_named (c ∷ t) remote = refl

pub record LimitHeaders : Type 0 where
  pub limit : ℕ
  pub remaining : ℕ
  pub reset : ℕ

pub data Passage : Type 0 where
  goes_on : Option LimitHeaders → Passage
  too_many_requests : LimitHeaders → Passage

limit_headers : RateLimitHit → LimitHeaders
limit_headers h = record {
  limit = max_requests;
  remaining = max_requests - h.count;
  reset = (h.reset_at + 999) / 1000;
}

-- `use`: the hit is `none` where it throws.
unfoldable pub admit_request : Text → Option RateLimitHit → Passage
unfolding is_exempt_path limit_headers
admit_request url hit = if is_exempt_path url then goes_on none else elim hit [
  | none ↦ goes_on none
  | some h ↦
      if ltb max_requests h.count
      then too_many_requests (limit_headers h)
      else goes_on (some (limit_headers h))
]

window_end : Option ℕ → ℕ → ℕ
window_end none now = now + rate_limit_window_ms
window_end (some t) now = t

-- The row that the query leaves and returns.
unfoldable pub upsert : ℕ → Option ℕ → ℕ → Option Row → Row
unfolding window_end
upsert delta fixed now none = record { count = delta; reset_at = window_end fixed now }
upsert delta fixed now (some row) =
    if leb row.reset_at now
    then record { count = delta; reset_at = window_end fixed now }
    else record { count = row.count + delta; reset_at = row.reset_at }

-- Flushes of one key by any instances: how much, under which pinned end, and when.
pub record Write : Type 0 where
  pub delta : ℕ
  pub fixed : Option ℕ
  pub at : ℕ

unfoldable pub upsert_all : List Write → Row → Row
unfolding upsert
upsert_all [] row = row
upsert_all (w ∷ ws) row = upsert_all ws (upsert w.delta w.fixed w.at (some row))

abbrev pub total_delta : List Write → ℕ
total_delta [] = 0
total_delta (w ∷ ws) = w.delta + total_delta ws

abbrev pub AllBefore : ℕ → List Write → Type 0
AllBefore t [] = Unit {0}
AllBefore t (w ∷ ws) = (w.at < t) × AllBefore t ws

abbrev written_by : Row → List Write → Row
written_by row ws = record { count = row.count + total_delta ws; reset_at = row.reset_at }

-- Within a window the flushes of all instances add up, and none moves the window's end; the first
-- flush at its end or later starts a window with its own requests alone.
pub upsert_all_window :
    (ws : List Write) (row : Row) (late : Write)
    → AllBefore row.reset_at ws
    → row.reset_at ≤ late.at
    → (upsert_all ws row ≡ written_by row ws)
      × (upsert late.delta late.fixed late.at (some (upsert_all ws row))
          ≡ upsert late.delta late.fixed late.at none)
unfolding upsert_all upsert
upsert_all_window [] row late v h = ground arith
upsert_all_window (w ∷ ws) row late v h = ground (
  arith,
  upsert_all_window ws (record { count = row.count + w.delta; reset_at = row.reset_at }) late v.1 h,
)
