-- ===== src/Common.antt =====
-- apps/api/src/common/types.ts: the types that routing, credits and the proxy share.
use firecrawl_gateway.Prelude.{ℕ, Bool, Option, HasEq, nat_beq, ◌≡◌, ◌↔◌, true, arith}
use firecrawl_gateway.Prelude.Text.{Text}

pub data Backend : Type 0 where
  cloud self_hosted : Backend

abbrev backend_rank : Backend → ℕ
backend_rank cloud = 0
backend_rank self_hosted = 1

pub backend_eq_iff : (a b : Backend) → (nat_beq (backend_rank a) (backend_rank b) ≡ true) ↔ (a ≡ b)
backend_eq_iff a b = ground arith

instance abbrev pub backend_eq : HasEq Backend
backend_eq = record {
  equal = λ a b. nat_beq (backend_rank a) (backend_rank b);
  equal_iff = backend_eq_iff;
}

pub data CloudKeyRole : Type 0 where
  cloud fallback : CloudKeyRole

abbrev role_rank : CloudKeyRole → ℕ
role_rank CloudKeyRole.cloud = 0
role_rank fallback = 1

pub role_eq_iff : (a b : CloudKeyRole) → (nat_beq (role_rank a) (role_rank b) ≡ true) ↔ (a ≡ b)
role_eq_iff a b = ground arith

instance abbrev pub role_eq : HasEq CloudKeyRole
role_eq = record { equal = λ a b. nat_beq (role_rank a) (role_rank b); equal_iff = role_eq_iff }

pub record CloudKeyEntry : Type 0 where
  pub key : Text
  pub role : CloudKeyRole

-- Why a request needs Cloud; the source keeps the sentence that says so.
pub data CloudReason : Type 0 where
  managed_path has_actions has_agent has_enterprise has_proxy : CloudReason

pub record NeedsCloudResult : Type 0 where
  pub required : Bool
  pub reason : Option CloudReason

pub record Response : Type 0 where
  pub status : ℕ
  pub content_type : Option Text

pub data ResultKind : Type 0 where
  response network_error : ResultKind

-- `stream` is the body that is still to come, `body` one that was read or made up.
pub record ProxyResult : Type 0 where
  pub kind : ResultKind
  pub backend : Backend
  pub response : Option Response
  pub error : Option Text
  pub body : Option Text
  pub stream : Option Text
