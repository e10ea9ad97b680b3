-- ===== src/Provider/Config.antt =====
-- The settings of a provider in app/multi_provider.py (`ProviderConfig`, `RouteTarget`).
use prismux.Prelude.{ℕ, Bool, Option, Dict, Str}

pub data AdapterKind : Type 0 where
  openai_compatible anthropic : AdapterKind

-- The rates are in bucket units per tick and the bursts in bucket units (see Limiter.antt).
pub record ProviderConfig : Type 0 where
  pub id : Str
  pub name : Str
  pub preset : Str
  pub adapter : AdapterKind
  pub base_url : Str
  pub models_url : Str
  pub enabled : Bool
  pub is_default : Bool
  pub default_model : Str
  pub rate_limit_rpm : Option ℕ
  pub request_burst : ℕ
  pub tokens_per_minute : Option ℕ
  pub token_burst : Option ℕ
  pub max_concurrency : Option ℕ
  pub timeout_seconds : ℕ
  pub anthropic_version : Str
  pub headers : Dict Str Str

pub record RouteTarget : Type 0 where
  pub provider_id : Str
  pub model : Str
