-- ===== src/RegistryProvider.antt =====
-- crates/pm-data/src/registry_provider.rs: where the registry's pages come from. The trait is a record
-- of its methods; an asynchronous call takes the state of the world and returns the next one.
pub mod Gamma
pub mod Normalize
use rtt.Prelude.{ℕ, Bool, true, false, Option, List, Result}
use rtt.Order.{Text}
use rtt.Market.{MarketMeta}
use rtt.Universe.{QuarantinedMarketRecord}

pub record RegistryPageRequest : Type 0 where
  pub offset : ℕ
  pub limit : ℕ

pub record RegistryPage : Type 0 where
  pub markets : List MarketMeta
  pub quarantined : List QuarantinedMarketRecord
  pub next_offset : Option ℕ

pub data RegistryProviderError : Type 0 where
  transient permanent : Text → RegistryProviderError

abbrev pub is_retryable : RegistryProviderError → Bool
is_retryable (transient message) = true
is_retryable (permanent message) = false

-- `to_string()`.
abbrev pub message_of : RegistryProviderError → Text
message_of (transient message) = message
message_of (permanent message) = message

pub record RegistryProvider (World : Type 0) : Type 0 where
  pub provider_name : Text
  pub fetch_page : RegistryPageRequest → World → Result RegistryProviderError RegistryPage × World
