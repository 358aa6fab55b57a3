-- ===== src/Config.antt =====
-- src/config.rs: the resolved configuration, its raw form and the errors of loading.
pub mod Load
pub mod Backends
pub mod Keys
pub mod Errors
pub mod Coherent
pub mod Secrets
use patchbay.Common.{Bool, Option, List, all, any}
use patchbay.Common.Texts.{Text, text_eq}

pub data Privacy : Type 0 where
  local external : Privacy

pub record Secret : Type 0 where
  pub value : Text

-- `Secret::expose`
abbrev pub expose : Secret → Text
expose s = s.value

pub record Backend : Type 0 where
  pub name : Text
  pub base_url : Text
  pub api_key : Option Secret
  pub models : List Text
  pub capability_tags : List Text
  pub privacy : Privacy

unfoldable pub serves_model : Backend → Text → Bool
serves_model b model = any (λ m. text_eq m model) b.models

unfoldable pub has_capability_tags : Backend → List Text → Bool
has_capability_tags b required = all (λ t. any (λ c. text_eq c t) b.capability_tags) required

pub record VirtualKey : Type 0 where
  pub name : Text
  pub key : Secret
  pub enforce_private : Bool

-- `F` is the type of `f64`.
pub data PolicySelection (F : Type 0) : Type 0 where
  static_priority : PolicySelection F
  ewma_latency : F → PolicySelection F

-- `Addr` is the type of socket addresses.
pub record GatewayConfig (Addr F : Type 0) : Type 0 where
  pub listen : Addr
  pub backends : List Backend
  pub virtual_keys : List VirtualKey
  pub policy : PolicySelection F

pub data ConfigError (F : Type 0) : Type 0 where
  not_found parse : Text → ConfigError F
  io invalid_listen : Text → Text → ConfigError F
  no_backends empty_backend_name empty_virtual_key_name : ConfigError F
  duplicate_backend no_models : Text → ConfigError F
  invalid_env_name missing_env : Text → Text → Text → ConfigError F
  invalid_base_url empty_entry : Text → Text → ConfigError F
  duplicate_virtual_key empty_virtual_key : Text → ConfigError F
  invalid_key_env_name missing_key_env : Text → Text → ConfigError F
  duplicate_virtual_key_secret : Text → Text → ConfigError F
  invalid_alpha : F → ConfigError F

pub record RawBackend : Type 0 where
  pub name : Text
  pub base_url_env : Text
  pub api_key_env : Option Text
  pub models : List Text
  pub capability_tags : List Text
  pub privacy : Privacy

pub record RawVirtualKey : Type 0 where
  pub name : Text
  pub key_env : Text
  pub enforce_private : Bool

pub data RawPolicy (F : Type 0) : Type 0 where
  static_priority : RawPolicy F
  ewma_latency : F → RawPolicy F

pub record RawConfig (F : Type 0) : Type 0 where
  pub listen : Text
  pub backends : List RawBackend
  pub virtual_keys : List RawVirtualKey
  pub policy : RawPolicy F
