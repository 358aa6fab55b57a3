-- ===== src/Tests/Routing.antt =====
-- Routing and authentication on the two backends and the two keys.
use patchbay.Common.{
  ℕ, ◌≡◌, ◌↔◌, refl, true, false, none, some, [], ◌∷◌, map, inl, In, Distinct, ok, err, arith,
}
use patchbay.Common.Texts.{Text, codes, text_eq, starts_with, trim_end_matches}
use patchbay.Config.{
  Backend, Privacy, VirtualKey, PolicySelection, GatewayConfig, RawPolicy, RawConfig, ConfigError,
  expose, serves_model, has_capability_tags,
}
use patchbay.Config.Load.{
  Env, Parsers, load, from_toml_str, resolve_backends, resolve_backend, resolve_api_key,
  resolve_virtual_keys, resolve_virtual_key, resolve_policy, is_valid_env_name,
}
use patchbay.Common.Maps.{get, insert}
use patchbay.Server.Boot.{router_from_config-routes}
use patchbay.Config.Errors.{Failure}
use patchbay.Config.Errors.Truthful.{load-Failure}
use patchbay.Config.Coherent.{IsCoherent, from_toml_str_iff}
use patchbay.Router.{
  PrivacyClass, TypedQuery, Selection, admits, Router, query_for, gather, eligible, select, resolve,
  classify, route, static_priority,
}
use patchbay.Router.Typed.{IsStamped, stamped_private, gathered, selected, IsSelected-local}
use patchbay.Router.Eligible.{route-eligible, class_of}
use patchbay.Router.Ewma.{EwmaLatency, ewma_choose, router_from_config}
use patchbay.Router.Latency.{IsFastest, ewma_choose-IsFastest}
use patchbay.Auth.{KeyIdentity, from_virtual_keys, from_request_parts}
use patchbay.Auth.Admits.{AdmittedAs, from_request_parts_iff}
use patchbay.Tests.{
  thousandths, thousandths-IsTotalOrder, cloud, desk, backends, ann, virtual_keys, env,
}

abbrev router : Router
router = record { backends = backends; policy = static_priority }

private_route : route router (query_for (codes "m")) true ≡ ok desk
unfolding route resolve classify select gather eligible admits serves_model has_capability_tags
    static_priority text_eq
private_route = refl

shareable_route : route router (query_for (codes "m")) false ≡ ok cloud
unfolding route resolve classify select gather eligible admits serves_model has_capability_tags
    static_priority text_eq
shareable_route = refl

eligible-desk : eligible (class_of true) (query_for (codes "m")) desk ≡ true
unfolding eligible admits serves_model has_capability_tags text_eq
eligible-desk = refl

route-eligible_example :
    In desk backends
    × (true ≡ true → Privacy.local ≡ Privacy.local)
    × (serves_model desk (codes "m") ≡ true)
    × (has_capability_tags desk [] ≡ true)
route-eligible_example = route-eligible router (query_for (codes "m")) true private_route

abbrev measured : EwmaLatency thousandths
measured = record { alpha = 500; stats = (codes "cloud", 900) ∷ (codes "desk", 20) ∷ [] }

ewma_choose-IsFastest_example :
    (i : ℕ) × (c : Backend) × (ewma_choose thousandths measured backends ≡ some i)
    × IsFastest thousandths thousandths-IsTotalOrder measured backends i c
ewma_choose-IsFastest_example =
    ewma_choose-IsFastest thousandths thousandths-IsTotalOrder measured cloud (desk ∷ [])

virtual_keys-Distinct : Distinct (map (λ (k : VirtualKey). expose k.key) virtual_keys)
virtual_keys-Distinct = ground arith

abbrev ann_identity : KeyIdentity
ann_identity = record { name = codes "ann"; enforce_private = true }

from_request_parts_iff_example :
    (from_request_parts (from_virtual_keys virtual_keys) (some (codes "Bearer s1"))
      ≡ ok ann_identity)
    ↔ AdmittedAs virtual_keys (some (codes "Bearer s1")) ann_identity
from_request_parts_iff_example =
    from_request_parts_iff virtual_keys (some (codes "Bearer s1")) ann_identity
      virtual_keys-Distinct

-- A file with one backend and one key, for which the TOML parser is a constant function.
abbrev pub raw : RawConfig ℕ
raw = record {
  listen = codes "l";
  backends =
      record {
        name = codes "desk";
        base_url_env = codes "D";
        api_key_env = none;
        models = codes "m" ∷ [];
        capability_tags = [];
        privacy = Privacy.local;
      }
      ∷ [];
  virtual_keys = record { name = codes "ann"; key_env = codes "A"; enforce_private = true } ∷ [];
  policy = RawPolicy.ewma_latency 500;
}

abbrev pub parsers : Parsers ℕ
parsers = record { Addr = Text; parse_toml = λ t. ok raw; parse_addr = λ t. ok t }

abbrev pub config : GatewayConfig Text ℕ
config = record {
  listen = codes "l";
  backends = desk ∷ [];
  virtual_keys = ann ∷ [];
  policy = PolicySelection.ewma_latency 500;
}

from_toml_str_iff_example : (from_toml_str thousandths parsers [] env ≡ ok config) ↔ (
    (r : RawConfig ℕ) × (parsers.parse_toml [] ≡ ok r)
    × IsCoherent thousandths parsers env r config)
from_toml_str_iff_example = from_toml_str_iff thousandths parsers [] env config

config_loads : from_toml_str thousandths parsers [] env ≡ ok config
unfolding from_toml_str resolve_backends resolve_backend resolve_api_key resolve_virtual_keys
    resolve_virtual_key resolve_policy is_valid_env_name text_eq starts_with trim_end_matches get
    insert
config_loads = refl

router_from_config-routes_example :
    (r : Router) × (router_from_config thousandths config ≡ some r)
    × ((c : Backend) × (route r (query_for (codes "m")) true ≡ ok c))
router_from_config-routes_example =
    router_from_config-routes thousandths thousandths-IsTotalOrder parsers [] env config
      (query_for (codes "m")) true desk config_loads (inl refl) eligible-desk

-- The variables are not set.
abbrev bare_env : Env
bare_env name = none

abbrev unset : ConfigError ℕ
unset = ConfigError.missing_env (codes "desk") (codes "base_url_env") (codes "D")

loading_fails : load thousandths parsers (λ path. true) (λ path. ok []) bare_env ≡ err unset
unfolding load from_toml_str resolve_backends resolve_backend is_valid_env_name text_eq
loading_fails = refl

load-Failure_example : Failure thousandths parsers bare_env (λ path. true) (λ path. ok []) unset
load-Failure_example =
    load-Failure thousandths parsers bare_env (λ path. true) (λ path. ok []) unset loading_fails

abbrev desk_selection : Selection PrivacyClass.private
desk_selection = record { backend = desk }

abbrev private_query : TypedQuery PrivacyClass.private
private_query = record { query = query_for (codes "m") }

private_query-IsStamped : IsStamped PrivacyClass.private private_query
unfolding classify
private_query-IsStamped = stamped_private (query_for (codes "m")) true private_query refl

desk_selected : select (gather private_query backends) static_priority ≡ some desk_selection
unfolding select gather eligible admits serves_model has_capability_tags static_priority text_eq
desk_selected = refl

IsSelected-local_example : desk.privacy ≡ Privacy.local
IsSelected-local_example = IsSelected-local desk_selection (
    selected (gather private_query backends) static_priority desk_selection
      (gathered private_query backends (gather private_query backends) private_query-IsStamped refl)
      desk_selected)
