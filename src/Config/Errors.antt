-- ===== src/Config/Errors.antt =====
-- src/config.rs: the defects of a file, each with the error that tells it.
pub mod InBackends
pub mod InKeys
pub mod Truthful
use patchbay.Common.{
  ℕ, ◌≡◌, ◌⊎◌, Bool, true, false, ◌||◌, ◌&&◌, Option, none, some, List, [], ◌∷◌, map, Result, ok,
  err, In, is_empty, any,
}
use patchbay.Common.Texts.{Text, codes, contains, starts_with}
use patchbay.Common.Order.{Float64}
use patchbay.Config.{ConfigError, RawBackend, RawVirtualKey, RawPolicy, RawConfig}
use patchbay.Config.Load.{Env, Parsers, is_valid_env_name, get_or_default}

-- An entry of a list with those before it, the last of them first; `seen` came before the list.
abbrev pub Somewhere : {A : Type 0} → (List A → A → Type 0) → List A → List A → Type 0
Somewhere D seen [] = ⊥
Somewhere D seen (x ∷ xs) = D seen x ⊎ Somewhere D (x ∷ seen) xs

abbrev pub backend_names : List RawBackend → List Text
backend_names = map (λ (b : RawBackend). b.name)

abbrev pub key_names : List RawVirtualKey → List Text
key_names = map (λ (k : RawVirtualKey). k.name)

-- The variable that a field of the entry names.
pub data NamesVariable (r : RawBackend) : Text → Text → Type 0 where
  url_variable : NamesVariable r (codes "base_url_env") r.base_url_env
  key_variable : (var : Text) → r.api_key_env ≡ some var → NamesVariable r (codes "api_key_env") var

module _ {F : Type 0} (env : Env) where
  pub data BackendDefect (seen : List RawBackend) (r : RawBackend) : ConfigError F → Type 0 where
    unnamed : is_empty r.name ≡ true → BackendDefect seen r ConfigError.empty_backend_name
    repeated :
        contains (backend_names seen) r.name ≡ true
        → BackendDefect seen r (ConfigError.duplicate_backend r.name)
    bad_variable :
        {field var : Text}
        → NamesVariable r field var
        → is_valid_env_name var ≡ false
        → BackendDefect seen r (ConfigError.invalid_env_name r.name field var)
    unset_variable :
        {field var : Text}
        → NamesVariable r field var
        → env var ≡ none
        → BackendDefect seen r (ConfigError.missing_env r.name field var)
    not_web :
        (url : Text)
        → env r.base_url_env ≡ some url
        → starts_with url (codes "http://") ≡ false
        → starts_with url (codes "https://") ≡ false
        → BackendDefect seen r (ConfigError.invalid_base_url r.name url)
    without_models : is_empty r.models ≡ true → BackendDefect seen r (ConfigError.no_models r.name)
    empty_model :
        any is_empty r.models ≡ true
        → BackendDefect seen r (ConfigError.empty_entry r.name (codes "models"))
    empty_tag :
        any is_empty r.capability_tags ≡ true
        → BackendDefect seen r (ConfigError.empty_entry r.name (codes "capability_tags"))

  pub data KeyDefect (seen : List RawVirtualKey) (r : RawVirtualKey) : ConfigError F → Type 0 where
    key_unnamed : is_empty r.name ≡ true → KeyDefect seen r ConfigError.empty_virtual_key_name
    key_repeated :
        contains (key_names seen) r.name ≡ true
        → KeyDefect seen r (ConfigError.duplicate_virtual_key r.name)
    bad_key_variable :
        is_valid_env_name r.key_env ≡ false
        → KeyDefect seen r (ConfigError.invalid_key_env_name r.name r.key_env)
    unset_key_variable :
        env r.key_env ≡ none → KeyDefect seen r (ConfigError.missing_key_env r.name r.key_env)
    empty_secret : env r.key_env ≡ some [] → KeyDefect seen r (ConfigError.empty_virtual_key r.name)
    shared_secret :
        (prev : RawVirtualKey) (secret : Text)
        → In prev seen
        → env prev.key_env ≡ some secret
        → env r.key_env ≡ some secret
        → KeyDefect seen r (ConfigError.duplicate_virtual_key_secret prev.name r.name)

module _ (x : Float64) (p : Parsers x.F) (env : Env) where
  pub data Defect (raw : RawConfig x.F) : ConfigError x.F → Type 0 where
    bad_listen :
        {message : Text}
        → p.parse_addr raw.listen ≡ err message
        → Defect raw (ConfigError.invalid_listen raw.listen message)
    without_backends : is_empty raw.backends ≡ true → Defect raw ConfigError.no_backends
    in_backend :
        {e : ConfigError x.F}
        → Somewhere (λ seen r. BackendDefect env seen r e) [] raw.backends
        → Defect raw e
    in_key :
        {e : ConfigError x.F}
        → Somewhere (λ seen r. KeyDefect env seen r e) [] raw.virtual_keys
        → Defect raw e
    bad_alpha :
        (alpha : x.F)
        → raw.policy ≡ RawPolicy.ewma_latency alpha
        → (x.lt (x.of_ℕ 0) alpha && x.le alpha (x.of_ℕ 1)) ≡ false
        → Defect raw (ConfigError.invalid_alpha alpha)

  module _ (exists : Text → Bool) (read : Text → Result Text Text) where
    abbrev pub path : Text
    path = get_or_default x p (env (codes "PATCHBAY_CONFIG"))

    -- What is wrong when loading fails.
    pub data Failure : ConfigError x.F → Type 0 where
      missing_file : exists path ≡ false → Failure (ConfigError.not_found path)
      unreadable :
          {message : Text}
          → exists path ≡ true
          → read path ≡ err message
          → Failure (ConfigError.io path message)
      not_toml :
          {text message : Text}
          → exists path ≡ true
          → read path ≡ ok text
          → p.parse_toml text ≡ err message
          → Failure (ConfigError.parse message)
      defective :
          {text : Text} {raw : RawConfig x.F} {e : ConfigError x.F}
          → exists path ≡ true
          → read path ≡ ok text
          → p.parse_toml text ≡ ok raw
          → Defect raw e
          → Failure e
