-- ===== src/Config/Load.antt =====
-- src/config.rs: `is_valid_env_name`, `GatewayConfig::load` and `GatewayConfig::from_toml_str`.
-- The TOML parser and the parser of socket addresses are parameters.
use patchbay.Common.{
  ℕ, Bool, false, not, ◌&&◌, ◌||◌, Option, none, some, List, [], ◌∷◌, Result, ok, err, ◌>>=◌, ◌>>◌,
  guard, ok_or, ◌==◌, leb, if◌then◌else◌, is_empty, all, any,
}
use patchbay.Common.Texts.{Text, codes, contains, starts_with, trim_end_matches}
use patchbay.Common.Maps.{Map, get, insert}
use patchbay.Common.Order.{Float64}
use patchbay.Config.{
  Secret, Backend, VirtualKey, PolicySelection, GatewayConfig, ConfigError, RawBackend,
  RawVirtualKey, RawPolicy, RawConfig,
}

is_ascii_alphabetic : ℕ → Bool
is_ascii_alphabetic c = leb b'A' c && leb c b'Z' || leb b'a' c && leb c b'z'

is_ascii_digit : ℕ → Bool
is_ascii_digit c = leb b'0' c && leb c b'9'

-- POSIX-ish env var name: `[A-Za-z_][A-Za-z0-9_]*`.
unfoldable pub is_valid_env_name : Text → Bool
unfolding is_ascii_alphabetic is_ascii_digit
is_valid_env_name [] = false
is_valid_env_name (c ∷ cs) =
    (is_ascii_alphabetic c || c == b'_')
    && all (λ d. is_ascii_alphabetic d || is_ascii_digit d || d == b'_') cs

-- `std::env::var(name).ok()` on the process environment: `None` when the variable is not set, or when
-- its value is not Unicode.
abbrev pub Env : Type 0
Env = Text → Option Text

module _ {F : Type 0} where
  unfoldable pub resolve_api_key : Env → Text → Option Text → Result (ConfigError F) (Option Secret)
  resolve_api_key env name none = ok none
  resolve_api_key env name (some var) = do
    guard (is_valid_env_name var) (ConfigError.invalid_env_name name (codes "api_key_env") var)
    key ← ok_or (env var) (ConfigError.missing_env name (codes "api_key_env") var)
    ok (some (record { value = key }))

  -- One round of the loop over the backends; `names` are those of the rounds before.
  unfoldable pub resolve_backend : Env → List Text → RawBackend → Result (ConfigError F) Backend
  resolve_backend env names b = do
    guard (not (is_empty b.name)) ConfigError.empty_backend_name
    guard (not (contains names b.name)) (ConfigError.duplicate_backend b.name)
    guard (is_valid_env_name b.base_url_env)
        (ConfigError.invalid_env_name b.name (codes "base_url_env") b.base_url_env)
    base_url ←
        ok_or (env b.base_url_env)
          (ConfigError.missing_env b.name (codes "base_url_env") b.base_url_env)
    guard (starts_with base_url (codes "http://") || starts_with base_url (codes "https://"))
        (ConfigError.invalid_base_url b.name base_url)
    api_key ← resolve_api_key env b.name b.api_key_env
    guard (not (is_empty b.models)) (ConfigError.no_models b.name)
    guard (not (any is_empty b.models)) (ConfigError.empty_entry b.name (codes "models"))
    guard (not (any is_empty b.capability_tags))
        (ConfigError.empty_entry b.name (codes "capability_tags"))
    ok (record {
      name = b.name;
      base_url = trim_end_matches base_url b'/';
      api_key = api_key;
      models = b.models;
      capability_tags = b.capability_tags;
      privacy = b.privacy;
    })

  unfoldable pub resolve_backends :
      Env → List Text → List RawBackend → Result (ConfigError F) (List Backend)
  resolve_backends env names [] = ok []
  resolve_backends env names (b ∷ bs) = do
    backend ← resolve_backend env names b
    rest ← resolve_backends env (b.name ∷ names) bs
    ok (backend ∷ rest)

  -- One round of the loop over the virtual keys; `secrets` maps a secret to the key that has it.
  unfoldable pub resolve_virtual_key :
      Env → List Text → Map Text → RawVirtualKey → Result (ConfigError F) VirtualKey
  resolve_virtual_key env names secrets vk = do
    guard (not (is_empty vk.name)) ConfigError.empty_virtual_key_name
    guard (not (contains names vk.name)) (ConfigError.duplicate_virtual_key vk.name)
    guard (is_valid_env_name vk.key_env) (ConfigError.invalid_key_env_name vk.name vk.key_env)
    key ← ok_or (env vk.key_env) (ConfigError.missing_key_env vk.name vk.key_env)
    guard (not (is_empty key)) (ConfigError.empty_virtual_key vk.name)
    elim (get secrets key) [
      | none ↦ ok tt
      | some prev ↦ err (ConfigError.duplicate_virtual_key_secret prev vk.name)
    ]
    ok (record {
      name = vk.name;
      key = record { value = key };
      enforce_private = vk.enforce_private;
    })

  unfoldable pub resolve_virtual_keys :
      Env → List Text → Map Text → List RawVirtualKey → Result (ConfigError F) (List VirtualKey)
  resolve_virtual_keys env names secrets [] = ok []
  resolve_virtual_keys env names secrets (vk ∷ vks) = do
    key ← resolve_virtual_key env names secrets vk
    rest ← resolve_virtual_keys env (vk.name ∷ names) (insert secrets key.key.value vk.name) vks
    ok (key ∷ rest)

unfoldable pub resolve_policy :
    (x : Float64) → RawPolicy x.F → Result (ConfigError x.F) (PolicySelection x.F)
resolve_policy x RawPolicy.static_priority = ok PolicySelection.static_priority
resolve_policy x (RawPolicy.ewma_latency alpha) = do
  guard (x.lt (x.of_ℕ 0) alpha && x.le alpha (x.of_ℕ 1)) (ConfigError.invalid_alpha alpha)
  ok (PolicySelection.ewma_latency alpha)

-- The parsers that loading calls. Their errors are given by the messages.
pub record Parsers (F : Type 0) : Type 1 where
  pub Addr : Type 0
  pub parse_toml : Text → Result Text (RawConfig F)
  pub parse_addr : Text → Result Text Addr

module _ (x : Float64) (p : Parsers x.F) where
  -- `map_err` at the two calls of a parser
  parsed : Text → Result (ConfigError x.F) (RawConfig x.F)
  parsed raw = elim (p.parse_toml raw) [ ok c ↦ ok c | err e ↦ err (ConfigError.parse e) ]

  listen_addr : Text → Result (ConfigError x.F) p.Addr
  listen_addr listen = elim (p.parse_addr listen) [
    | ok a ↦ ok a
    | err e ↦ err (ConfigError.invalid_listen listen e)
  ]

  unfoldable pub from_toml_str : Text → Env → Result (ConfigError x.F) (GatewayConfig p.Addr x.F)
  unfolding parsed listen_addr
  from_toml_str text env = do
    raw ← parsed text
    listen ← listen_addr raw.listen
    guard (not (is_empty raw.backends)) ConfigError.no_backends
    backends ← resolve_backends env [] raw.backends
    virtual_keys ← resolve_virtual_keys env [] [] raw.virtual_keys
    policy ← resolve_policy x raw.policy
    ok (record {
      listen = listen;
      backends = backends;
      virtual_keys = virtual_keys;
      policy = policy;
    })

  abbrev pub get_or_default : Option Text → Text
  get_or_default none = codes "patchbay.toml"
  get_or_default (some path) = path

  -- `exists` and `read` are the file system's answers for a path.
  unfoldable pub load :
      (exists : Text → Bool) (read : Text → Result Text Text)
      → Env
      → Result (ConfigError x.F) (GatewayConfig p.Addr x.F)
  load exists read env =
      let path : Text = get_or_default (env (codes "PATCHBAY_CONFIG")) in
      if not (exists path)
      then err (ConfigError.not_found path)
      else elim (read path) [ ok raw ↦ from_toml_str raw env | err e ↦ err (ConfigError.io path e) ]
