-- ===== src/Main.antt =====
-- src/main.rs: the start of the program, up to the bound listener. Building the HTTP client and
-- binding the address are parameters; logging and the serving loop are left out.
pub mod Safety
use patchbay.Common.{
  ℕ, Bool, true, false, Option, none, some, Result, ok, err, ◌>>=◌, if◌then◌else◌,
}
use patchbay.Common.Texts.{Text}
use patchbay.Common.Order.{Float64}
use patchbay.Config.{ConfigError, GatewayConfig}
use patchbay.Config.Load.{Env, Parsers, load}
use patchbay.Upstream.Client.{UpstreamError, new_client}
use patchbay.Limits.{Governor}
use patchbay.Budget.{Codec, Files}
use patchbay.Server.{AppState, from_config}
use patchbay.Server.Routes.{App, build_router}

-- How the start fails; `panicked` is the assertion of `EwmaLatency::new`.
pub data StartError (F : Type 0) : Type 0 where
  config : ConfigError F → StartError F
  client : UpstreamError → StartError F
  bind : Text → StartError F
  panicked : StartError F

module _ (x : Float64) (p : Parsers x.F) (g : Governor) where
  -- The file system, the environment, the clock in seconds, and the answers of the two calls.
  pub record Host : Type 0 where
    pub exists : Text → Bool
    pub read : Text → Result Text Text
    pub env : Env
    pub codec : Codec
    pub files : Files
    pub now : ℕ
    pub build_client : ℕ → Result Text (Unit {0})
    pub bind_listener : p.Addr → Result Text (Unit {0})

  -- `AppState::from_config(&cfg)?` with `UpstreamClient::new()?` inside: the router comes first.
  state_from : Host → GatewayConfig p.Addr x.F → Result (StartError x.F) (AppState g)
  state_from h cfg = elim (from_config g x h.codec h.files h.now cfg) [
    | none ↦ err StartError.panicked
    | some s ↦ elim (new_client h.build_client) [ ok _ ↦ ok s | err e ↦ err (StartError.client e) ]
  ]

  loaded_config : Host → Result (StartError x.F) (GatewayConfig p.Addr x.F)
  loaded_config h = elim (load x p h.exists h.read h.env) [
    | ok cfg ↦ ok cfg
    | err e ↦ err (StartError.config e)
  ]

  bound : Host → p.Addr → Result (StartError x.F) (Unit {0})
  bound h addr = elim (h.bind_listener addr) [ ok _ ↦ ok tt | err e ↦ err (StartError.bind e) ]

  -- `main`
  unfoldable pub start : Host → Result (StartError x.F) (App g)
  unfolding state_from loaded_config bound
  start h = do
    cfg ← loaded_config h
    state ← state_from h cfg
    listener ← bound h cfg.listen
    ok (build_router g state)
