-- ===== src/Server/Routes.antt =====
-- src/server.rs: `build_router`, its routes, and the handlers behind the extractors. Matching a
-- request against the routes is axum's; a request comes here with the handler that it is for.
use patchbay.Common.{ℕ, Option, List, [], ◌∷◌, ok, err, is_empty, if◌then◌else◌}
use patchbay.Common.Texts.{Text, codes}
use patchbay.Auth.{AuthError, KeyStore, from_request_parts}
use patchbay.Upstream.{Bytes}
use patchbay.Limits.{Governor}
use patchbay.Metrics.{render}
use patchbay.Server.{AppState, Response, Attempt, World, completions_path, list_models}
use patchbay.Server.Handler.{chat_completions}

pub data Method : Type 0 where
  get post : Method

pub data Endpoint : Type 0 where
  chat models health scrape : Endpoint

pub record Route : Type 0 where
  pub path : Text
  pub method : Method
  pub endpoint : Endpoint

-- What a handler reads of a request: the header, when it is visible ASCII, and the body.
pub record Request : Type 0 where
  pub authorization : Option Text
  pub body : Bytes

-- The replies of the handlers; `healthy` is 200 without a body, `unauthorized` is 401, and
-- `exposition` is 200 with the content type of the Prometheus format.
pub data Reply : Type 0 where
  unauthorized : AuthError → Reply
  completion : Response → Reply
  models_list : List Text → Reply
  healthy : Reply
  exposition : Text → Reply

module _ (g : Governor) where
  -- The application: its routes, the key store of the `Extension` layer, and the shared state.
  pub record App : Type 0 where
    pub routes : List Route
    pub extension : KeyStore
    pub state : AppState g

  unfoldable pub build_router : AppState g → App
  build_router s = record {
    routes =
        record { path = completions_path; method = Method.post; endpoint = Endpoint.chat }
        ∷ record { path = codes "/v1/models"; method = Method.get; endpoint = Endpoint.models }
        ∷ record { path = codes "/healthz"; method = Method.get; endpoint = Endpoint.health }
        ∷ record { path = codes "/metrics"; method = Method.get; endpoint = Endpoint.scrape }
        ∷ [];
    extension = s.keys;
    state = s;
  }

  abbrev pub healthz : Reply
  healthz = Reply.healthy

  -- The handler `metrics`: both of its branches answer with the text.
  unfoldable pub metrics : AppState g → Reply
  metrics s =
      let body = render s.metrics in
      if is_empty body then Reply.exposition [] else Reply.exposition body

  -- A handler with its extractors: `AuthedKey` comes before the body, and a handler whose extractor
  -- fails is not run.
  unfoldable pub serve : World → ℕ → Endpoint → Request → App → App × Reply × List Attempt
  serve w now Endpoint.chat request app =
      elim (from_request_parts app.extension request.authorization) [
        | err e ↦ (app, Reply.unauthorized e, [])
        | ok identity ↦
            let (s, response, attempts) =
              chat_completions g w now identity request.body app.state in
            (record app { state = s }, Reply.completion response, attempts)
      ]
  serve w now Endpoint.models request app =
      elim (from_request_parts app.extension request.authorization) [
        | err e ↦ (app, Reply.unauthorized e, [])
        | ok identity ↦ (app, Reply.models_list (list_models app.state.router), [])
      ]
  serve w now Endpoint.health request app = (app, healthz, [])
  serve w now Endpoint.scrape request app = (app, metrics app.state, [])
