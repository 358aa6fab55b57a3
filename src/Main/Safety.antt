-- ===== src/Main/Safety.antt =====
-- src/main.rs: what a gateway that has started sends to its backends, and for whom.
use mathlib.Core.Path.{subst}
use patchbay.Common.{
  ℕ, ◌≡◌, refl, ap, sym, ◌∙◌, ◌⊎◌, inl, inr, true, Option, some, List, [], ◌∷◌, ◌++◌, map, arith,
  ok, Result-cases, Bool-cases, Option-cases, In, Distinct,
}
use patchbay.Common.Texts.{Text, codes}
use patchbay.Common.Order.{Float64}
use patchbay.Common.Fresh.{DistinctFrom-Distinct}
use patchbay.Config
use patchbay.Config.{Backend, VirtualKey, GatewayConfig, expose}
use patchbay.Config.Load.{Parsers, get_or_default, load, from_toml_str}
use patchbay.Config.Coherent.{from_toml_str_iff}
use patchbay.Router.{Router}
use patchbay.Router.Ewma.{router_from_config}
use patchbay.Auth.{KeyIdentity, identity_of, from_virtual_keys, from_request_parts}
use patchbay.Auth.Admits.{AdmittedAs, from_request_parts_iff}
use patchbay.Upstream.Client.{upstream_request}
use patchbay.Limits.{Governor}
use patchbay.Server.{Attempt, World, completions_path, from_config}
use patchbay.Server.Handler.{chat_completions}
use patchbay.Server.Keeps.{chat_completions-Keeps}
use patchbay.Server.Retries.{chat_completions-eligible}
use patchbay.Server.Routes.{App, Endpoint, Request, Reply, build_router, serve}
use patchbay.Main.{Host, start}

admitted_key :
    (vks : List VirtualKey) (authorization : Option Text) (id : KeyIdentity)
    → AdmittedAs vks authorization id
    → (vks ≡ [])
      ⊎ ((vk : VirtualKey) × In vk vks
          × (authorization ≡ some (codes "Bearer " ++ expose vk.key))
          × (identity_of vk ≡ id))
admitted_key [] authorization id h = inl refl
admitted_key (k ∷ vks) authorization id (token, header, (vk, member, secret, same)) =
    inr (vk, member, header ∙ ap (λ t. some (codes "Bearer " ++ t)) (sym secret), same)

module _ (x : Float64) (p : Parsers x.F) (g : Governor) where
  -- What the start gives for a configuration: an application with its router and its keys.
  record IsStartOf (cfg : GatewayConfig p.Addr x.F) (app : App g) : Type 0 where
    backends : app.state.router.backends ≡ cfg.backends
    extension : app.extension ≡ from_virtual_keys cfg.virtual_keys

  router_from_config-backends :
      (cfg : GatewayConfig p.Addr x.F) {r : Router}
      → router_from_config x cfg ≡ some r
      → r.backends ≡ cfg.backends
  unfolding router_from_config
  router_from_config-backends cfg made = ground arith

  start-IsStartOf :
      (h : Host x p g) {app : App g}
      → start x p g h ≡ ok app
      → (cfg : GatewayConfig p.Addr x.F) × (load x p h.exists h.read h.env ≡ ok cfg)
        × IsStartOf cfg app
  unfolding start from_config build_router
  start-IsStartOf h {app} started = elim (Result-cases (load x p h.exists h.read h.env)) [
    | inr (e, failed) ↦ ground arith
    | inl (cfg, loaded) ↦ elim (Option-cases (router_from_config x cfg)) [
      | inl panicked ↦ ground arith
      | inr (r, made) ↦
          let known = router_from_config-backends cfg made in
          (cfg, loaded, record { backends = ground arith; extension = ground arith })
    ]
  ]

  load-from_toml_str :
      (h : Host x p g) (cfg : GatewayConfig p.Addr x.F)
      → load x p h.exists h.read h.env ≡ ok cfg
      → (text : Text) × (from_toml_str x p text h.env ≡ ok cfg)
  unfolding load
  load-from_toml_str h cfg loaded =
      let path : Text = get_or_default x p (h.env (codes "PATCHBAY_CONFIG")) in
      elim (Bool-cases (h.exists path)) [
        | inr absent ↦ ground arith
        | inl present ↦ elim (Result-cases (h.read path)) [
          | inl (text, got) ↦ (text, ground arith)
          | inr (e, failed) ↦ ground arith
        ]
      ]

  load-Distinct :
      (h : Host x p g) (cfg : GatewayConfig p.Addr x.F)
      → load x p h.exists h.read h.env ≡ ok cfg
      → Distinct (map (λ (k : VirtualKey). expose k.key) cfg.virtual_keys)
  load-Distinct h cfg loaded =
      let (text, parsed) = load-from_toml_str h cfg loaded in
      let (raw, read, coherent) = (from_toml_str_iff x p text h.env cfg).0 parsed in
      DistinctFrom-Distinct [] (map (λ (k : VirtualKey). k.key.value) cfg.virtual_keys)
        coherent.secrets_new

  -- One request of a client, with the answers of others to it.
  pub record Visit : Type 0 where
    pub world : World
    pub now : ℕ
    pub endpoint : Endpoint
    pub request : Request

  abbrev pub visit : Visit → App g → App g × Reply × List Attempt
  visit v app = serve g v.world v.now v.endpoint v.request app

  -- The application after requests, in their order.
  unfoldable pub after : List Visit → App g → App g
  after [] app = app
  after (v ∷ visits) app = after visits (visit v app).0

  -- A request either changes nothing and sends nothing, or it is admitted and handled as a completion.
  serve-cases :
      (w : World) (now : ℕ) (endpoint : Endpoint) (request : Request) (app : App g)
      → (((serve g w now endpoint request app).0 ≡ app)
          × ((serve g w now endpoint request app).2 ≡ []))
        ⊎ ((id : KeyIdentity) × (from_request_parts app.extension request.authorization ≡ ok id)
            × ((serve g w now endpoint request app).0
                ≡ record app { state = (chat_completions g w now id request.body app.state).0 })
            × ((serve g w now endpoint request app).2
                ≡ (chat_completions g w now id request.body app.state).2))
  unfolding serve
  serve-cases w now Endpoint.chat request app =
      elim (Result-cases (from_request_parts app.extension request.authorization)) [
        | inr (e, refused) ↦ inl (ground arith, ground arith)
        | inl (id, admitted) ↦ inr (id, admitted, ground arith, ground arith)
      ]
  serve-cases w now Endpoint.models request app = inl (ground arith, ground arith)
  serve-cases w now Endpoint.health request app = inl (refl, refl)
  serve-cases w now Endpoint.scrape request app = inl (refl, refl)

  serve-IsStartOf :
      (cfg : GatewayConfig p.Addr x.F) (w : World) (now : ℕ) (endpoint : Endpoint)
      (request : Request) (app : App g)
      → IsStartOf cfg app
      → IsStartOf cfg (serve g w now endpoint request app).0
  serve-IsStartOf cfg w now endpoint request app s = elim (serve-cases w now endpoint request app) [
    | inl (same, silent) ↦ rw same s
    | inr (id, admitted, changed, sent) ↦
        let k = chat_completions-Keeps g w now id request.body app.state in
        rw changed (record {
          backends = ap (λ (r : Router). r.backends) k.router ∙ s.backends;
          extension = s.extension;
        })
  ]

  after-IsStartOf :
      (cfg : GatewayConfig p.Addr x.F) (visits : List Visit) (app : App g)
      → IsStartOf cfg app
      → IsStartOf cfg (after visits app)
  unfolding after
  after-IsStartOf cfg [] app s = s
  after-IsStartOf cfg (v ∷ visits) app s =
      after-IsStartOf cfg visits (visit v app).0
        (serve-IsStartOf cfg v.world v.now v.endpoint v.request app s)

  -- What the configuration allows to be sent for a request of a client: the client's body, to a
  -- backend, with the credentials of that backend; and there are no virtual keys, or the header of the
  -- client has the secret of one, and when that key enforces privacy the backend is local.
  pub record IsAllowed (cfg : GatewayConfig p.Addr x.F) (request : Request) (a : Attempt)
      : Type 0 where
    pub backend : In a.backend cfg.backends
    pub sends : a.request ≡ upstream_request a.backend completions_path request.body
    pub key :
        (cfg.virtual_keys ≡ [])
        ⊎ ((vk : VirtualKey) × In vk cfg.virtual_keys
            × (request.authorization ≡ some (codes "Bearer " ++ expose vk.key))
            × (vk.enforce_private ≡ true → a.backend.privacy ≡ Config.Privacy.local))

  serve-IsAllowed :
      (cfg : GatewayConfig p.Addr x.F) (w : World) (now : ℕ) (endpoint : Endpoint)
      (request : Request) (app : App g) (a : Attempt)
      → Distinct (map (λ (k : VirtualKey). expose k.key) cfg.virtual_keys)
      → IsStartOf cfg app
      → In a (serve g w now endpoint request app).2
      → IsAllowed cfg request a
  serve-IsAllowed cfg w now endpoint request app a distinct s member =
      elim (serve-cases w now endpoint request app) [
        | inl (same, silent) ↦ absurd (subst (λ (l : List Attempt). In a l) silent member)
        | inr (id, admitted, changed, sent) ↦
            let by_key : from_request_parts (from_virtual_keys cfg.virtual_keys)
                  request.authorization
                ≡ ok id =
              ap (λ k. from_request_parts k request.authorization) (sym s.extension) ∙ admitted in
            let as_key = admitted_key cfg.virtual_keys request.authorization id (
              (from_request_parts_iff cfg.virtual_keys request.authorization id distinct).0
                by_key) in
            let (known, local, serves, carried) =
              chat_completions-eligible g w now id request.body app.state a
                (subst (λ (l : List Attempt). In a l) sent member) in
            record {
              sends = carried;
              backend = subst (λ (bs : List Backend). In a.backend bs) s.backends known;
              key = elim as_key [
                | inl none_set ↦ inl none_set
                | inr (vk, held, header, same) ↦ inr (
                  vk,
                  held,
                  header,
                  λ enforced. local (ap (λ i. i.enforce_private) (sym same) ∙ enforced),
                )
              ];
            }
      ]

  -- From the start to the wire: a gateway that starts has loaded a configuration, and whatever
  -- requests it has served, each request that it sends to a backend for a client goes to a backend of
  -- that configuration, with the URL and the API key of that backend and the body of the client. When
  -- the configuration has virtual keys, the client has shown the secret of one, and when that key
  -- enforces privacy the backend is local.
  pub start-IsAllowed :
      (h : Host x p g) (app : App g) (earlier : List Visit) (w : World) (now : ℕ)
      (endpoint : Endpoint) (request : Request) (a : Attempt)
      → start x p g h ≡ ok app
      → In a (serve g w now endpoint request (after earlier app)).2
      → (cfg : GatewayConfig p.Addr x.F) × (load x p h.exists h.read h.env ≡ ok cfg)
        × IsAllowed cfg request a
  start-IsAllowed h app earlier w now endpoint request a started member =
      let (cfg, loaded, s) = start-IsStartOf h started in
      (
        cfg,
        loaded,
        serve-IsAllowed cfg w now endpoint request (after earlier app) a
            (load-Distinct h cfg loaded) (after-IsStartOf cfg earlier app s) member,
      )
