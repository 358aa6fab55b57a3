-- ===== src/Tests/Serving.antt =====
-- The handler, the metrics and the list of models on the two backends.
use patchbay.Common.{
  ℕ, zero, suc, ◌≡◌, ◌↔◌, ◌≤◌, refl, Bool, true, false, Option, none, some, List, [], ◌∷◌, ◌++◌,
  Result, ok, err, length, In, All, Distinct, leb,
}
use patchbay.Common.Texts.{Text, codes}
use patchbay.Config.{Backend, PolicySelection, GatewayConfig}
use patchbay.Router.{Router, query_for, route, static_priority}
use patchbay.Router.Choice.{static_priority-Chooses}
use patchbay.Auth.{KeyIdentity, from_virtual_keys}
use patchbay.Router.Ewma.{router_from_config}
use patchbay.Upstream.{Bytes, Usage}
use patchbay.Upstream.Client.{HttpRequest, HttpResponse}
use patchbay.Limits.{Governor, new_store}
use patchbay.Budget.{Codec, new_ledger}
use patchbay.Metrics.{new_metrics}
use patchbay.Server.{World, AppState, from_config, list_models}
use patchbay.Server.Handler.{chat_completions}
use patchbay.Server.Retries.{total_wait, chat_completions-waits}
use patchbay.Server.Outcomes.{IsLimited, Visit, serve_all, from_config-unlimited}
use patchbay.Server.Handled.{IsHandled, chat_completions-IsHandled}
use patchbay.Server.Models.{list_models-routed}
use patchbay.Tests.{thousandths, backends, virtual_keys}

abbrev usage : Usage
usage = record { prompt_tokens = 3; completion_tokens = 4; total_tokens = 7 }

abbrev pub response : HttpResponse
response = record { status = 200; content_type = none; text = []; bytes = ok (codes "{}") }

-- The first attempt does not connect; later ones are answered.
abbrev pub send : ℕ → HttpRequest → Result Text HttpResponse
send zero request = err (codes "refused")
send (suc n) request = ok response

abbrev pub world : World
world = record {
  parse_request = λ body. some (record { model = codes "m"; stream = false });
  usage_of_body = λ body. some usage;
  send = send;
  noise = λ n. n;
}

abbrev pub always : Governor
always = record { Limiter = Unit {0}; keyed = λ n. tt; check_key = λ l key now. (true, tt) }

abbrev router : Router
router = record { backends = backends; policy = static_priority }

abbrev pub state : AppState always
state = record {
  router = router;
  keys = record { inner = [] };
  budget = record { period_start = 0; counters = []; limits = []; snapshot_path = none };
  limits = record { limits = []; rpm_limiters = []; tpm_counters = [] };
  metrics = new_metrics;
}

abbrev pub ann_identity : KeyIdentity
ann_identity = record { name = codes "ann"; enforce_private = true }

chat_completions-waits_example :
    (length (chat_completions always world 0 ann_identity (codes "{}") state).2 ≤ 6)
    × (total_wait (chat_completions always world 0 ann_identity (codes "{}") state).2 ≤ 3875)
chat_completions-waits_example =
    chat_completions-waits always world 0 ann_identity (codes "{}") state

abbrev pub config : GatewayConfig Text ℕ
config = record {
  listen = codes "l";
  backends = backends;
  virtual_keys = virtual_keys;
  policy = PolicySelection.static_priority;
}

abbrev pub codec : Codec
codec = record { to_json = λ s. none; from_json = λ t. none; tmp_path = λ p. p ++ codes ".tmp" }

abbrev visits : List (Visit always)
visits =
    record { world = world; now = 0; identity = ann_identity; body = codes "{}" }
    ∷ record { world = world; now = 1; identity = ann_identity; body = codes "{}" }
    ∷ []

abbrev pub start_state : AppState always
start_state = record {
  router = router;
  keys = from_virtual_keys virtual_keys;
  budget = new_ledger codec (λ p. none) 0 [] 3600 none;
  limits = new_store always [];
  metrics = new_metrics;
}

pub config_made : from_config always thousandths codec (λ p. none) 0 config ≡ some start_state
unfolding from_config router_from_config
config_made = refl

from_config-unlimited_example : All (λ r. ¬ IsLimited r) (serve_all always start_state visits)
from_config-unlimited_example =
    from_config-unlimited always thousandths codec (λ p. none) 0 config visits config_made

abbrev pub envelope : Bytes → Option (Option Usage)
envelope payload = some (some usage)

abbrev pub fired : ℕ → ℕ → Bool
fired deadline now = leb deadline now

list_models-routed_example :
    Distinct (list_models router)
    × (In (codes "m") (list_models router)
        ↔ ((b : Backend) × (route router (query_for (codes "m")) false ≡ ok b)))
list_models-routed_example = list_models-routed router (codes "m") static_priority-Chooses

chat_completions-IsHandled_example :
    IsHandled always world 0 ann_identity
      (codes "{}")
      state
      (chat_completions always world 0 ann_identity (codes "{}") state)
chat_completions-IsHandled_example =
    chat_completions-IsHandled always world 0 ann_identity (codes "{}") state
