-- ===== src/Tests.antt =====
-- The data of the tests: two backends, two virtual keys, and concrete functions for the parameters.
mod Routing
mod Relaying
mod Accounting
mod Serving
mod System
mod Secrets
mod Threads
use Prim.Native.Nat.{compare}
use patchbay.Common.{
  ℕ, ◌+◌, ◌-◌, ◌*◌, ◌/◌, Bool, true, false, Option, none, some, List, [], ◌∷◌, arith, Result, ok,
  err, ltb, leb,
}
use patchbay.Common.Texts.{Text, codes, text_eq}
use patchbay.Common.Order.{Float64, IsTotalOrder}
use patchbay.Config.{Backend, Privacy, VirtualKey}

-- Thousandths in place of floating point numbers.
abbrev pub thousandths : Float64
thousandths = record {
  F = ℕ;
  of_ℕ = λ n. n * 1000;
  add = λ a b. a + b;
  sub = λ a b. a - b;
  mul = λ a b. a * b / 1000;
  lt = ltb;
  le = leb;
  is_finite = λ a. true;
  total_cmp = compare;
}

pub thousandths-IsTotalOrder : IsTotalOrder thousandths
thousandths-IsTotalOrder = record {
  refl_eq = λ a. ground arith;
  flip = λ a b h. ground arith;
  trans = λ a b c h k. ground arith;
}

abbrev pub cloud : Backend
cloud = record {
  name = codes "cloud";
  base_url = codes "https://c";
  api_key = some (record { value = codes "sk" });
  models = codes "m" ∷ codes "big" ∷ [];
  capability_tags = codes "vision" ∷ [];
  privacy = Privacy.external;
}

abbrev pub desk : Backend
desk = record {
  name = codes "desk";
  base_url = codes "http://d";
  api_key = none;
  models = codes "m" ∷ [];
  capability_tags = [];
  privacy = Privacy.local;
}

abbrev pub backends : List Backend
backends = cloud ∷ desk ∷ []

abbrev pub ann : VirtualKey
ann = record { name = codes "ann"; key = record { value = codes "s1" }; enforce_private = true }

abbrev pub bob : VirtualKey
bob = record { name = codes "bob"; key = record { value = codes "s2" }; enforce_private = false }

abbrev pub virtual_keys : List VirtualKey
virtual_keys = ann ∷ bob ∷ []

-- The environment of the tests.
abbrev pub env : Text → Option Text
env name = elim (text_eq name (codes "D")) [
  | true ↦ some (codes "http://d/")
  | false ↦ elim (text_eq name (codes "A")) [ true ↦ some (codes "s1") | false ↦ none ]
]
