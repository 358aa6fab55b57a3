-- ===== src/Upstream.antt =====
-- src/upstream.rs: the types of the relay's accounting.
pub mod Scanner
pub mod Relay
pub mod Client
use patchbay.Common.{ℕ, Bool, Option, List, ◌^◌}
use patchbay.Common.Texts.{Text}

-- Bytes are numbers below 256.
abbrev pub Bytes : Type 0
Bytes = List ℕ

-- The number of values of a `u64`.
abbrev pub u64_mod : ℕ
u64_mod = 2 ^ 64

pub record Usage : Type 0 where
  pub prompt_tokens : ℕ
  pub completion_tokens : ℕ
  pub total_tokens : ℕ

pub data RelayOutcome : Type 0 where
  completed stalled client_disconnected : RelayOutcome
  upstream_error : Text → RelayOutcome

pub record RelaySummary : Type 0 where
  pub outcome : RelayOutcome
  pub usage : Option Usage
  pub saw_done : Bool
  pub bytes_relayed : ℕ
