-- ===== src/Config.antt =====
-- The configuration of pkg/bus/store.go: `Config` as it is given, and as NewStore completes it.
pub mod Laws
use pinakes.Base.{
  ℕ, zero, suc, ◌*◌, ◌+◌, String, ◌≡◌, Bool, true, false, not, ◌||◌, List, [], ◌∷◌, ◌++◌, Option,
  none, some, contains, ◌==◌, if◌then◌else◌,
}
use pinakes.Base.Int.{ℤ, pos, negsuc}
use pinakes.Base.Dict.{Dict, lookup}
use pinakes.Text.{trim_space, has_dot}
use pinakes.Types.{Scope, personal, ucla, shared, NamespaceMode, compat, strict}

-- Durations are in nanoseconds. What is not positive takes a default, or disables a limit.
pub record RawConfig : Type 0 where
  pub grace_period : ℤ
  pub progress_min_interval : ℤ
  pub idempotency_window : ℤ
  pub inbox_wait_max : ℤ
  pub ack_timeout : ℤ
  pub default_message_ttl : ℤ
  pub default_registration_ttl : ℤ
  pub push_max_attempts : ℤ
  pub push_base_backoff : ℤ
  pub push_queue_size : ℤ
  pub push_workers : ℤ
  pub push_shutdown_timeout : ℤ
  pub max_inbox_events_per_agent : ℤ
  pub max_observe_events : ℤ
  pub max_inbox_bytes_per_agent : ℤ
  pub max_observe_bytes : ℤ
  pub message_retention : ℤ
  pub message_max_age : ℤ
  pub conversation_retention : ℤ
  pub agent_retention : ℤ
  pub sweep_min_interval : ℤ
  pub namespace_mode : String
  pub legacy_scope : String
  pub shared_grant_agents : List String
  pub control_plane_agents : List String
  pub control_plane_agent_secret_hashes : Dict String

-- The completed configuration. No number of it is negative. The set `controlPlaneAgents` of the
-- store has the names of the list here.
pub record Config : Type 0 where
  pub grace_period : ℕ
  pub progress_min_interval : ℕ
  pub idempotency_window : ℕ
  pub inbox_wait_max : ℕ
  pub ack_timeout : ℕ
  pub default_message_ttl : ℕ
  pub default_registration_ttl : ℕ
  pub push_max_attempts : ℕ
  pub push_base_backoff : ℕ
  pub push_queue_size : ℕ
  pub push_workers : ℕ
  pub push_shutdown_timeout : ℕ
  pub max_inbox_events_per_agent : ℕ
  pub max_observe_events : ℕ
  pub max_inbox_bytes_per_agent : ℕ
  pub max_observe_bytes : ℕ
  pub message_retention : ℕ
  pub message_max_age : ℕ
  pub conversation_retention : ℕ
  pub agent_retention : ℕ
  pub sweep_min_interval : ℕ
  pub namespace_mode : NamespaceMode
  pub legacy_scope : Scope
  pub shared_grant_agents : List String
  pub control_plane_agents : List String
  pub control_plane_agent_secret_hashes : Dict String

pub data ConfigError : Type 0 where
  prefixed_identity : String → ConfigError
  missing_secret_hash : String → ConfigError
  invalid_hash_identity : ConfigError
  unconfigured_hash_identity : String → ConfigError

pub data Checked {ℓ} (A : Type ℓ) : Type ℓ where
  valid : A → Checked A
  invalid : ConfigError → Checked A

infixl 5 ◌>>=◌ ◌>>◌
abbrev pub ◌>>=◌ {ℓ κ} : {A : Type ℓ} {B : Type κ} → Checked A → (A → Checked B) → Checked B
valid a >>= f = f a
invalid e >>= f = invalid e

abbrev pub ◌>>◌ {ℓ κ} : {A : Type ℓ} {B : Type κ} → Checked A → Checked B → Checked B
m >> k = m >>= λ _. k

-- The loop of NormalizeControlPlaneAgents, with the names seen so far.
unfoldable pub normalize_agents : List String → List String → Checked (List String)
normalize_agents normalized [] = valid normalized
normalize_agents normalized (raw ∷ rest) =
    let agent_id = trim_space raw in
    let skip = normalize_agents normalized rest in
    let keep = normalize_agents (normalized ++ agent_id ∷ []) rest in
    if agent_id == ""
    then skip
    else if has_dot agent_id
    then invalid (prefixed_identity agent_id)
    else if contains normalized agent_id
    then skip
    else keep

unfoldable pub normalize_control_plane_agents : List String → Checked (List String)
unfolding normalize_agents
normalize_control_plane_agents agents = normalize_agents [] agents

-- Every control-plane identity has a secret hash.
unfoldable pub require_hashes : Dict String → List String → Checked (Unit {0})
require_hashes hashes [] = valid tt
require_hashes hashes (agent_id ∷ rest) = elim (lookup agent_id hashes) [
  | none ↦ invalid (missing_secret_hash agent_id)
  | some _ ↦ require_hashes hashes rest
]

-- Every secret hash belongs to a control-plane identity.
unfoldable pub require_identities : List String → Dict String → Checked (Unit {0})
require_identities agents [] = valid tt
require_identities agents ((agent_id, hash) ∷ rest) =
    let others = require_identities agents rest in
    if not (trim_space agent_id == agent_id) || agent_id == "" || has_dot agent_id
    then invalid invalid_hash_identity
    else if contains agents agent_id
    then others
    else invalid (unconfigured_hash_identity agent_id)

-- `if x <= 0 { x = d }`
unfoldable pub positive_or : ℤ → ℕ → ℕ
positive_or (pos zero) d = d
positive_or (pos (suc n)) d = suc n
positive_or (negsuc n) d = d

-- `if x == 0 { x = d }; if x < 0 { x = 0 }`
unfoldable pub limit_or : ℤ → ℕ → ℕ
limit_or (pos zero) d = d
limit_or (pos (suc n)) d = suc n
limit_or (negsuc n) d = 0

abbrev pub millisecond : ℕ
millisecond = 1_000_000

abbrev pub second : ℕ
second = 1_000_000_000

abbrev pub hour : ℕ
hour = 3600 * second

unfoldable pub mode_or_compat : String → NamespaceMode
mode_or_compat raw = if raw == "strict" then strict else compat

-- Only `personal` replaces the default: `shared` and what is no scope do not.
unfoldable pub legacy_scope_or_ucla : String → Scope
legacy_scope_or_ucla raw = if raw == "personal" then personal else ucla

unfoldable pub complete : RawConfig → List String → Config
unfolding positive_or limit_or mode_or_compat legacy_scope_or_ucla
complete raw agents = record {
  grace_period = positive_or raw.grace_period (30 * second);
  progress_min_interval = positive_or raw.progress_min_interval (2 * second);
  idempotency_window = positive_or raw.idempotency_window (24 * hour);
  inbox_wait_max = positive_or raw.inbox_wait_max (60 * second);
  ack_timeout = positive_or raw.ack_timeout (10 * second);
  default_message_ttl = positive_or raw.default_message_ttl (600 * second);
  default_registration_ttl = positive_or raw.default_registration_ttl (60 * second);
  push_max_attempts = positive_or raw.push_max_attempts 3;
  push_base_backoff = positive_or raw.push_base_backoff (500 * millisecond);
  push_queue_size = positive_or raw.push_queue_size 256;
  push_workers = positive_or raw.push_workers 4;
  push_shutdown_timeout = positive_or raw.push_shutdown_timeout (15 * second);
  max_inbox_events_per_agent = positive_or raw.max_inbox_events_per_agent 10000;
  max_observe_events = positive_or raw.max_observe_events 50000;
  max_inbox_bytes_per_agent = limit_or raw.max_inbox_bytes_per_agent (32 * 1048576);
  max_observe_bytes = limit_or raw.max_observe_bytes (64 * 1048576);
  message_retention = limit_or raw.message_retention hour;
  message_max_age = limit_or raw.message_max_age (24 * hour);
  conversation_retention = limit_or raw.conversation_retention (24 * hour);
  agent_retention = limit_or raw.agent_retention (24 * hour);
  sweep_min_interval = positive_or raw.sweep_min_interval (250 * millisecond);
  namespace_mode = mode_or_compat raw.namespace_mode;
  legacy_scope = legacy_scope_or_ucla raw.legacy_scope;
  shared_grant_agents = raw.shared_grant_agents;
  control_plane_agents = agents;
  control_plane_agent_secret_hashes = raw.control_plane_agent_secret_hashes;
}

-- The part of NewStore that checks and completes the configuration.
unfoldable pub new_config : RawConfig → Checked Config
unfolding normalize_control_plane_agents require_hashes require_identities complete
new_config raw = do
  agents ← normalize_control_plane_agents raw.control_plane_agents
  require_hashes raw.control_plane_agent_secret_hashes agents
  require_identities agents raw.control_plane_agent_secret_hashes
  valid (complete raw agents)
