-- ===== src/Store/Register.antt =====
-- RegisterAgent of pkg/bus/store.go.
pub mod Laws
pub mod Lifetime
use pinakes.Base.{
  ℕ, String, Bool, true, false, not, ◌&&◌, ◌||◌, List, [], ◌∷◌, Option, none, some, ◌==◌,
  if◌then◌else◌,
}
use pinakes.Base.Int.{ℤ, pos, non_positive}
use pinakes.Base.Dict.{lookup, lookup_or, insert}
use pinakes.Text.{trim_space}
use pinakes.Types.{
  Agent, AgentMode, pull, push, active, BuildInfo, AgentMeta, RegisterAgentInput, agent_registered,
}
use pinakes.Errors.{
  Result, ok, fail, validation, unauthorized, reject_if, whole_seconds, ◌>>=◌, ◌>>◌,
}
use pinakes.Config.{Config}
use pinakes.Scope.{
  accepts_name, is_configured_control_plane_agent, normalize_scopes, normalize_shared_grants,
  agent_allowed_scopes, agent_shared_grants,
}
use pinakes.Store.{Store, Env, Operation, try, guarded, seconds, add_duration}
use pinakes.Store.Access.{authorize_agent_for_name}
use pinakes.Store.Observe.{publish}
use pinakes.Store.Sweep.{sweep}

unfoldable pub normalize_build_info : Option BuildInfo → Option BuildInfo
normalize_build_info none = none
normalize_build_info (some b) =
    let commit = trim_space b.commit in
    if commit == "" && not b.dirty then none else some (record { commit = commit; dirty = b.dirty })

unfoldable pub trim_all : List String → List String
trim_all [] = []
trim_all (raw ∷ rest) =
    let others = trim_all rest in
    let text = trim_space raw in if text == "" then others else text ∷ others

abbrev is_empty {ℓ} : {A : Type ℓ} → List A → Bool
is_empty [] = true
is_empty (x ∷ xs) = false

unfoldable pub normalize_agent_meta : Option AgentMeta → Option AgentMeta
normalize_agent_meta none = none
normalize_agent_meta (some m) =
    let owner = trim_space m.owner in
    let repo = trim_space m.repo in
    let health_url = trim_space m.health_url in
    let dependencies = trim_all m.dependencies in
    if owner == "" && repo == "" && health_url == "" && is_empty dependencies
    then none
    else some (record {
      owner = owner;
      repo = repo;
      health_url = health_url;
      dependencies = dependencies;
    })

-- The zero value of a digest, in hexadecimal.
abbrev zero_digest : String
zero_digest = "0000000000000000000000000000000000000000000000000000000000000000"

unfoldable pub check_secret : Config → Env → String → String → Result (Unit {0})
check_secret cfg env agent_id secret =
    reject_if
      (is_configured_control_plane_agent cfg agent_id
        && not (
            env.sha256 secret
            == lookup_or zero_digest agent_id cfg.control_plane_agent_secret_hashes))
      unauthorized "control-plane registration credential rejected"

unfoldable pub parse_mode : String → Result AgentMode
parse_mode raw =
    if raw == ""
    then ok pull
    else if raw == "pull"
    then ok pull
    else if raw == "push"
    then ok push
    else fail validation "mode must be pull or push"

abbrev is_push : AgentMode → Bool
is_push push = true
is_push pull = false

-- The checks before the lock, in their order; the mode is their result.
unfoldable pub check_registration : Config → Env → RegisterAgentInput → Result AgentMode
check_registration cfg env input = do
  let agent_id = trim_space input.agent_id
  reject_if (agent_id == "") validation "agent_id is required"
  reject_if (not (accepts_name cfg agent_id)) validation
      "agent_id must be prefixed with personal., ucla., or shared."
  check_secret cfg env agent_id input.secret
  normalize_scopes input.allowed_scopes
  normalize_shared_grants input.shared_grants
  mode ← parse_mode input.mode
  reject_if (is_push mode && trim_space input.callback_url == "") validation
      "callback_url required for push mode"
  let class = trim_space input.agent_class
  reject_if (not (class == "" || class == "worker" || class == "orchestrator")) validation
      "agent_class must be worker or orchestrator"
  let mutation = trim_space input.mutation_class
  reject_if
      (not (
        mutation == "" || mutation == "observe" || mutation == "recommend" || mutation == "mutate"))
      validation "mutation_class must be observe, recommend, or mutate"
  ok mode

-- `if ttl <= 0 { ttl = int(default.Seconds()) }`
unfoldable pub ttl_or : ℤ → ℕ → ℤ
ttl_or ttl default = if non_positive ttl then pos (whole_seconds default) else ttl

abbrev first_seen : ℕ → Option Agent → ℕ
first_seen now none = now
first_seen now (some existing) = existing.registered_at

unfoldable pub new_agent : ℕ → RegisterAgentInput → AgentMode → Store → Agent
new_agent now input mode s =
    let agent_id = trim_space input.agent_id in
    let ttl = ttl_or input.ttl_seconds s.cfg.default_registration_ttl in
    record {
      agent_id = agent_id;
      allowed_scopes = agent_allowed_scopes s.cfg agent_id;
      shared_grants = agent_shared_grants s.cfg agent_id;
      capabilities = input.capabilities;
      version = trim_space input.version;
      description = trim_space input.description;
      agent_class = trim_space input.agent_class;
      mutation_class = trim_space input.mutation_class;
      build = normalize_build_info input.build;
      meta = normalize_agent_meta input.meta;
      mode = mode;
      callback_url = trim_space input.callback_url;
      status = active;
      registered_at = first_seen now (lookup agent_id s.agents);
      expires_at = add_duration now (seconds ttl);
      ttl_seconds = ttl;
    }

unfoldable pub open_inbox : String → Store → Store
open_inbox agent_id s = elim (lookup agent_id s.inboxes) [
  | some events ↦ s
  | none ↦ record s {
    inboxes = insert agent_id [] s.inboxes;
    inbox_base = insert agent_id 0 s.inbox_base;
    inbox_bytes = insert agent_id 0 s.inbox_bytes;
  }
]

unfoldable pub add_agent : ℕ → Agent → Operation Agent
add_agent now agent s =
    let stored =
      open_inbox agent.agent_id (record s { agents = insert agent.agent_id agent s.agents }) in
    (
      ok agent,
      publish
          (agent_registered agent.agent_id agent.allowed_scopes agent.shared_grants
            agent.capabilities now)
          "" (agent.agent_id ∷ []) now stored,
    )

-- What happens under the lock, after the sweep.
unfoldable pub register_locked : ℕ → RegisterAgentInput → AgentMode → Operation Agent
register_locked now input mode s =
    let agent = new_agent now input mode s in
    guarded (authorize_agent_for_name s.cfg agent agent.agent_id) (add_agent now agent) s

unfoldable pub register_agent : ℕ → RegisterAgentInput → Operation Agent
register_agent now input s =
    try (check_registration s.cfg s.env input)
      (λ mode (s : Store). register_locked now input mode (sweep now s)) s
