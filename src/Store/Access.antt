-- ===== src/Store/Access.antt =====
-- The access rules of pkg/bus/store.go: who may subscribe to, publish to and see which names.
pub mod Laws
use pinakes.Base.{String, Bool, true, false, List, [], ◌∷◌, Option, none, some, ◌==◌, if◌then◌else◌}
use pinakes.Text.{trim_space}
use pinakes.Types.{Scope, personal, ucla, shared, Agent, Conversation}
use pinakes.Errors.{Result, ok, err, fail, validation, unauthorized}
use pinakes.Config.{Config}
use pinakes.Scope.{
  scope_of_name, is_control_plane_agent, accepts_name, agent_has_scope, agent_has_shared_grant,
}

abbrev scope_denied : Result (Unit {0})
scope_denied = fail unauthorized "identity is not allowed to access this scope"

-- The rule once the scope of the resource is known.
unfoldable pub authorize_scope : Config → String → Option Scope → Result (Unit {0})
authorize_scope cfg agent_id none =
    fail validation "topic/queue name must be prefixed with personal., ucla., or shared."
authorize_scope cfg agent_id (some shared) =
    if agent_has_shared_grant cfg agent_id
    then ok tt
    else fail unauthorized "shared.* access requires explicit shared grant"
authorize_scope cfg agent_id (some scope) =
    if agent_has_scope cfg agent_id scope then ok tt else scope_denied

unfoldable pub authorize_agent_for_name : Config → Agent → String → Result (Unit {0})
authorize_agent_for_name cfg agent resource =
    let by_scope = authorize_scope cfg agent.agent_id (scope_of_name cfg resource) in
    if is_control_plane_agent cfg agent.agent_id
    then (if accepts_name cfg resource then ok tt else by_scope)
    else by_scope

unfoldable pub authorize_send_target : Config → Agent → String → Result (Unit {0})
authorize_send_target cfg agent resource =
    if is_control_plane_agent cfg resource
    then ok tt
    else authorize_agent_for_name cfg agent resource

abbrev can_access_scope : Config → String → Option Scope → Bool
can_access_scope cfg agent_id none = false
can_access_scope cfg agent_id (some shared) = agent_has_shared_grant cfg agent_id
can_access_scope cfg agent_id (some scope) = agent_has_scope cfg agent_id scope

unfoldable pub agent_can_access_name : Config → String → String → Bool
agent_can_access_name cfg raw resource =
    let agent_id = trim_space raw in
    if agent_id == ""
    then true
    else if is_control_plane_agent cfg agent_id
    then accepts_name cfg resource
    else can_access_scope cfg agent_id (scope_of_name cfg resource)

-- The loop of actorCanAccessAllNames; `protected` tells whether a name was checked so far.
unfoldable pub can_access_all : Config → String → Bool → List String → Bool
can_access_all cfg actor protected [] = protected
can_access_all cfg actor protected (raw ∷ rest) =
    let name = trim_space raw in
    let skip = can_access_all cfg actor protected rest in
    let next = can_access_all cfg actor true rest in
    if name == "" then skip else if agent_can_access_name cfg actor name then next else false

unfoldable pub actor_can_access_all_names : Config → String → List String → Bool
actor_can_access_all_names cfg raw names =
    let actor = trim_space raw in if actor == "" then true else can_access_all cfg actor false names

unfoldable pub actor_can_access_conversation : Config → String → Conversation → Bool
actor_can_access_conversation cfg actor conv =
    actor_can_access_all_names cfg actor conv.participants

-- The loop of authorizeActorForNames.
unfoldable pub authorize_all : Config → String → List String → Result (Unit {0})
authorize_all cfg actor [] = ok tt
authorize_all cfg actor (raw ∷ rest) =
    let name = trim_space raw in
    let next = authorize_all cfg actor rest in
    if name == "" then next else if agent_can_access_name cfg actor name then next else scope_denied

unfoldable pub authorize_actor_for_names : Config → String → List String → Result (Unit {0})
authorize_actor_for_names cfg raw names =
    let actor = trim_space raw in if actor == "" then ok tt else authorize_all cfg actor names
