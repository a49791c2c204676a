-- ===== src/Scope.antt =====
-- pkg/bus/scope.go: which scope a name lies in, and which scopes an agent may use.
use pinakes.Base.{
  String, Bool, true, false, ◌&&◌, List, [], ◌∷◌, ◌++◌, Option, none, some, contains, ◌==◌,
  if◌then◌else◌,
}
use pinakes.Text.{trim_space, to_lower, has_dot, before_dot}
use pinakes.Types.{Scope, personal, ucla, shared, NamespaceMode, compat, strict}
use pinakes.Errors.{Result, ok, fail, validation}
use pinakes.Config.{Config}

abbrev pub scope_text : Scope → String
scope_text personal = "personal"
scope_text ucla = "ucla"
scope_text shared = "shared"

abbrev pub all_scope_names : List String
all_scope_names = "personal" ∷ "ucla" ∷ "shared" ∷ []

-- `_, ok := validScopes[Scope(text)]`
unfoldable pub valid_scope : String → Option Scope
valid_scope text =
    if text == "personal"
    then some personal
    else if text == "ucla"
    then some ucla
    else if text == "shared"
    then some shared
    else none

-- ScopeOfName: the prefix up to the first dot, if it is a scope.
unfoldable pub prefix_scope : String → Option Scope
unfolding valid_scope
prefix_scope raw =
    let name = trim_space raw in if has_dot name then valid_scope (before_dot name) else none

abbrev legacy_or_none : NamespaceMode → Scope → String → Option Scope
legacy_or_none strict legacy raw = none
legacy_or_none compat legacy raw = if trim_space raw == "" then none else some legacy

-- (s *Store) scopeOfName
unfoldable pub scope_of_name : Config → String → Option Scope
scope_of_name cfg raw = elim (prefix_scope raw) [
  | some scope ↦ some scope
  | none ↦ legacy_or_none cfg.namespace_mode cfg.legacy_scope raw
]

unfoldable pub normalize_scopes_loop : List String → List String → Result (List String)
unfolding valid_scope
normalize_scopes_loop out [] = ok out
normalize_scopes_loop out (raw ∷ rest) =
    let text = trim_space (to_lower raw) in
    let skip = normalize_scopes_loop out rest in
    let keep = normalize_scopes_loop (out ++ text ∷ []) rest in
    if text == "" then skip else elim (valid_scope text) [
      | none ↦ fail validation "allowed_scopes must contain only personal, ucla, or shared"
      | some scope ↦ if contains out text then skip else keep
    ]

unfoldable pub normalize_scopes : List String → Result (List String)
unfolding normalize_scopes_loop
normalize_scopes scopes = normalize_scopes_loop [] scopes

unfoldable pub normalize_grants_loop : List String → List String → Result (List String)
normalize_grants_loop out [] = ok out
normalize_grants_loop out (raw ∷ rest) =
    let grant = trim_space (to_lower raw) in
    let skip = normalize_grants_loop out rest in
    let keep = normalize_grants_loop (out ++ "shared" ∷ []) rest in
    if grant == ""
    then skip
    else if grant == "shared"
    then (if contains out "shared" then skip else keep)
    else if grant == "shared.*"
    then (if contains out "shared" then skip else keep)
    else fail validation "shared_grants must contain only shared"

unfoldable pub normalize_shared_grants : List String → Result (List String)
unfolding normalize_grants_loop
normalize_shared_grants grants = normalize_grants_loop [] grants

unfoldable pub is_configured_control_plane_agent : Config → String → Bool
is_configured_control_plane_agent cfg agent_id =
    contains cfg.control_plane_agents (trim_space agent_id)

abbrev is_strict : NamespaceMode → Bool
is_strict strict = true
is_strict compat = false

unfoldable pub is_control_plane_agent : Config → String → Bool
unfolding is_configured_control_plane_agent
is_control_plane_agent cfg agent_id =
    is_strict cfg.namespace_mode && is_configured_control_plane_agent cfg agent_id

abbrev scope_list : Option Scope → List String
scope_list none = []
scope_list (some scope) = scope_text scope ∷ []

-- (s *Store) agentAllowedScopes
unfoldable pub agent_allowed_scopes : Config → String → List String
agent_allowed_scopes cfg agent_id =
    if is_control_plane_agent cfg agent_id
    then all_scope_names
    else scope_list (scope_of_name cfg agent_id)

abbrev pub is_some {ℓ} : {A : Type ℓ} → Option A → Bool
is_some none = false
is_some (some a) = true

unfoldable pub accepts_name : Config → String → Bool
accepts_name cfg name =
    if is_control_plane_agent cfg name then true else is_some (scope_of_name cfg name)

unfoldable pub agent_has_scope : Config → String → Scope → Bool
unfolding agent_allowed_scopes
agent_has_scope cfg agent_id scope = contains (agent_allowed_scopes cfg agent_id) (scope_text scope)

-- The loop over SharedGrantAgents.
unfoldable pub is_granted : List String → String → Bool
is_granted [] agent_id = false
is_granted (raw ∷ rest) agent_id =
    if trim_space raw == agent_id then true else is_granted rest agent_id

unfoldable pub agent_shared_grants : Config → String → List String
unfolding is_granted
agent_shared_grants cfg raw =
    let agent_id = trim_space raw in
    if agent_id == ""
    then []
    else if is_control_plane_agent cfg agent_id
    then "shared" ∷ []
    else if is_granted cfg.shared_grant_agents agent_id
    then "shared" ∷ []
    else []

unfoldable pub agent_has_shared_grant : Config → String → Bool
unfolding agent_shared_grants
agent_has_shared_grant cfg agent_id = contains (agent_shared_grants cfg agent_id) "shared"
