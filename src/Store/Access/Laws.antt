-- ===== src/Store/Access/Laws.antt =====
-- The two forms of the access rule agree, and the loops over names are the rule for each name.
use pinakes.Base.{◌≡◌, ◌↔◌, ◌⊎◌, refl, Bool, true, false, String, List, [], ◌∷◌, arith, ◌==◌, All}
use pinakes.Text.{trim_space}
use pinakes.Types.{Agent}
use pinakes.Config.{Config}
use pinakes.Errors.{ok}
use pinakes.Scope.{accepts_name}
use pinakes.Store.Access.{
  authorize_scope, authorize_agent_for_name, agent_can_access_name, can_access_all,
  actor_can_access_all_names, authorize_all, authorize_actor_for_names,
}

-- For an agent whose id is trimmed and not empty, the rule that authorizes a name and the rule
-- that decides whether a name can be seen agree on every name.
pub authorize_agent_for_name_iff :
    (cfg : Config) (agent : Agent) (resource : String)
    → trim_space agent.agent_id ≡ agent.agent_id
    → (agent.agent_id == "") ≡ false
    → (authorize_agent_for_name cfg agent resource ≡ ok tt)
      ↔ (agent_can_access_name cfg agent.agent_id resource ≡ true)
unfolding authorize_agent_for_name agent_can_access_name authorize_scope accepts_name
authorize_agent_for_name_iff cfg agent resource trimmed named = ground (arith, trimmed, named)

-- The name is blank, or the actor may see it.
abbrev pub IsOpen : Config → String → String → Type 0
IsOpen cfg actor name =
    ((trim_space name == "") ≡ true) ⊎ (agent_can_access_name cfg actor (trim_space name) ≡ true)

authorize_all_iff :
    (cfg : Config) (actor : String) (names : List String)
    → (authorize_all cfg actor names ≡ ok tt) ↔ All (IsOpen cfg actor) names
unfolding authorize_all
authorize_all_iff cfg actor [] = (λ h. tt, λ h. refl)
authorize_all_iff cfg actor (name ∷ rest) = ground (arith, authorize_all_iff cfg actor rest)

-- An actor is authorized for a list of names exactly if the actor is blank, or each name is blank
-- or one that the actor may see.
pub authorize_actor_for_names_iff :
    (cfg : Config) (actor : String) (names : List String)
    → (authorize_actor_for_names cfg actor names ≡ ok tt)
      ↔ (((trim_space actor == "") ≡ true) ⊎ All (IsOpen cfg (trim_space actor)) names)
unfolding authorize_actor_for_names
authorize_actor_for_names_iff cfg actor names =
    ground (arith, authorize_all_iff cfg (trim_space actor) names)

can_access_all_lem :
    (cfg : Config) (actor : String) (checked : Bool) (names : List String)
    → can_access_all cfg actor checked names ≡ true
    → authorize_all cfg actor names ≡ ok tt
unfolding can_access_all authorize_all
can_access_all_lem cfg actor checked [] h = refl
can_access_all_lem cfg actor checked (n ∷ rest) h =
    ground
      (arith, h, can_access_all_lem cfg actor checked rest, can_access_all_lem cfg actor true rest)

-- An actor that may see a conversation with the given participants is authorized for all of them.
pub visible_may_reuse :
    (cfg : Config) (actor : String) (names : List String)
    → actor_can_access_all_names cfg actor names ≡ true
    → authorize_actor_for_names cfg actor names ≡ ok tt
unfolding actor_can_access_all_names authorize_actor_for_names
visible_may_reuse cfg actor names h =
    ground (arith, h, can_access_all_lem cfg (trim_space actor) false names)
