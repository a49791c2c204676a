-- ===== src/Store/Register/Laws.antt =====
-- RegisterAgent: what a registration leaves in the store.
use pinakes.Base.{
  ℕ, ◌≡◌, refl, sym, ap, subst, ◌∙◌, ◌⊎◌, true, none, some, Option-cases, inl, inr, String, List,
  [], arith,
}
use pinakes.Base.Dict.{Dict, lookup, lookup_or, insert}
use pinakes.Base.Dict.Laws.{lookup-insert_self, lookup_or-insert_self}
use pinakes.Text.{trim_space}
use pinakes.Types.{Agent, AgentMode, InboxEvent, RegisterAgentInput}
use pinakes.Errors.{ok}
use pinakes.Scope.{agent_allowed_scopes, agent_shared_grants}
use pinakes.Store.{Store}
use pinakes.Store.Status.{is_active}
use pinakes.Store.Access.{authorize_agent_for_name}
use pinakes.Store.Observe.{publish, trim_observe}
use pinakes.Store.Register.{new_agent, open_inbox, add_agent, register_locked}

-- What a registration has done: the agent stands under its id, active, with the scopes and grants of
-- its name and not those that it asked for, and it keeps the time of its first registration and what
-- waits in its inbox.
pub record Registered (input : RegisterAgentInput) (a : Agent) (s t : Store) : Type 0 where
  pub named : a.agent_id ≡ trim_space input.agent_id
  pub stands : lookup a.agent_id t.agents ≡ some a
  pub present : is_active a.status ≡ true
  pub scopes : a.allowed_scopes ≡ agent_allowed_scopes s.cfg a.agent_id
  pub grants : a.shared_grants ≡ agent_shared_grants s.cfg a.agent_id
  pub allowed : authorize_agent_for_name s.cfg a a.agent_id ≡ ok tt
  pub since :
      (lookup a.agent_id s.agents ≡ none)
      ⊎ ((old : Agent) × (lookup a.agent_id s.agents ≡ some old)
          × (a.registered_at ≡ old.registered_at))
  pub inbox : lookup_or [] a.agent_id t.inboxes ≡ lookup_or [] a.agent_id s.inboxes

lookup_or_missing :
    (id : String) (d : Dict (List InboxEvent)) → lookup id d ≡ none → lookup_or [] id d ≡ []
unfolding lookup_or
lookup_or_missing id d e = rw (e, lookup_or) refl

open_inbox-keeps :
    (id : String) (s : Store)
    → ((open_inbox id s).agents ≡ s.agents)
      × (lookup_or [] id (open_inbox id s).inboxes ≡ lookup_or [] id s.inboxes)
unfolding open_inbox
open_inbox-keeps id s = elim (Option-cases (lookup id s.inboxes)) [
  | inr (events, e) ↦ rw (e, open_inbox) (refl, refl)
  | inl e ↦
      rw (e, open_inbox)
        (refl, lookup_or-insert_self [] id [] s.inboxes ∙ sym (lookup_or_missing id s.inboxes e))
]

add_agent-keeps :
    (now : ℕ) (a : Agent) (s : Store)
    → (lookup a.agent_id (add_agent now a s).1.agents ≡ some a)
      × (lookup_or [] a.agent_id (add_agent now a s).1.inboxes ≡ lookup_or [] a.agent_id s.inboxes)
unfolding add_agent publish trim_observe
add_agent-keeps now a s =
    let h = open_inbox-keeps a.agent_id (record s { agents = insert a.agent_id a s.agents }) in
    (ap (lookup a.agent_id) h.0 ∙ lookup-insert_self a.agent_id a s.agents, h.1)

abbrev Since : Store → Agent → Type 0
Since s a =
    (lookup a.agent_id s.agents ≡ none)
    ⊎ ((old : Agent) × (lookup a.agent_id s.agents ≡ some old)
        × (a.registered_at ≡ old.registered_at))

new_agent-Since :
    (now : ℕ) (input : RegisterAgentInput) (mode : AgentMode) (s : Store)
    → Since s (new_agent now input mode s)
unfolding new_agent
new_agent-Since now input mode s =
    elim (Option-cases (lookup (trim_space input.agent_id) s.agents)) [
      | inl e ↦ inl e
      | inr (old, e) ↦ inr (old, e, rw e refl)
    ]

register_lem :
    (now : ℕ) (input : RegisterAgentInput) (mode : AgentMode) (a : Agent) (s : Store)
    → (register_locked now input mode s).0 ≡ ok a
    → (a ≡ new_agent now input mode s)
      × (authorize_agent_for_name s.cfg a a.agent_id ≡ ok tt)
      × ((register_locked now input mode s).1 ≡ (add_agent now a s).1)
unfolding register_locked add_agent
register_lem now input mode a s h = grind (arith, h)

-- A registration that succeeds under the lock leaves the agent active under its trimmed id, with
-- the scopes and grants of its name and not those that it asked for; it keeps the time of an
-- earlier registration and what waits in its inbox.
pub register_locked-Registered :
    (now : ℕ) (input : RegisterAgentInput) (mode : AgentMode) (a : Agent) (s : Store)
    → (register_locked now input mode s).0 ≡ ok a
    → Registered input a s (register_locked now input mode s).1
unfolding new_agent
register_locked-Registered now input mode a s h =
    let (same, allowed, left) = register_lem now input mode a s h in
    let (stands, inbox) = add_agent-keeps now a s in
    record {
      named = ap (λ (x : Agent). x.agent_id) same;
      stands = ap (λ (t : Store). lookup a.agent_id t.agents) left ∙ stands;
      present = ap (λ (x : Agent). is_active x.status) same;
      scopes =
          subst (λ (x : Agent). x.allowed_scopes ≡ agent_allowed_scopes s.cfg x.agent_id) (sym same)
            refl;
      grants =
          subst (λ (x : Agent). x.shared_grants ≡ agent_shared_grants s.cfg x.agent_id) (sym same)
            refl;
      allowed = allowed;
      since = subst (Since s) (sym same) (new_agent-Since now input mode s);
      inbox = ap (λ (t : Store). lookup_or [] a.agent_id t.inboxes) left ∙ inbox;
    }
