-- ===== src/Store/Sweep/Laws.antt =====
-- The sweep on one message: what it does, and to which messages.
use pinakes.Base.{
  ℕ, ◌+◌, ◌<◌, ◌≤◌, ◌≡◌, ◌⊎◌, ◌↔◌, Bool, none, inl, inr, true, false, some, String, arith,
  Option-cases,
}
use pinakes.Base.Dict.{Dict, lookup}
use pinakes.Types.{Agent, Message, error, waiting}
use pinakes.Config.{Config}
use pinakes.Store.Status.{is_terminal, is_request, is_active}
use pinakes.Store.Sweep.{verdict, settle, deliver}
use pinakes.Store.Sweep.Prune.{prunes_message}

-- What the sweep hands over to its target is a queued request that has not ended, whose TTL has
-- not passed, and whose target is registered and active.
pub deliver_only_queued :
    (now t : ℕ) (agents : Dict Agent) (m : Message)
    → verdict now t agents m ≡ deliver
    → (m.queued_for_agent ≡ true)
      × (is_request m.type ≡ true)
      × (is_terminal m.state ≡ false)
      × ((m.ttl_expires_at ≡ 0) ⊎ (now ≤ m.ttl_expires_at))
      × (target : Agent) × (lookup m.to agents ≡ some target)
      × (is_active target.status ≡ true)
unfolding verdict
deliver_only_queued now t agents m h = elim (Option-cases (lookup m.to agents)) [
  | inl e ↦ absurd (ground (arith, h, e))
  | inr (target, e) ↦ (
    ground (arith, h, e),
    ground (arith, h, e),
    ground (arith, h, e),
    ground (arith, h, e),
    target,
    e,
    ground (arith, h, e),
  )
]

-- The target of the message is active.
abbrev pub has_active : Dict Agent → String → Bool
has_active agents to = elim (lookup to agents) [ none ↦ false | some a ↦ is_active a.status ]

-- A message that the sweep ends is a request; it has failed now, and only its queue mark may
-- change besides. Its TTL was set and has passed; or it waited for its ack, was delivered, and
-- the ack timeout has passed since; or it was queued for a target that is not active, its grace
-- period was set and has passed.
pub ended_past_deadline :
    (now t : ℕ) (agents : Dict Agent) (m : Message)
    → is_terminal m.state ≡ false
    → is_terminal (settle now m (verdict now t agents m)).state ≡ true
    → (settle now m (verdict now t agents m) ≡ record m {
      state = error;
      terminal_at = now;
      queued_for_agent = (settle now m (verdict now t agents m)).queued_for_agent;
    })
      × (is_request m.type ≡ true)
      × (((0 < m.ttl_expires_at) × (m.ttl_expires_at < now))
          ⊎ ((m.state ≡ waiting) × (0 < m.delivered_at) × (m.delivered_at + t < now))
          ⊎ ((m.queued_for_agent ≡ true)
              × (has_active agents m.to ≡ false)
              × (0 < m.grace_until)
              × (m.grace_until < now)))
unfolding verdict
ended_past_deadline now t agents m going ended = ground (arith, going, ended)

-- A message is pruned exactly if an age cap is set and has passed since its creation; or it has
-- ended, a retention is set, and that has passed since its end, or since its creation where its
-- end has no time.
pub prunes_message_lem :
    (now : ℕ) (cfg : Config) (m : Message)
    → (prunes_message now cfg m ≡ true) ↔ (
        ((0 < cfg.message_max_age) × (m.created_at + cfg.message_max_age < now))
        ⊎ ((is_terminal m.state ≡ true)
            × (0 < cfg.message_retention)
            × (((m.terminal_at ≡ 0) × (m.created_at + cfg.message_retention < now))
                ⊎ ((0 < m.terminal_at) × (m.terminal_at + cfg.message_retention < now)))))
unfolding prunes_message
prunes_message_lem now cfg m = (λ h. ground (arith, h), λ h. ground (arith, h))
