-- ===== src/Config/Laws.antt =====
-- What NewStore accepts as a configuration.
use pinakes.Base.{
  ℕ, ◌*◌, ◌<◌, ◌≡◌, ◌≢◌, refl, subst, ◌⊎◌, inl, inr, false, Bool-cases, Option-cases, some, String,
  List, [], ◌∷◌, ◌++◌, All, contains, arith, ◌==◌, eq_iff,
}
use pinakes.Base.Int.{ℤ}
use pinakes.Base.Dict.{Dict, lookup}
use pinakes.Text.{trim_space, has_dot}
use pinakes.Types.{shared}
use pinakes.Config.{
  RawConfig, Config, ConfigError, Checked, valid, invalid, normalize_agents,
  normalize_control_plane_agents, require_hashes, positive_or, legacy_scope_or_ucla, complete,
  new_config, second, hour, millisecond,
}

-- A name of the control plane: not blank, and in no scope.
pub record IsIdentity (name : String) : Type 0 where
  pub named : (name == "") ≡ false
  pub plain : has_dot name ≡ false

abbrev pub IsUnique : List String → Type 0
IsUnique [] = Unit
IsUnique (x ∷ xs) = (contains xs x ≡ false) × IsUnique xs

contains_append :
    (y x : String) (xs : List String)
    → contains xs y ≡ false
    → (x == y) ≡ false
    → contains (xs ++ x ∷ []) y ≡ false
contains_append y x [] h ne = ground (arith, ne)
contains_append y x (z ∷ xs) h ne = ground (arith, h, ne, contains_append y x xs)

IsUnique-append :
    (x : String) (xs : List String) → contains xs x ≡ false → IsUnique xs → IsUnique (xs ++ x ∷ [])
IsUnique-append x [] h u = (refl, tt)
IsUnique-append x (z ∷ xs) h u = (
  contains_append z x xs u.0 (ground (arith, h, eq_iff x z, eq_iff z x)),
  IsUnique-append x xs (ground (arith, h)) u.1,
)

identities_append :
    (x : String) (xs : List String)
    → IsIdentity x
    → All IsIdentity xs
    → All IsIdentity (xs ++ x ∷ [])
identities_append x [] h all = (h, tt)
identities_append x (z ∷ xs) h all = (all.0, identities_append x xs h all.1)

-- The names so far are identities, each once.
abbrev pub IsNormal : List String → Type 0
IsNormal xs = All IsIdentity xs × IsUnique xs

normalize_agents-IsNormal :
    (seen raw out : List String)
    → IsNormal seen
    → normalize_agents seen raw ≡ valid out
    → IsNormal out
unfolding normalize_agents
normalize_agents-IsNormal seen [] out h e = subst IsNormal (cc e) h
normalize_agents-IsNormal seen (raw ∷ rest) out h e =
    let name = trim_space raw in
    let skip = normalize_agents-IsNormal seen rest out h in
    elim (Bool-cases (name == "")) [
      | inl blank ↦ skip (rw blank at e)
      | inr named ↦ elim (Bool-cases (has_dot name)) [
        | inl dotted ↦ absurd (cc (rw (named, dotted) at e))
        | inr plain ↦ elim (Bool-cases (contains seen name)) [
          | inl twice ↦ skip (rw (named, plain, twice) at e)
          | inr once ↦
              normalize_agents-IsNormal (seen ++ name ∷ []) rest out
                (
                  identities_append name seen (record { named = named; plain = plain }) h.0,
                  IsUnique-append name seen once h.1,
                )
                (rw (named, plain, once) at e)
        ]
      ]
    ]

abbrev pub HasHash : Dict String → String → Type 0
HasHash hashes name = (hash : String) × (lookup name hashes ≡ some hash)

require_hashes_lem :
    (hashes : Dict String) (names : List String)
    → require_hashes hashes names ≡ valid tt
    → All (HasHash hashes) names
unfolding require_hashes
require_hashes_lem hashes [] e = tt
require_hashes_lem hashes (name ∷ rest) e = elim (Option-cases (lookup name hashes)) [
  | inl missing ↦ absurd (cc (rw (missing, require_hashes) at e))
  | inr (hash, found) ↦
      ((hash, found), require_hashes_lem hashes rest (rw (found, require_hashes) at e))
]

pub record IsComplete (cfg : Config) : Type 0 where
  pub identities : IsNormal cfg.control_plane_agents
  pub hashed : All (HasHash cfg.control_plane_agent_secret_hashes) cfg.control_plane_agents
  pub durations :
      (0 < cfg.grace_period)
      × (0 < cfg.progress_min_interval)
      × (0 < cfg.idempotency_window)
      × (0 < cfg.inbox_wait_max)
      × (0 < cfg.ack_timeout)
      × (0 < cfg.default_message_ttl)
      × (0 < cfg.default_registration_ttl)
      × (0 < cfg.sweep_min_interval)
      × (0 < cfg.push_base_backoff)
      × (0 < cfg.push_shutdown_timeout)
  pub sizes :
      (0 < cfg.push_queue_size)
      × (0 < cfg.push_workers)
      × (0 < cfg.push_max_attempts)
      × (0 < cfg.max_inbox_events_per_agent)
      × (0 < cfg.max_observe_events)
  pub legacy : cfg.legacy_scope ≢ shared

positive : (x : ℤ) (d : ℕ) → 0 < d → 0 < positive_or x d
unfolding positive_or
positive x d h = ground (arith, h)

legacy_lem : (raw : String) → legacy_scope_or_ucla raw ≢ shared
unfolding legacy_scope_or_ucla
legacy_lem raw e = ground (arith, e)

complete-IsComplete :
    (raw : RawConfig) (agents : List String)
    → IsNormal agents
    → All (HasHash raw.control_plane_agent_secret_hashes) agents
    → IsComplete (complete raw agents)
unfolding complete
complete-IsComplete raw agents normal hashed = record {
  identities = normal;
  hashed = hashed;
  durations = (
    positive raw.grace_period (30 * second) (omega arith),
    positive raw.progress_min_interval (2 * second) (omega arith),
    positive raw.idempotency_window (24 * hour) (omega arith),
    positive raw.inbox_wait_max (60 * second) (omega arith),
    positive raw.ack_timeout (10 * second) (omega arith),
    positive raw.default_message_ttl (600 * second) (omega arith),
    positive raw.default_registration_ttl (60 * second) (omega arith),
    positive raw.sweep_min_interval (250 * millisecond) (omega arith),
    positive raw.push_base_backoff (500 * millisecond) (omega arith),
    positive raw.push_shutdown_timeout (15 * second) (omega arith),
  );
  sizes = (
    positive raw.push_queue_size (256) (omega arith),
    positive raw.push_workers (4) (omega arith),
    positive raw.push_max_attempts (3) (omega arith),
    positive raw.max_inbox_events_per_agent (10000) (omega arith),
    positive raw.max_observe_events (50000) (omega arith),
  );
  legacy = legacy_lem raw.legacy_scope;
}

-- A check that passed: the value of a result.
Checked-cases {ℓ} :
    {A : Type ℓ} (c : Checked A) → ((a : A) × (c ≡ valid a)) ⊎ ((e : ConfigError) × (c ≡ invalid e))
Checked-cases (valid a) = inl (a, refl)
Checked-cases (invalid e) = inr (e, refl)

-- A configuration that NewStore accepts has control-plane names that are not blank, have no dot,
-- stand once and have a secret hash each; its durations, counts and sizes for which NewStore
-- replaces what is not positive are positive; and its legacy scope is not shared.
pub new_config-IsComplete :
    (raw : RawConfig) (cfg : Config) → new_config raw ≡ valid cfg → IsComplete cfg
unfolding new_config normalize_control_plane_agents
new_config-IsComplete raw cfg e =
    let hashes = raw.control_plane_agent_secret_hashes in
    elim (Checked-cases (normalize_agents [] raw.control_plane_agents)) [
      | inr (w, refused) ↦ absurd (ground (arith, e, refused))
      | inl (agents, normal) ↦ subst IsComplete (ground (arith, e, normal)) (
          complete-IsComplete raw agents
            (normalize_agents-IsNormal [] raw.control_plane_agents agents (tt, tt) normal)
            (require_hashes_lem hashes agents (ground (arith, e, normal))))
    ]
