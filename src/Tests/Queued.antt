-- ===== src/Tests/Queued.antt =====
-- A message that waits for a target that is gone, reports one after the other, and two looks at an inbox.
use pinakes.Base.Dict.{lookup, lookup_or, insert, remove, keep_if, sweep_values}
use pinakes.Text.{
  is_space, trim_left, trim_right, trim_space, has_dot, before_dot, lower_char, to_lower,
}
use pinakes.Text.Decimal.{digit, digits, format_int, format_padded}
use pinakes.Config.{
  normalize_agents, normalize_control_plane_agents, require_hashes, require_identities, positive_or,
  limit_or, mode_or_compat, legacy_scope_or_ucla, complete, new_config,
}
use pinakes.Scope.{
  valid_scope, prefix_scope, scope_of_name, normalize_scopes_loop, normalize_scopes,
  normalize_grants_loop, normalize_shared_grants, is_configured_control_plane_agent,
  is_control_plane_agent, agent_allowed_scopes, accepts_name, agent_has_scope, is_granted,
  agent_shared_grants, agent_has_shared_grant,
}
use pinakes.Store.{new_store, seconds, add_duration}
use pinakes.Store.Access.{
  authorize_scope, authorize_agent_for_name, authorize_send_target, agent_can_access_name,
  can_access_all, actor_can_access_all_names, actor_can_access_conversation, authorize_all,
  authorize_actor_for_names,
}
use pinakes.Store.Inbox.{
  inbox_event_size, over_count, evict, evict_count, drop_count, drop_inbox_prefix, append_inbox,
}
use pinakes.Store.Observe.{observe_event_size, trim_observe, publish}
use pinakes.Store.Push.{enqueue_push_job}
use pinakes.Store.Conversations.{
  conversation_id, merge_loop, merge_participants, create_new, reuse, open_conversation,
  ensure_conversation, check_participants,
}
use pinakes.Store.Sweep.{
  forget_keys, expire_agent, expire_agents, verdict, message_event, announce, sweep_message,
  sweep_messages, sweep_due, sweep,
}
use pinakes.Store.Sweep.Prune.{
  prunes_message, prune_messages, any_live, prunes_conversation, prune_conversations, prune_agents,
  prune_idle, prune_expired, prune,
}
use pinakes.Store.Register.{
  normalize_build_info, trim_all, normalize_agent_meta, check_secret, parse_mode,
  check_registration, ttl_or, new_agent, open_inbox, add_agent, register_locked, register_agent,
}
use pinakes.Store.Acceptance.{message_id, push_job_for, install, publish_message, schedule_push}
use pinakes.Store.Send.{
  dedupe_key, parse_message_type, check_send, route, earlier, answer_again, join_conversation,
  choose_conversation, check_grace, new_message, count_message, plan, plan_send, accept, send_new,
  send_once, send_locked, send_message,
}
use pinakes.Store.Lifecycle.{
  put_message, check_ack, ack_target, acked, finish_ack, ack_to, ack_locked, ack, parse_event_kind,
  check_event, event_target, advanced, publish_event, post_to, post_locked, post_event,
}
use pinakes.Store.Poll.{
  check_poll, clamp_wait, clamp_between, limit_events, may_poll, answer_from, read_inbox,
  poll_round,
}
use pinakes.Store.Observing.{event_matches_filter, past_at, search_loop, sort_search, events_since}
use pinakes.Errors.{status_for_code, retry_after_seconds, new_error}
use pinakes.Base.{
  ℕ, ◌+◌, ◌*◌, ◌≤◌, ◌≡◌, refl, true, false, some, none, [], ◌∷◌, ◌++◌, take, length, arith,
}
use pinakes.Base.Int.{pos}
use pinakes.Types.{Message, InjectInput, EventInput, pending}
use pinakes.Errors.{ok, new_error}
use pinakes.Store.{Store, new_store}
use pinakes.Store.Lifecycle.{progress}
use pinakes.Store.Status.{is_request}
use pinakes.Store.Inject.{
  check_inject, injected, injected_conversation, place_at, place, stamp_terminal, plan_inject,
  accept_injection, inject_locked, inject,
}
use pinakes.Store.Lifecycle.Moves.{Follows, reports-Follows}
use pinakes.Store.Inbox.Laws.{events_of, base_of}
use pinakes.Store.Poll.Joined.{append_all, polls_join}
use pinakes.Store.Acceptance.{no_barrier}
use pinakes.Store.Sound.Operations.{Sound}
use pinakes.Store.Sound.Reach.{Reach, start, next, registers, injects, sweeps, reachable-Sound}
use pinakes.Store.Sound.Final.{only_requests_change}
use pinakes.Tests.Data.{
  cfg, env, start_time, empty_store, registration, answer, acceptance, asked, incoming, sent_event,
  sent_message, run_asked, no_advance,
}

abbrev notice : InjectInput
notice = record { identity = "joel"; conversation_id = ""; to = "ucla.b"; body = "hello" }

-- The target has expired, and its grace period has not passed.
abbrev gone_time : ℕ
gone_time = start_time + 70 * 1_000_000_000

abbrev noticed : Store
noticed =
    (inject gone_time notice no_barrier
      (register_agent start_time (registration "ucla.b") empty_store).1).1

abbrev run_noticed : Reach empty_store noticed
run_noticed =
    next (next start (registers start_time (registration "ucla.b")))
      (injects gone_time notice no_barrier)

-- The target is back, and the sweep has run since.
abbrev returned : Store
returned =
    sweep (gone_time + 1_000_000_000) (register_agent gone_time (registration "ucla.b") noticed).1

abbrev run_returned : Reach noticed returned
run_returned =
    next (next start (registers gone_time (registration "ucla.b")))
      (sweeps (gone_time + 1_000_000_000))

abbrev first_message : Store → Message
first_message s = elim (lookup "m-000001" s.messages) [ none ↦ sent_message | some m ↦ m ]

noticed_test : lookup "m-000001" noticed.messages ≡ some (first_message noticed)
unfolding lookup lookup_or insert remove keep_if sweep_values is_space trim_left trim_right
    trim_space has_dot before_dot lower_char to_lower digit digits format_int format_padded
    normalize_agents normalize_control_plane_agents require_hashes require_identities positive_or
    limit_or mode_or_compat legacy_scope_or_ucla complete new_config valid_scope prefix_scope
    scope_of_name normalize_scopes_loop normalize_scopes normalize_grants_loop
    normalize_shared_grants is_configured_control_plane_agent is_control_plane_agent
    agent_allowed_scopes accepts_name agent_has_scope is_granted agent_shared_grants
    agent_has_shared_grant new_store seconds add_duration authorize_scope authorize_agent_for_name
    authorize_send_target agent_can_access_name can_access_all actor_can_access_all_names
    actor_can_access_conversation authorize_all authorize_actor_for_names inbox_event_size
    over_count evict evict_count drop_count drop_inbox_prefix append_inbox observe_event_size
    trim_observe publish enqueue_push_job conversation_id merge_loop merge_participants create_new
    reuse open_conversation ensure_conversation check_participants forget_keys expire_agent
    expire_agents verdict message_event announce sweep_message sweep_messages sweep_due sweep
    prunes_message prune_messages any_live prunes_conversation prune_conversations prune_agents
    prune_idle prune_expired prune normalize_build_info trim_all normalize_agent_meta check_secret
    parse_mode check_registration ttl_or new_agent open_inbox add_agent register_locked
    register_agent message_id push_job_for install publish_message schedule_push dedupe_key
    parse_message_type check_send route earlier answer_again join_conversation choose_conversation
    check_grace new_message count_message plan plan_send accept send_new send_once send_locked
    send_message put_message check_ack ack_target acked finish_ack ack_to ack_locked ack
    parse_event_kind check_event event_target advanced publish_event post_to post_locked post_event
    check_poll clamp_wait clamp_between limit_events may_poll answer_from read_inbox poll_round
    event_matches_filter past_at search_loop sort_search events_since status_for_code
    retry_after_seconds new_error check_inject injected injected_conversation place_at place
    stamp_terminal plan_inject accept_injection inject_locked inject
noticed_test = refl

returned_test : lookup "m-000001" returned.messages ≡ some (first_message returned)
unfolding lookup lookup_or insert remove keep_if sweep_values is_space trim_left trim_right
    trim_space has_dot before_dot lower_char to_lower digit digits format_int format_padded
    normalize_agents normalize_control_plane_agents require_hashes require_identities positive_or
    limit_or mode_or_compat legacy_scope_or_ucla complete new_config valid_scope prefix_scope
    scope_of_name normalize_scopes_loop normalize_scopes normalize_grants_loop
    normalize_shared_grants is_configured_control_plane_agent is_control_plane_agent
    agent_allowed_scopes accepts_name agent_has_scope is_granted agent_shared_grants
    agent_has_shared_grant new_store seconds add_duration authorize_scope authorize_agent_for_name
    authorize_send_target agent_can_access_name can_access_all actor_can_access_all_names
    actor_can_access_conversation authorize_all authorize_actor_for_names inbox_event_size
    over_count evict evict_count drop_count drop_inbox_prefix append_inbox observe_event_size
    trim_observe publish enqueue_push_job conversation_id merge_loop merge_participants create_new
    reuse open_conversation ensure_conversation check_participants forget_keys expire_agent
    expire_agents verdict message_event announce sweep_message sweep_messages sweep_due sweep
    prunes_message prune_messages any_live prunes_conversation prune_conversations prune_agents
    prune_idle prune_expired prune normalize_build_info trim_all normalize_agent_meta check_secret
    parse_mode check_registration ttl_or new_agent open_inbox add_agent register_locked
    register_agent message_id push_job_for install publish_message schedule_push dedupe_key
    parse_message_type check_send route earlier answer_again join_conversation choose_conversation
    check_grace new_message count_message plan plan_send accept send_new send_once send_locked
    send_message put_message check_ack ack_target acked finish_ack ack_to ack_locked ack
    parse_event_kind check_event event_target advanced publish_event post_to post_locked post_event
    check_poll clamp_wait clamp_between limit_events may_poll answer_from read_inbox poll_round
    event_matches_filter past_at search_loop sort_search events_since status_for_code
    retry_after_seconds new_error check_inject injected injected_conversation place_at place
    stamp_terminal plan_inject accept_injection inject_locked inject
returned_test = refl

queued_test :
    (is_request (first_message noticed).type ≡ false)
    × ((first_message noticed).state ≡ pending)
    × ((first_message noticed).queued_for_agent ≡ true)
unfolding lookup lookup_or insert remove keep_if sweep_values is_space trim_left trim_right
    trim_space has_dot before_dot lower_char to_lower digit digits format_int format_padded
    normalize_agents normalize_control_plane_agents require_hashes require_identities positive_or
    limit_or mode_or_compat legacy_scope_or_ucla complete new_config valid_scope prefix_scope
    scope_of_name normalize_scopes_loop normalize_scopes normalize_grants_loop
    normalize_shared_grants is_configured_control_plane_agent is_control_plane_agent
    agent_allowed_scopes accepts_name agent_has_scope is_granted agent_shared_grants
    agent_has_shared_grant new_store seconds add_duration authorize_scope authorize_agent_for_name
    authorize_send_target agent_can_access_name can_access_all actor_can_access_all_names
    actor_can_access_conversation authorize_all authorize_actor_for_names inbox_event_size
    over_count evict evict_count drop_count drop_inbox_prefix append_inbox observe_event_size
    trim_observe publish enqueue_push_job conversation_id merge_loop merge_participants create_new
    reuse open_conversation ensure_conversation check_participants forget_keys expire_agent
    expire_agents verdict message_event announce sweep_message sweep_messages sweep_due sweep
    prunes_message prune_messages any_live prunes_conversation prune_conversations prune_agents
    prune_idle prune_expired prune normalize_build_info trim_all normalize_agent_meta check_secret
    parse_mode check_registration ttl_or new_agent open_inbox add_agent register_locked
    register_agent message_id push_job_for install publish_message schedule_push dedupe_key
    parse_message_type check_send route earlier answer_again join_conversation choose_conversation
    check_grace new_message count_message plan plan_send accept send_new send_once send_locked
    send_message put_message check_ack ack_target acked finish_ack ack_to ack_locked ack
    parse_event_kind check_event event_target advanced publish_event post_to post_locked post_event
    check_poll clamp_wait clamp_between limit_events may_poll answer_from read_inbox poll_round
    event_matches_filter past_at search_loop sort_search events_since status_for_code
    retry_after_seconds new_error check_inject injected injected_conversation place_at place
    stamp_terminal plan_inject accept_injection inject_locked inject
queued_test = (refl, refl, refl)

only_requests_change_example : first_message returned ≡ first_message noticed
only_requests_change_example =
    only_requests_change cfg env [] "epoch-1" noticed returned "m-000001" (first_message noticed)
      (first_message returned) run_noticed noticed_test queued_test.0 run_returned returned_test

asked_test : lookup "m-000001" asked.messages ≡ some sent_message
unfolding lookup lookup_or insert remove keep_if sweep_values is_space trim_left trim_right
    trim_space has_dot before_dot lower_char to_lower digit digits format_int format_padded
    normalize_agents normalize_control_plane_agents require_hashes require_identities positive_or
    limit_or mode_or_compat legacy_scope_or_ucla complete new_config valid_scope prefix_scope
    scope_of_name normalize_scopes_loop normalize_scopes normalize_grants_loop
    normalize_shared_grants is_configured_control_plane_agent is_control_plane_agent
    agent_allowed_scopes accepts_name agent_has_scope is_granted agent_shared_grants
    agent_has_shared_grant new_store seconds add_duration authorize_scope authorize_agent_for_name
    authorize_send_target agent_can_access_name can_access_all actor_can_access_all_names
    actor_can_access_conversation authorize_all authorize_actor_for_names inbox_event_size
    over_count evict evict_count drop_count drop_inbox_prefix append_inbox observe_event_size
    trim_observe publish enqueue_push_job conversation_id merge_loop merge_participants create_new
    reuse open_conversation ensure_conversation check_participants forget_keys expire_agent
    expire_agents verdict message_event announce sweep_message sweep_messages sweep_due sweep
    prunes_message prune_messages any_live prunes_conversation prune_conversations prune_agents
    prune_idle prune_expired prune normalize_build_info trim_all normalize_agent_meta check_secret
    parse_mode check_registration ttl_or new_agent open_inbox add_agent register_locked
    register_agent message_id push_job_for install publish_message schedule_push dedupe_key
    parse_message_type check_send route earlier answer_again join_conversation choose_conversation
    check_grace new_message count_message plan plan_send accept send_new send_once send_locked
    send_message put_message check_ack ack_target acked finish_ack ack_to ack_locked ack
    parse_event_kind check_event event_target advanced publish_event post_to post_locked post_event
    check_poll clamp_wait clamp_between limit_events may_poll answer_from read_inbox poll_round
    event_matches_filter past_at search_loop sort_search events_since status_for_code
    retry_after_seconds new_error check_inject injected injected_conversation place_at place
    stamp_terminal plan_inject accept_injection inject_locked inject
asked_test = refl

abbrev step : EventInput
step = record answer { type = "progress" }

reports-Follows_example :
    Follows "m-000001" sent_message (ack_locked start_time acceptance no_barrier asked).1
    × Follows "m-000001" sent_message (post_locked start_time step progress no_barrier asked).1
reports-Follows_example =
    reports-Follows start_time acceptance step progress no_barrier asked "m-000001" sent_message
      asked_test

asked-Sound : Sound asked
asked-Sound = reachable-Sound cfg env [] "epoch-1" asked run_asked

abbrev read_once : Store
read_once = (read_inbox "ucla.b" (pos 0) (pos 0) no_advance asked).1

abbrev grown : Store
grown = append_all "ucla.b" (incoming ∷ []) read_once

abbrev read_twice : Store
read_twice = (read_inbox "ucla.b" (pos 1) (pos 0) no_advance grown).1

read_test : (read_inbox "ucla.b" (pos 0) (pos 0) no_advance asked).0 ≡ ok (sent_event ∷ [], 1)
unfolding lookup lookup_or insert remove keep_if sweep_values is_space trim_left trim_right
    trim_space has_dot before_dot lower_char to_lower digit digits format_int format_padded
    normalize_agents normalize_control_plane_agents require_hashes require_identities positive_or
    limit_or mode_or_compat legacy_scope_or_ucla complete new_config valid_scope prefix_scope
    scope_of_name normalize_scopes_loop normalize_scopes normalize_grants_loop
    normalize_shared_grants is_configured_control_plane_agent is_control_plane_agent
    agent_allowed_scopes accepts_name agent_has_scope is_granted agent_shared_grants
    agent_has_shared_grant new_store seconds add_duration authorize_scope authorize_agent_for_name
    authorize_send_target agent_can_access_name can_access_all actor_can_access_all_names
    actor_can_access_conversation authorize_all authorize_actor_for_names inbox_event_size
    over_count evict evict_count drop_count drop_inbox_prefix append_inbox observe_event_size
    trim_observe publish enqueue_push_job conversation_id merge_loop merge_participants create_new
    reuse open_conversation ensure_conversation check_participants forget_keys expire_agent
    expire_agents verdict message_event announce sweep_message sweep_messages sweep_due sweep
    prunes_message prune_messages any_live prunes_conversation prune_conversations prune_agents
    prune_idle prune_expired prune normalize_build_info trim_all normalize_agent_meta check_secret
    parse_mode check_registration ttl_or new_agent open_inbox add_agent register_locked
    register_agent message_id push_job_for install publish_message schedule_push dedupe_key
    parse_message_type check_send route earlier answer_again join_conversation choose_conversation
    check_grace new_message count_message plan plan_send accept send_new send_once send_locked
    send_message put_message check_ack ack_target acked finish_ack ack_to ack_locked ack
    parse_event_kind check_event event_target advanced publish_event post_to post_locked post_event
    check_poll clamp_wait clamp_between limit_events may_poll answer_from read_inbox poll_round
    event_matches_filter past_at search_loop sort_search events_since status_for_code
    retry_after_seconds new_error check_inject injected injected_conversation place_at place
    stamp_terminal plan_inject accept_injection inject_locked inject
read_test = refl

read_again_test :
    ((read_inbox "ucla.b" (pos 1) (pos 0) no_advance grown).0 ≡ ok (incoming ∷ [], 2))
    × (base_of "ucla.b" grown ≤ 1)
unfolding lookup lookup_or insert remove keep_if sweep_values is_space trim_left trim_right
    trim_space has_dot before_dot lower_char to_lower digit digits format_int format_padded
    normalize_agents normalize_control_plane_agents require_hashes require_identities positive_or
    limit_or mode_or_compat legacy_scope_or_ucla complete new_config valid_scope prefix_scope
    scope_of_name normalize_scopes_loop normalize_scopes normalize_grants_loop
    normalize_shared_grants is_configured_control_plane_agent is_control_plane_agent
    agent_allowed_scopes accepts_name agent_has_scope is_granted agent_shared_grants
    agent_has_shared_grant new_store seconds add_duration authorize_scope authorize_agent_for_name
    authorize_send_target agent_can_access_name can_access_all actor_can_access_all_names
    actor_can_access_conversation authorize_all authorize_actor_for_names inbox_event_size
    over_count evict evict_count drop_count drop_inbox_prefix append_inbox observe_event_size
    trim_observe publish enqueue_push_job conversation_id merge_loop merge_participants create_new
    reuse open_conversation ensure_conversation check_participants forget_keys expire_agent
    expire_agents verdict message_event announce sweep_message sweep_messages sweep_due sweep
    prunes_message prune_messages any_live prunes_conversation prune_conversations prune_agents
    prune_idle prune_expired prune normalize_build_info trim_all normalize_agent_meta check_secret
    parse_mode check_registration ttl_or new_agent open_inbox add_agent register_locked
    register_agent message_id push_job_for install publish_message schedule_push dedupe_key
    parse_message_type check_send route earlier answer_again join_conversation choose_conversation
    check_grace new_message count_message plan plan_send accept send_new send_once send_locked
    send_message put_message check_ack ack_target acked finish_ack ack_to ack_locked ack
    parse_event_kind check_event event_target advanced publish_event post_to post_locked post_event
    check_poll clamp_wait clamp_between limit_events may_poll answer_from read_inbox poll_round
    event_matches_filter past_at search_loop sort_search events_since status_for_code
    retry_after_seconds new_error check_inject injected injected_conversation place_at place
    stamp_terminal plan_inject accept_injection inject_locked inject
read_again_test = (refl, omega arith)

polls_join_example :
    (events_of "ucla.b" read_once ++ incoming ∷ []
      ≡ (sent_event ∷ []) ++ events_of "ucla.b" read_twice)
    × (incoming ∷ [] ≡ take (length (incoming ∷ [])) (events_of "ucla.b" read_twice))
    × (base_of "ucla.b" read_twice ≡ 1)
    × (2 ≡ 1 + length (incoming ∷ []))
polls_join_example =
    polls_join "ucla.b" (pos 0) (pos 0) (pos 0) no_advance no_advance asked grown (sent_event ∷ [])
      (incoming ∷ []) (incoming ∷ []) 1 2 asked-Sound.holds.0 read_test refl refl read_again_test.1
      read_again_test.0
