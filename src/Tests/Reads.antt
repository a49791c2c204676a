-- ===== src/Tests/Reads.antt =====
-- Polls, inboxes and the observe ring at concrete inputs.
use pinakes.Base.Dict.{lookup, lookup_or, insert, remove, keep_if, sweep_values}
use pinakes.Text.{
  is_space, trim_left, trim_right, trim_space, has_dot, before_dot, lower_char, to_lower,
}
use pinakes.Text.Decimal.{digit, digits, format_int, format_padded}
use pinakes.Config.{
  normalize_agents, normalize_control_plane_agents, require_hashes, require_identities, positive_or,
  limit_or, mode_or_compat, legacy_scope_or_ucla, complete, new_config,
}
use pinakes.Scope.{
  valid_scope, prefix_scope, scope_of_name, normalize_scopes_loop, normalize_scopes,
  normalize_grants_loop, normalize_shared_grants, is_configured_control_plane_agent,
  is_control_plane_agent, agent_allowed_scopes, accepts_name, agent_has_scope, is_granted,
  agent_shared_grants, agent_has_shared_grant,
}
use pinakes.Store.{new_store, seconds, add_duration}
use pinakes.Store.Access.{
  authorize_scope, authorize_agent_for_name, authorize_send_target, agent_can_access_name,
  can_access_all, actor_can_access_all_names, actor_can_access_conversation, authorize_all,
  authorize_actor_for_names,
}
use pinakes.Store.Inbox.{
  inbox_event_size, over_count, evict, evict_count, drop_count, drop_inbox_prefix, append_inbox,
}
use pinakes.Store.Observe.{observe_event_size, trim_observe, publish}
use pinakes.Store.Push.{enqueue_push_job}
use pinakes.Store.Conversations.{
  conversation_id, merge_loop, merge_participants, create_new, reuse, open_conversation,
  ensure_conversation, check_participants,
}
use pinakes.Store.Sweep.{
  forget_keys, expire_agent, expire_agents, verdict, message_event, announce, sweep_message,
  sweep_messages, sweep_due, sweep,
}
use pinakes.Store.Sweep.Prune.{
  prunes_message, prune_messages, any_live, prunes_conversation, prune_conversations, prune_agents,
  prune_idle, prune_expired, prune,
}
use pinakes.Store.Register.{
  normalize_build_info, trim_all, normalize_agent_meta, check_secret, parse_mode,
  check_registration, ttl_or, new_agent, open_inbox, add_agent, register_locked, register_agent,
}
use pinakes.Store.Acceptance.{message_id, push_job_for, install, publish_message, schedule_push}
use pinakes.Store.Send.{
  dedupe_key, parse_message_type, check_send, route, earlier, answer_again, join_conversation,
  choose_conversation, check_grace, new_message, count_message, plan, plan_send, accept, send_new,
  send_once, send_locked, send_message,
}
use pinakes.Store.Lifecycle.{
  put_message, check_ack, ack_target, acked, finish_ack, ack_to, ack_locked, ack, parse_event_kind,
  check_event, event_target, advanced, publish_event, post_to, post_locked, post_event,
}
use pinakes.Store.Poll.{
  check_poll, clamp_wait, clamp_between, limit_events, may_poll, answer_from, read_inbox,
  poll_round,
}
use pinakes.Store.Observing.{event_matches_filter, past_at, search_loop, sort_search, events_since}
use pinakes.Errors.{status_for_code, retry_after_seconds, new_error}
use pinakes.Base.{ℕ, ◌+◌, ◌-◌, ◌<◌, ◌≡◌, refl, ◌&&◌, [], ◌∷◌, ◌++◌, select, drop, ltb, length}
use pinakes.Base.Int.{pos}
use pinakes.Types.{agent_expired}
use pinakes.Errors.{ok, err}
use pinakes.Store.Inbox.Budget.{Fits}
use pinakes.Store.Inbox.Laws.{
  Appends, end_of, events_of, base_of, append_inbox-window, append_inbox-Fits,
}
use pinakes.Store.Observe.{event_size}
use pinakes.Store.Observe.Laws.{made, publish-Fits}
use pinakes.Store.Observing.{last_id}
use pinakes.Store.Observing.Laws.{events_since-eq_select, events_since_once}
use pinakes.Store.Sound.Operations.{Sound}
use pinakes.Store.Sound.Reach.{reachable-Sound}
use pinakes.Store.Poll.Laws.{Reads, read_inbox-Reads, poll_refused}
use pinakes.Tests.Data.{
  cfg, env, start_time, asked, incoming, sent_event, run_asked, no_advance, whole_ring, denied,
}

asked-Sound : Sound asked
asked-Sound = reachable-Sound cfg env [] "epoch-1" asked run_asked

read_test : (read_inbox "ucla.b" (pos 0) (pos 0) no_advance asked).0 ≡ ok (sent_event ∷ [], 1)
unfolding lookup lookup_or insert remove keep_if sweep_values is_space trim_left trim_right
    trim_space has_dot before_dot lower_char to_lower digit digits format_int format_padded
    normalize_agents normalize_control_plane_agents require_hashes require_identities positive_or
    limit_or mode_or_compat legacy_scope_or_ucla complete new_config valid_scope prefix_scope
    scope_of_name normalize_scopes_loop normalize_scopes normalize_grants_loop
    normalize_shared_grants is_configured_control_plane_agent is_control_plane_agent
    agent_allowed_scopes accepts_name agent_has_scope is_granted agent_shared_grants
    agent_has_shared_grant new_store seconds add_duration authorize_scope authorize_agent_for_name
    authorize_send_target agent_can_access_name can_access_all actor_can_access_all_names
    actor_can_access_conversation authorize_all authorize_actor_for_names inbox_event_size
    over_count evict evict_count drop_count drop_inbox_prefix append_inbox observe_event_size
    trim_observe publish enqueue_push_job conversation_id merge_loop merge_participants create_new
    reuse open_conversation ensure_conversation check_participants forget_keys expire_agent
    expire_agents verdict message_event announce sweep_message sweep_messages sweep_due sweep
    prunes_message prune_messages any_live prunes_conversation prune_conversations prune_agents
    prune_idle prune_expired prune normalize_build_info trim_all normalize_agent_meta check_secret
    parse_mode check_registration ttl_or new_agent open_inbox add_agent register_locked
    register_agent message_id push_job_for install publish_message schedule_push dedupe_key
    parse_message_type check_send route earlier answer_again join_conversation choose_conversation
    check_grace new_message count_message plan plan_send accept send_new send_once send_locked
    send_message put_message check_ack ack_target acked finish_ack ack_to ack_locked ack
    parse_event_kind check_event event_target advanced publish_event post_to post_locked post_event
    check_poll clamp_wait clamp_between limit_events may_poll answer_from read_inbox poll_round
    event_matches_filter past_at search_loop sort_search events_since status_for_code
    retry_after_seconds new_error
read_test = refl

read_inbox-Reads_example :
    Reads "ucla.b"
      (pos 0)
      (pos 0)
      (sent_event ∷ [])
      1
      asked
      (read_inbox "ucla.b" (pos 0) (pos 0) no_advance asked).1
read_inbox-Reads_example =
    read_inbox-Reads "ucla.b" (pos 0) (pos 0) no_advance asked (sent_event ∷ []) 1 read_test

stranger_test :
    (poll_round start_time "ucla.c" (pos 0) (pos 0) no_advance asked).0
    ≡ err (denied "agent is not registered/active")
unfolding lookup lookup_or insert remove keep_if sweep_values is_space trim_left trim_right
    trim_space has_dot before_dot lower_char to_lower digit digits format_int format_padded
    normalize_agents normalize_control_plane_agents require_hashes require_identities positive_or
    limit_or mode_or_compat legacy_scope_or_ucla complete new_config valid_scope prefix_scope
    scope_of_name normalize_scopes_loop normalize_scopes normalize_grants_loop
    normalize_shared_grants is_configured_control_plane_agent is_control_plane_agent
    agent_allowed_scopes accepts_name agent_has_scope is_granted agent_shared_grants
    agent_has_shared_grant new_store seconds add_duration authorize_scope authorize_agent_for_name
    authorize_send_target agent_can_access_name can_access_all actor_can_access_all_names
    actor_can_access_conversation authorize_all authorize_actor_for_names inbox_event_size
    over_count evict evict_count drop_count drop_inbox_prefix append_inbox observe_event_size
    trim_observe publish enqueue_push_job conversation_id merge_loop merge_participants create_new
    reuse open_conversation ensure_conversation check_participants forget_keys expire_agent
    expire_agents verdict message_event announce sweep_message sweep_messages sweep_due sweep
    prunes_message prune_messages any_live prunes_conversation prune_conversations prune_agents
    prune_idle prune_expired prune normalize_build_info trim_all normalize_agent_meta check_secret
    parse_mode check_registration ttl_or new_agent open_inbox add_agent register_locked
    register_agent message_id push_job_for install publish_message schedule_push dedupe_key
    parse_message_type check_send route earlier answer_again join_conversation choose_conversation
    check_grace new_message count_message plan plan_send accept send_new send_once send_locked
    send_message put_message check_ack ack_target acked finish_ack ack_to ack_locked ack
    parse_event_kind check_event event_target advanced publish_event post_to post_locked post_event
    check_poll clamp_wait clamp_between limit_events may_poll answer_from read_inbox poll_round
    event_matches_filter past_at search_loop sort_search events_since status_for_code
    retry_after_seconds new_error
stranger_test = refl

poll_refused_example :
    (poll_round start_time "ucla.c" (pos 0) (pos 0) no_advance asked).1 ≡ sweep start_time asked
poll_refused_example =
    poll_refused start_time "ucla.c" (pos 0) (pos 0) no_advance asked
      (denied "agent is not registered/active") stranger_test

append_inbox-window_example :
    (n : ℕ) × Appends "ucla.b" incoming n asked (append_inbox "ucla.b" incoming asked)
    × (end_of "ucla.b" (append_inbox "ucla.b" incoming asked) ≡ end_of "ucla.b" asked + 1)
append_inbox-window_example = append_inbox-window "ucla.b" incoming asked asked-Sound.holds.0

append_inbox-Fits_example :
    let t = append_inbox "ucla.b" incoming asked in
    let fits =
      Fits inbox_event_size asked.cfg.max_inbox_events_per_agent
        asked.cfg.max_inbox_bytes_per_agent in
    let gone = base_of "ucla.b" t - base_of "ucla.b" asked in
    fits (events_of "ucla.b" t)
    × (events_of "ucla.b" t ≡ drop gone (events_of "ucla.b" asked ++ incoming ∷ []))
    × ((j : ℕ) → j < gone → ¬ fits (drop j (events_of "ucla.b" asked ++ incoming ∷ [])))
append_inbox-Fits_example = append_inbox-Fits "ucla.b" incoming asked asked-Sound.holds.0

publish-Fits_example :
    let fits = Fits event_size asked.cfg.max_observe_events asked.cfg.max_observe_bytes in
    let content = agent_expired "ucla.a" start_time in
    let all = asked.observe_events ++ made content "" ("ucla.a" ∷ []) start_time asked ∷ [] in
    let left = (publish content "" ("ucla.a" ∷ []) start_time asked).observe_events in
    fits left
    × (left ≡ drop (length all - length left) all)
    × ((j : ℕ) → j < length all - length left → ¬ fits (drop j all))
publish-Fits_example =
    publish-Fits (agent_expired "ucla.a" start_time) "" ("ucla.a" ∷ []) start_time asked
      asked-Sound.holds.1

events_since-eq_select_example :
    events_since asked 1 whole_ring
    ≡ select (λ e. ltb 1 e.id && event_matches_filter asked.cfg whole_ring e) asked.observe_events
events_since-eq_select_example = events_since-eq_select asked 1 whole_ring asked-Sound.holds.1

events_since_once_example :
    events_since asked (last_id 1 (events_since asked 1 whole_ring)) whole_ring ≡ []
events_since_once_example = events_since_once asked 1 whole_ring asked-Sound.holds.1
