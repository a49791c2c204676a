-- ===== src/Tests/Runs.antt =====
-- The invariant and the end of a message at a concrete run.
use pinakes.Base.Dict.{lookup, lookup_or, insert, remove, keep_if, sweep_values}
use pinakes.Text.{
  is_space, trim_left, trim_right, trim_space, has_dot, before_dot, lower_char, to_lower,
}
use pinakes.Text.Decimal.{digit, digits, format_int, format_padded}
use pinakes.Config.{
  normalize_agents, normalize_control_plane_agents, require_hashes, require_identities, positive_or,
  limit_or, mode_or_compat, legacy_scope_or_ucla, complete, new_config,
}
use pinakes.Scope.{
  valid_scope, prefix_scope, scope_of_name, normalize_scopes_loop, normalize_scopes,
  normalize_grants_loop, normalize_shared_grants, is_configured_control_plane_agent,
  is_control_plane_agent, agent_allowed_scopes, accepts_name, agent_has_scope, is_granted,
  agent_shared_grants, agent_has_shared_grant,
}
use pinakes.Store.{new_store, seconds, add_duration}
use pinakes.Store.Access.{
  authorize_scope, authorize_agent_for_name, authorize_send_target, agent_can_access_name,
  can_access_all, actor_can_access_all_names, actor_can_access_conversation, authorize_all,
  authorize_actor_for_names,
}
use pinakes.Store.Inbox.{
  inbox_event_size, over_count, evict, evict_count, drop_count, drop_inbox_prefix, append_inbox,
}
use pinakes.Store.Observe.{observe_event_size, trim_observe, publish}
use pinakes.Store.Push.{enqueue_push_job}
use pinakes.Store.Conversations.{
  conversation_id, merge_loop, merge_participants, create_new, reuse, open_conversation,
  ensure_conversation, check_participants,
}
use pinakes.Store.Sweep.{
  forget_keys, expire_agent, expire_agents, verdict, message_event, announce, sweep_message,
  sweep_messages, sweep_due, sweep,
}
use pinakes.Store.Sweep.Prune.{
  prunes_message, prune_messages, any_live, prunes_conversation, prune_conversations, prune_agents,
  prune_idle, prune_expired, prune,
}
use pinakes.Store.Register.{
  normalize_build_info, trim_all, normalize_agent_meta, check_secret, parse_mode,
  check_registration, ttl_or, new_agent, open_inbox, add_agent, register_locked, register_agent,
}
use pinakes.Store.Acceptance.{message_id, push_job_for, install, publish_message, schedule_push}
use pinakes.Store.Send.{
  dedupe_key, parse_message_type, check_send, route, earlier, answer_again, join_conversation,
  choose_conversation, check_grace, new_message, count_message, plan, plan_send, accept, send_new,
  send_once, send_locked, send_message,
}
use pinakes.Store.Lifecycle.{
  put_message, check_ack, ack_target, acked, finish_ack, ack_to, ack_locked, ack, parse_event_kind,
  check_event, event_target, advanced, publish_event, post_to, post_locked, post_event,
}
use pinakes.Store.Poll.{
  check_poll, clamp_wait, clamp_between, limit_events, may_poll, answer_from, read_inbox,
  poll_round,
}
use pinakes.Store.Observing.{event_matches_filter, past_at, search_loop, sort_search, events_since}
use pinakes.Errors.{status_for_code, retry_after_seconds, new_error}
use pinakes.Base.{◌≡◌, refl, [], some}
use pinakes.Store.Sound.Operations.{Sound}
use pinakes.Store.Sound.Reach.{reachable-Sound}
use pinakes.Store.Sound.Final.{ended_is_final}
use pinakes.Tests.Data.{
  cfg, env, asked, answered, final_message, run_answered, swept, run_swept, run_asked,
}

reachable-Sound_example : Sound answered
reachable-Sound_example = reachable-Sound cfg env [] "epoch-1" answered run_answered

answered_test : lookup "m-000001" answered.messages ≡ some final_message
unfolding lookup lookup_or insert remove keep_if sweep_values is_space trim_left trim_right
    trim_space has_dot before_dot lower_char to_lower digit digits format_int format_padded
    normalize_agents normalize_control_plane_agents require_hashes require_identities positive_or
    limit_or mode_or_compat legacy_scope_or_ucla complete new_config valid_scope prefix_scope
    scope_of_name normalize_scopes_loop normalize_scopes normalize_grants_loop
    normalize_shared_grants is_configured_control_plane_agent is_control_plane_agent
    agent_allowed_scopes accepts_name agent_has_scope is_granted agent_shared_grants
    agent_has_shared_grant new_store seconds add_duration authorize_scope authorize_agent_for_name
    authorize_send_target agent_can_access_name can_access_all actor_can_access_all_names
    actor_can_access_conversation authorize_all authorize_actor_for_names inbox_event_size
    over_count evict evict_count drop_count drop_inbox_prefix append_inbox observe_event_size
    trim_observe publish enqueue_push_job conversation_id merge_loop merge_participants create_new
    reuse open_conversation ensure_conversation check_participants forget_keys expire_agent
    expire_agents verdict message_event announce sweep_message sweep_messages sweep_due sweep
    prunes_message prune_messages any_live prunes_conversation prune_conversations prune_agents
    prune_idle prune_expired prune normalize_build_info trim_all normalize_agent_meta check_secret
    parse_mode check_registration ttl_or new_agent open_inbox add_agent register_locked
    register_agent message_id push_job_for install publish_message schedule_push dedupe_key
    parse_message_type check_send route earlier answer_again join_conversation choose_conversation
    check_grace new_message count_message plan plan_send accept send_new send_once send_locked
    send_message put_message check_ack ack_target acked finish_ack ack_to ack_locked ack
    parse_event_kind check_event event_target advanced publish_event post_to post_locked post_event
    check_poll clamp_wait clamp_between limit_events may_poll answer_from read_inbox poll_round
    event_matches_filter past_at search_loop sort_search events_since status_for_code
    retry_after_seconds new_error
answered_test = refl

swept_test : lookup "m-000001" swept.messages ≡ some final_message
unfolding lookup lookup_or insert remove keep_if sweep_values is_space trim_left trim_right
    trim_space has_dot before_dot lower_char to_lower digit digits format_int format_padded
    normalize_agents normalize_control_plane_agents require_hashes require_identities positive_or
    limit_or mode_or_compat legacy_scope_or_ucla complete new_config valid_scope prefix_scope
    scope_of_name normalize_scopes_loop normalize_scopes normalize_grants_loop
    normalize_shared_grants is_configured_control_plane_agent is_control_plane_agent
    agent_allowed_scopes accepts_name agent_has_scope is_granted agent_shared_grants
    agent_has_shared_grant new_store seconds add_duration authorize_scope authorize_agent_for_name
    authorize_send_target agent_can_access_name can_access_all actor_can_access_all_names
    actor_can_access_conversation authorize_all authorize_actor_for_names inbox_event_size
    over_count evict evict_count drop_count drop_inbox_prefix append_inbox observe_event_size
    trim_observe publish enqueue_push_job conversation_id merge_loop merge_participants create_new
    reuse open_conversation ensure_conversation check_participants forget_keys expire_agent
    expire_agents verdict message_event announce sweep_message sweep_messages sweep_due sweep
    prunes_message prune_messages any_live prunes_conversation prune_conversations prune_agents
    prune_idle prune_expired prune normalize_build_info trim_all normalize_agent_meta check_secret
    parse_mode check_registration ttl_or new_agent open_inbox add_agent register_locked
    register_agent message_id push_job_for install publish_message schedule_push dedupe_key
    parse_message_type check_send route earlier answer_again join_conversation choose_conversation
    check_grace new_message count_message plan plan_send accept send_new send_once send_locked
    send_message put_message check_ack ack_target acked finish_ack ack_to ack_locked ack
    parse_event_kind check_event event_target advanced publish_event post_to post_locked post_event
    check_poll clamp_wait clamp_between limit_events may_poll answer_from read_inbox poll_round
    event_matches_filter past_at search_loop sort_search events_since status_for_code
    retry_after_seconds new_error
swept_test = refl

ended_is_final_example : final_message ≡ final_message
ended_is_final_example =
    ended_is_final cfg env [] "epoch-1" answered swept "m-000001" final_message final_message
      run_answered answered_test refl run_swept swept_test

asked-Sound : Sound asked
asked-Sound = reachable-Sound cfg env [] "epoch-1" asked run_asked
