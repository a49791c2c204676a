-- ===== src/Tests/Rules.antt =====
-- Access, configuration, sweep and printing at concrete inputs.
use pinakes.Base.Dict.{lookup, lookup_or, insert, remove, keep_if, sweep_values}
use pinakes.Text.{
  is_space, trim_left, trim_right, trim_space, has_dot, before_dot, lower_char, to_lower,
}
use pinakes.Text.Decimal.{digit, digits, format_int, format_padded}
use pinakes.Config.{
  normalize_agents, normalize_control_plane_agents, require_hashes, require_identities, positive_or,
  limit_or, mode_or_compat, legacy_scope_or_ucla, complete, new_config,
}
use pinakes.Scope.{
  valid_scope, prefix_scope, scope_of_name, normalize_scopes_loop, normalize_scopes,
  normalize_grants_loop, normalize_shared_grants, is_configured_control_plane_agent,
  is_control_plane_agent, agent_allowed_scopes, accepts_name, agent_has_scope, is_granted,
  agent_shared_grants, agent_has_shared_grant,
}
use pinakes.Store.{new_store, seconds, add_duration}
use pinakes.Store.Access.{
  authorize_scope, authorize_agent_for_name, authorize_send_target, agent_can_access_name,
  can_access_all, actor_can_access_all_names, actor_can_access_conversation, authorize_all,
  authorize_actor_for_names,
}
use pinakes.Store.Inbox.{
  inbox_event_size, over_count, evict, evict_count, drop_count, drop_inbox_prefix, append_inbox,
}
use pinakes.Store.Observe.{observe_event_size, trim_observe, publish}
use pinakes.Store.Push.{enqueue_push_job}
use pinakes.Store.Conversations.{
  conversation_id, merge_loop, merge_participants, create_new, reuse, open_conversation,
  ensure_conversation, check_participants,
}
use pinakes.Store.Sweep.{
  forget_keys, expire_agent, expire_agents, verdict, message_event, announce, sweep_message,
  sweep_messages, sweep_due, sweep,
}
use pinakes.Store.Sweep.Prune.{
  prunes_message, prune_messages, any_live, prunes_conversation, prune_conversations, prune_agents,
  prune_idle, prune_expired, prune,
}
use pinakes.Store.Register.{
  normalize_build_info, trim_all, normalize_agent_meta, check_secret, parse_mode,
  check_registration, ttl_or, new_agent, open_inbox, add_agent, register_locked, register_agent,
}
use pinakes.Store.Acceptance.{message_id, push_job_for, install, publish_message, schedule_push}
use pinakes.Store.Send.{
  dedupe_key, parse_message_type, check_send, route, earlier, answer_again, join_conversation,
  choose_conversation, check_grace, new_message, count_message, plan, plan_send, accept, send_new,
  send_once, send_locked, send_message,
}
use pinakes.Store.Lifecycle.{
  put_message, check_ack, ack_target, acked, finish_ack, ack_to, ack_locked, ack, parse_event_kind,
  check_event, event_target, advanced, publish_event, post_to, post_locked, post_event,
}
use pinakes.Store.Poll.{
  check_poll, clamp_wait, clamp_between, limit_events, may_poll, answer_from, read_inbox,
  poll_round,
}
use pinakes.Store.Observing.{event_matches_filter, past_at, search_loop, sort_search, events_since}
use pinakes.Errors.{status_for_code, retry_after_seconds, new_error}
use pinakes.Base.{
  ℕ, ◌+◌, ◌*◌, ◌<◌, ◌≤◌, ◌≡◌, refl, ◌⊎◌, ◌↔◌, String, true, false, List, [], ◌∷◌, ◌++◌, some, All,
}
use text.Mathlib.Text.{◌==◌}
use pinakes.Types.{waiting, Agent, error}
use pinakes.Errors.{ok}
use pinakes.Config.{valid}
use pinakes.Config.Laws.{IsComplete, new_config-IsComplete}
use pinakes.Store.Status.{is_request, is_terminal, is_active}
use pinakes.Store.Access.Laws.{IsOpen, authorize_agent_for_name_iff, authorize_actor_for_names_iff}
use pinakes.Store.Conversations.Laws.{IsIn, merge_participants_lem}
use pinakes.Types.{Conversation, nil}
use pinakes.Base.{map}
use pinakes.Store.Sweep.Kept.{live_conversation_stays}
use pinakes.Store.Sweep.{deliver, settle}
use pinakes.Store.Sweep.Laws.{
  deliver_only_queued, ended_past_deadline, has_active, prunes_message_lem,
}
use pinakes.Tests.Data.{
  cfg, start_time, asked, final_message, sent_message, agent_a, raw_strict, cfg_strict,
  queued_message,
}

named_test : ((agent_a.agent_id == "") ≡ false) × (trim_space agent_a.agent_id ≡ agent_a.agent_id)
unfolding lookup lookup_or insert remove keep_if sweep_values is_space trim_left trim_right
    trim_space has_dot before_dot lower_char to_lower digit digits format_int format_padded
    normalize_agents normalize_control_plane_agents require_hashes require_identities positive_or
    limit_or mode_or_compat legacy_scope_or_ucla complete new_config valid_scope prefix_scope
    scope_of_name normalize_scopes_loop normalize_scopes normalize_grants_loop
    normalize_shared_grants is_configured_control_plane_agent is_control_plane_agent
    agent_allowed_scopes accepts_name agent_has_scope is_granted agent_shared_grants
    agent_has_shared_grant new_store seconds add_duration authorize_scope authorize_agent_for_name
    authorize_send_target agent_can_access_name can_access_all actor_can_access_all_names
    actor_can_access_conversation authorize_all authorize_actor_for_names inbox_event_size
    over_count evict evict_count drop_count drop_inbox_prefix append_inbox observe_event_size
    trim_observe publish enqueue_push_job conversation_id merge_loop merge_participants create_new
    reuse open_conversation ensure_conversation check_participants forget_keys expire_agent
    expire_agents verdict message_event announce sweep_message sweep_messages sweep_due sweep
    prunes_message prune_messages any_live prunes_conversation prune_conversations prune_agents
    prune_idle prune_expired prune normalize_build_info trim_all normalize_agent_meta check_secret
    parse_mode check_registration ttl_or new_agent open_inbox add_agent register_locked
    register_agent message_id push_job_for install publish_message schedule_push dedupe_key
    parse_message_type check_send route earlier answer_again join_conversation choose_conversation
    check_grace new_message count_message plan plan_send accept send_new send_once send_locked
    send_message put_message check_ack ack_target acked finish_ack ack_to ack_locked ack
    parse_event_kind check_event event_target advanced publish_event post_to post_locked post_event
    check_poll clamp_wait clamp_between limit_events may_poll answer_from read_inbox poll_round
    event_matches_filter past_at search_loop sort_search events_since status_for_code
    retry_after_seconds new_error
named_test = (refl, refl)

authorize_agent_for_name_iff_example :
    (authorize_agent_for_name cfg agent_a "personal.x" ≡ ok tt)
    ↔ (agent_can_access_name cfg agent_a.agent_id "personal.x" ≡ true)
authorize_agent_for_name_iff_example =
    authorize_agent_for_name_iff cfg agent_a "personal.x" named_test.1 named_test.0

authorize_actor_for_names_iff_example :
    (authorize_actor_for_names cfg "ucla.a" ("ucla.b" ∷ "" ∷ []) ≡ ok tt) ↔ (
      ((trim_space "ucla.a" == "") ≡ true)
      ⊎ All (IsOpen cfg (trim_space "ucla.a")) ("ucla.b" ∷ "" ∷ []))
authorize_actor_for_names_iff_example =
    authorize_actor_for_names_iff cfg "ucla.a" ("ucla.b" ∷ "" ∷ [])

visible_test : actor_can_access_all_names cfg "ucla.a" ("ucla.b" ∷ []) ≡ true
unfolding lookup lookup_or insert remove keep_if sweep_values is_space trim_left trim_right
    trim_space has_dot before_dot lower_char to_lower digit digits format_int format_padded
    normalize_agents normalize_control_plane_agents require_hashes require_identities positive_or
    limit_or mode_or_compat legacy_scope_or_ucla complete new_config valid_scope prefix_scope
    scope_of_name normalize_scopes_loop normalize_scopes normalize_grants_loop
    normalize_shared_grants is_configured_control_plane_agent is_control_plane_agent
    agent_allowed_scopes accepts_name agent_has_scope is_granted agent_shared_grants
    agent_has_shared_grant new_store seconds add_duration authorize_scope authorize_agent_for_name
    authorize_send_target agent_can_access_name can_access_all actor_can_access_all_names
    actor_can_access_conversation authorize_all authorize_actor_for_names inbox_event_size
    over_count evict evict_count drop_count drop_inbox_prefix append_inbox observe_event_size
    trim_observe publish enqueue_push_job conversation_id merge_loop merge_participants create_new
    reuse open_conversation ensure_conversation check_participants forget_keys expire_agent
    expire_agents verdict message_event announce sweep_message sweep_messages sweep_due sweep
    prunes_message prune_messages any_live prunes_conversation prune_conversations prune_agents
    prune_idle prune_expired prune normalize_build_info trim_all normalize_agent_meta check_secret
    parse_mode check_registration ttl_or new_agent open_inbox add_agent register_locked
    register_agent message_id push_job_for install publish_message schedule_push dedupe_key
    parse_message_type check_send route earlier answer_again join_conversation choose_conversation
    check_grace new_message count_message plan plan_send accept send_new send_once send_locked
    send_message put_message check_ack ack_target acked finish_ack ack_to ack_locked ack
    parse_event_kind check_event event_target advanced publish_event post_to post_locked post_event
    check_poll clamp_wait clamp_between limit_events may_poll answer_from read_inbox poll_round
    event_matches_filter past_at search_loop sort_search events_since status_for_code
    retry_after_seconds new_error
visible_test = refl

strict_test : new_config raw_strict ≡ valid cfg_strict
unfolding lookup lookup_or insert remove keep_if sweep_values is_space trim_left trim_right
    trim_space has_dot before_dot lower_char to_lower digit digits format_int format_padded
    normalize_agents normalize_control_plane_agents require_hashes require_identities positive_or
    limit_or mode_or_compat legacy_scope_or_ucla complete new_config valid_scope prefix_scope
    scope_of_name normalize_scopes_loop normalize_scopes normalize_grants_loop
    normalize_shared_grants is_configured_control_plane_agent is_control_plane_agent
    agent_allowed_scopes accepts_name agent_has_scope is_granted agent_shared_grants
    agent_has_shared_grant new_store seconds add_duration authorize_scope authorize_agent_for_name
    authorize_send_target agent_can_access_name can_access_all actor_can_access_all_names
    actor_can_access_conversation authorize_all authorize_actor_for_names inbox_event_size
    over_count evict evict_count drop_count drop_inbox_prefix append_inbox observe_event_size
    trim_observe publish enqueue_push_job conversation_id merge_loop merge_participants create_new
    reuse open_conversation ensure_conversation check_participants forget_keys expire_agent
    expire_agents verdict message_event announce sweep_message sweep_messages sweep_due sweep
    prunes_message prune_messages any_live prunes_conversation prune_conversations prune_agents
    prune_idle prune_expired prune normalize_build_info trim_all normalize_agent_meta check_secret
    parse_mode check_registration ttl_or new_agent open_inbox add_agent register_locked
    register_agent message_id push_job_for install publish_message schedule_push dedupe_key
    parse_message_type check_send route earlier answer_again join_conversation choose_conversation
    check_grace new_message count_message plan plan_send accept send_new send_once send_locked
    send_message put_message check_ack ack_target acked finish_ack ack_to ack_locked ack
    parse_event_kind check_event event_target advanced publish_event post_to post_locked post_event
    check_poll clamp_wait clamp_between limit_events may_poll answer_from read_inbox poll_round
    event_matches_filter past_at search_loop sort_search events_since status_for_code
    retry_after_seconds new_error
strict_test = refl

new_config-IsComplete_example : IsComplete cfg_strict
new_config-IsComplete_example = new_config-IsComplete raw_strict cfg_strict strict_test

deliver_test : verdict start_time 10 asked.agents queued_message ≡ deliver
unfolding lookup lookup_or insert remove keep_if sweep_values is_space trim_left trim_right
    trim_space has_dot before_dot lower_char to_lower digit digits format_int format_padded
    normalize_agents normalize_control_plane_agents require_hashes require_identities positive_or
    limit_or mode_or_compat legacy_scope_or_ucla complete new_config valid_scope prefix_scope
    scope_of_name normalize_scopes_loop normalize_scopes normalize_grants_loop
    normalize_shared_grants is_configured_control_plane_agent is_control_plane_agent
    agent_allowed_scopes accepts_name agent_has_scope is_granted agent_shared_grants
    agent_has_shared_grant new_store seconds add_duration authorize_scope authorize_agent_for_name
    authorize_send_target agent_can_access_name can_access_all actor_can_access_all_names
    actor_can_access_conversation authorize_all authorize_actor_for_names inbox_event_size
    over_count evict evict_count drop_count drop_inbox_prefix append_inbox observe_event_size
    trim_observe publish enqueue_push_job conversation_id merge_loop merge_participants create_new
    reuse open_conversation ensure_conversation check_participants forget_keys expire_agent
    expire_agents verdict message_event announce sweep_message sweep_messages sweep_due sweep
    prunes_message prune_messages any_live prunes_conversation prune_conversations prune_agents
    prune_idle prune_expired prune normalize_build_info trim_all normalize_agent_meta check_secret
    parse_mode check_registration ttl_or new_agent open_inbox add_agent register_locked
    register_agent message_id push_job_for install publish_message schedule_push dedupe_key
    parse_message_type check_send route earlier answer_again join_conversation choose_conversation
    check_grace new_message count_message plan plan_send accept send_new send_once send_locked
    send_message put_message check_ack ack_target acked finish_ack ack_to ack_locked ack
    parse_event_kind check_event event_target advanced publish_event post_to post_locked post_event
    check_poll clamp_wait clamp_between limit_events may_poll answer_from read_inbox poll_round
    event_matches_filter past_at search_loop sort_search events_since status_for_code
    retry_after_seconds new_error
deliver_test = refl

deliver_only_queued_example :
    (true ≡ true)
    × (true ≡ true)
    × (false ≡ false)
    × ((queued_message.ttl_expires_at ≡ 0) ⊎ (start_time ≤ queued_message.ttl_expires_at))
    × (target : Agent) × (lookup "ucla.b" asked.agents ≡ some target)
    × (is_active target.status ≡ true)
deliver_only_queued_example =
    deliver_only_queued start_time 10 asked.agents queued_message deliver_test

abbrev late : ℕ
late = start_time + 700 * 1_000_000_000

late_test :
    is_terminal (settle late sent_message (verdict late 10 asked.agents sent_message)).state ≡ true
unfolding lookup lookup_or insert remove keep_if sweep_values is_space trim_left trim_right
    trim_space has_dot before_dot lower_char to_lower digit digits format_int format_padded
    normalize_agents normalize_control_plane_agents require_hashes require_identities positive_or
    limit_or mode_or_compat legacy_scope_or_ucla complete new_config valid_scope prefix_scope
    scope_of_name normalize_scopes_loop normalize_scopes normalize_grants_loop
    normalize_shared_grants is_configured_control_plane_agent is_control_plane_agent
    agent_allowed_scopes accepts_name agent_has_scope is_granted agent_shared_grants
    agent_has_shared_grant new_store seconds add_duration authorize_scope authorize_agent_for_name
    authorize_send_target agent_can_access_name can_access_all actor_can_access_all_names
    actor_can_access_conversation authorize_all authorize_actor_for_names inbox_event_size
    over_count evict evict_count drop_count drop_inbox_prefix append_inbox observe_event_size
    trim_observe publish enqueue_push_job conversation_id merge_loop merge_participants create_new
    reuse open_conversation ensure_conversation check_participants forget_keys expire_agent
    expire_agents verdict message_event announce sweep_message sweep_messages sweep_due sweep
    prunes_message prune_messages any_live prunes_conversation prune_conversations prune_agents
    prune_idle prune_expired prune normalize_build_info trim_all normalize_agent_meta check_secret
    parse_mode check_registration ttl_or new_agent open_inbox add_agent register_locked
    register_agent message_id push_job_for install publish_message schedule_push dedupe_key
    parse_message_type check_send route earlier answer_again join_conversation choose_conversation
    check_grace new_message count_message plan plan_send accept send_new send_once send_locked
    send_message put_message check_ack ack_target acked finish_ack ack_to ack_locked ack
    parse_event_kind check_event event_target advanced publish_event post_to post_locked post_event
    check_poll clamp_wait clamp_between limit_events may_poll answer_from read_inbox poll_round
    event_matches_filter past_at search_loop sort_search events_since status_for_code
    retry_after_seconds new_error
late_test = refl

ended_past_deadline_example :
    let v = verdict late 10 asked.agents sent_message in
    (settle late sent_message v ≡ record sent_message {
      state = error;
      terminal_at = late;
      queued_for_agent = (settle late sent_message v).queued_for_agent;
    })
    × (is_request sent_message.type ≡ true)
    × (((0 < sent_message.ttl_expires_at) × (sent_message.ttl_expires_at < late))
        ⊎ ((sent_message.state ≡ waiting)
            × (0 < sent_message.delivered_at)
            × (sent_message.delivered_at + 10 < late))
        ⊎ ((sent_message.queued_for_agent ≡ true)
            × (has_active asked.agents sent_message.to ≡ false)
            × (0 < sent_message.grace_until)
            × (sent_message.grace_until < late)))
ended_past_deadline_example = ended_past_deadline late 10 asked.agents sent_message refl late_test

abbrev much_later : ℕ
much_later = start_time + 7200 * 1_000_000_000

prunes_test : prunes_message much_later cfg final_message ≡ true
unfolding lookup lookup_or insert remove keep_if sweep_values is_space trim_left trim_right
    trim_space has_dot before_dot lower_char to_lower digit digits format_int format_padded
    normalize_agents normalize_control_plane_agents require_hashes require_identities positive_or
    limit_or mode_or_compat legacy_scope_or_ucla complete new_config valid_scope prefix_scope
    scope_of_name normalize_scopes_loop normalize_scopes normalize_grants_loop
    normalize_shared_grants is_configured_control_plane_agent is_control_plane_agent
    agent_allowed_scopes accepts_name agent_has_scope is_granted agent_shared_grants
    agent_has_shared_grant new_store seconds add_duration authorize_scope authorize_agent_for_name
    authorize_send_target agent_can_access_name can_access_all actor_can_access_all_names
    actor_can_access_conversation authorize_all authorize_actor_for_names inbox_event_size
    over_count evict evict_count drop_count drop_inbox_prefix append_inbox observe_event_size
    trim_observe publish enqueue_push_job conversation_id merge_loop merge_participants create_new
    reuse open_conversation ensure_conversation check_participants forget_keys expire_agent
    expire_agents verdict message_event announce sweep_message sweep_messages sweep_due sweep
    prunes_message prune_messages any_live prunes_conversation prune_conversations prune_agents
    prune_idle prune_expired prune normalize_build_info trim_all normalize_agent_meta check_secret
    parse_mode check_registration ttl_or new_agent open_inbox add_agent register_locked
    register_agent message_id push_job_for install publish_message schedule_push dedupe_key
    parse_message_type check_send route earlier answer_again join_conversation choose_conversation
    check_grace new_message count_message plan plan_send accept send_new send_once send_locked
    send_message put_message check_ack ack_target acked finish_ack ack_to ack_locked ack
    parse_event_kind check_event event_target advanced publish_event post_to post_locked post_event
    check_poll clamp_wait clamp_between limit_events may_poll answer_from read_inbox poll_round
    event_matches_filter past_at search_loop sort_search events_since status_for_code
    retry_after_seconds new_error
prunes_test = refl

prunes_message_lem_example : (prunes_message much_later cfg final_message ≡ true) ↔ (
    ((0 < cfg.message_max_age) × (final_message.created_at + cfg.message_max_age < much_later))
    ⊎ ((is_terminal final_message.state ≡ true)
        × (0 < cfg.message_retention)
        × (((final_message.terminal_at ≡ 0)
              × (final_message.created_at + cfg.message_retention < much_later))
            ⊎ ((0 < final_message.terminal_at)
                × (final_message.terminal_at + cfg.message_retention < much_later)))))
prunes_message_lem_example = prunes_message_lem much_later cfg final_message

abbrev seven : ℕ
seven = 7

abbrev second_later : ℕ
second_later = start_time + 1_000_000_000

live_test :
    any_live
      (prune_messages second_later asked).messages
      (lookup_or [] "c-000001" asked.conversation_messages)
    ≡ true
unfolding lookup lookup_or insert remove keep_if sweep_values is_space trim_left trim_right
    trim_space has_dot before_dot lower_char to_lower digit digits format_int format_padded
    normalize_agents normalize_control_plane_agents require_hashes require_identities positive_or
    limit_or mode_or_compat legacy_scope_or_ucla complete new_config valid_scope prefix_scope
    scope_of_name normalize_scopes_loop normalize_scopes normalize_grants_loop
    normalize_shared_grants is_configured_control_plane_agent is_control_plane_agent
    agent_allowed_scopes accepts_name agent_has_scope is_granted agent_shared_grants
    agent_has_shared_grant new_store seconds add_duration authorize_scope authorize_agent_for_name
    authorize_send_target agent_can_access_name can_access_all actor_can_access_all_names
    actor_can_access_conversation authorize_all authorize_actor_for_names inbox_event_size
    over_count evict evict_count drop_count drop_inbox_prefix append_inbox observe_event_size
    trim_observe publish enqueue_push_job conversation_id merge_loop merge_participants create_new
    reuse open_conversation ensure_conversation check_participants forget_keys expire_agent
    expire_agents verdict message_event announce sweep_message sweep_messages sweep_due sweep
    prunes_message prune_messages any_live prunes_conversation prune_conversations prune_agents
    prune_idle prune_expired prune normalize_build_info trim_all normalize_agent_meta check_secret
    parse_mode check_registration ttl_or new_agent open_inbox add_agent register_locked
    register_agent message_id push_job_for install publish_message schedule_push dedupe_key
    parse_message_type check_send route earlier answer_again join_conversation choose_conversation
    check_grace new_message count_message plan plan_send accept send_new send_once send_locked
    send_message put_message check_ack ack_target acked finish_ack ack_to ack_locked ack
    parse_event_kind check_event event_target advanced publish_event post_to post_locked post_event
    check_poll clamp_wait clamp_between limit_events may_poll answer_from read_inbox poll_round
    event_matches_filter past_at search_loop sort_search events_since status_for_code
    retry_after_seconds new_error
live_test = refl

live_conversation_stays_example :
    (lookup "c-000001" (prune second_later asked).conversations
      ≡ lookup "c-000001" asked.conversations)
    × (lookup_or [] "c-000001" (prune second_later asked).conversation_messages
        ≡ lookup_or [] "c-000001" asked.conversation_messages)
live_conversation_stays_example = live_conversation_stays second_later "c-000001" asked live_test

abbrev conversation : Conversation
conversation = record {
  conversation_id = "c-000001";
  title = "";
  participants = "ucla.a" ∷ [];
  status = "active";
  message_count = 0;
  created_at = start_time;
  last_message_at = start_time;
  meta = nil;
}

abbrev names : List String
names = "ucla.b" ∷ " ucla.a " ∷ "" ∷ []

merge_participants_lem_example :
    let d = merge_participants conversation names in
    ((added : List String) × (d.participants ≡ conversation.participants ++ added))
    × All (IsIn (map trim_space d.participants)) names
    × (merge_participants d names ≡ d)
merge_participants_lem_example = merge_participants_lem conversation names
