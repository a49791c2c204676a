-- ===== src/Store/Sound/Sending.antt =====
-- SendMessage and Inject keep the invariant.
use pinakes.Base.{ℕ, ◌≡◌, arith}
use pinakes.Types.{Agent, SendMessageInput, InjectInput}
use pinakes.Errors.{ok}
use pinakes.Store.{Store}
use pinakes.Store.Acceptance.{SendAcceptance, Barrier}
use pinakes.Store.Send.{
  SendRequest, send_message, send_locked, send_once, send_new, plan_send, plan, new_message, accept,
}
use pinakes.Store.Inject.{
  inject, inject_locked, plan_inject, injected, place, place_at, stamp_terminal, accept_injection,
}
use pinakes.Store.Sound.Operations.{
  Sound, IsNext, sweep-Sound, install-Sound, publish-Sound, publish_message-Sound,
  schedule_push-Sound,
}

-- Whatever is planned for a send has the next message id.
pub plan_send-IsNext :
    (now : ℕ) (input : SendMessageInput) (r : SendRequest) (s : Store) (target : Agent)
    (a : SendAcceptance)
    → plan_send now input r s target ≡ ok a
    → IsNext s a
unfolding plan_send plan new_message
plan_send-IsNext now input r s target a h = ground arith

accept-Sound :
    (now : ℕ) (a : SendAcceptance) (s : Store) → IsNext s a → Sound s → Sound (accept now a s)
unfolding accept
accept-Sound now a s next h =
    schedule_push-Sound a.push_job _
      (publish_message-Sound a.message now _ (install-Sound a s next h))

send_new-Sound :
    (now : ℕ) (input : SendMessageInput) (r : SendRequest) (commit : Barrier SendAcceptance)
    (target : Agent) (s : Store)
    → Sound s
    → Sound (send_new now input r commit target s).1
unfolding send_new
send_new-Sound now input r commit target s h =
    grind (arith, accept-Sound, plan_send-IsNext now input r s target)

send_locked-Sound :
    (now : ℕ) (input : SendMessageInput) (r : SendRequest) (commit : Barrier SendAcceptance)
    (s : Store)
    → Sound s
    → Sound (send_locked now input r commit s).1
unfolding send_locked send_once
send_locked-Sound now input r commit s h = grind (arith, send_new-Sound)

pub send_message-Sound :
    (now : ℕ) (input : SendMessageInput) (commit : Barrier SendAcceptance) (s : Store)
    → Sound s
    → Sound (send_message now input commit s).1
unfolding send_message
send_message-Sound now input commit s h = grind (arith, send_locked-Sound, sweep-Sound)

pub plan_inject-IsNext :
    (now : ℕ) (input : InjectInput) (s : Store) (a : SendAcceptance)
    → plan_inject now input s ≡ ok a
    → IsNext s a
unfolding plan_inject place place_at stamp_terminal injected
plan_inject-IsNext now input s a h = ground arith

accept_injection-Sound :
    (now : ℕ) (input : InjectInput) (a : SendAcceptance) (s : Store)
    → IsNext s a
    → Sound s
    → Sound (accept_injection now input a s)
unfolding accept_injection
accept_injection-Sound now input a s next h =
    schedule_push-Sound a.push_job _
      (publish_message-Sound a.message now _ (publish-Sound _ _ _ now _ (install-Sound a s next h)))

inject_locked-Sound :
    (now : ℕ) (input : InjectInput) (commit : Barrier SendAcceptance) (s : Store)
    → Sound s
    → Sound (inject_locked now input commit s).1
unfolding inject_locked
inject_locked-Sound now input commit s h =
    grind (arith, accept_injection-Sound, plan_inject-IsNext now input s)

pub inject-Sound :
    (now : ℕ) (input : InjectInput) (commit : Barrier SendAcceptance) (s : Store)
    → Sound s
    → Sound (inject now input commit s).1
unfolding inject
inject-Sound now input commit s h = grind (arith, inject_locked-Sound, sweep-Sound)
