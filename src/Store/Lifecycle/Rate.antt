-- ===== src/Store/Lifecycle/Rate.antt =====
-- PostEvent: the least interval between two progress events.
use pinakes.Base.{ℕ, ◌≡◌, false}
use pinakes.Types.{Message}
use pinakes.Store.{Store}
use pinakes.Store.Status.{is_terminal, is_request}

-- The request after a progress event.
record Progressed (now : ℕ) (m x : Message) : Type 0 where
  at : x.last_progress_at ≡ now
  to : x.to ≡ m.to
  asks : is_request x.type ≡ is_request m.type
  going : is_terminal x.state ≡ false
