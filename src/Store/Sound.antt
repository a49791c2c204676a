-- ===== src/Store/Sound.antt =====
-- The invariant of the store: exact byte accounts of the inboxes, a sound observe ring, and message
-- ids that the counter has given out. Below it: every operation keeps it.
pub mod Parts
pub mod Operations
pub mod Sending
pub mod Lifecycle
pub mod Reading
pub mod Reach
pub mod History
pub mod Runs
pub mod Final
use pinakes.Base.{ℕ, ◌≤◌, ◌<◌, ◌≡◌, String}
use pinakes.Base.Dict.Laws.{Entries}
use pinakes.Types.{Message}
use pinakes.Store.{Store}
use pinakes.Store.Inbox.Laws.{IsAccounted}
use pinakes.Store.Observe.Laws.{IsRing}
use pinakes.Store.Acceptance.{message_id}

-- A message stands under its own id, which the counter gave out.
pub record IsNumbered (next : ℕ) (key : String) (m : Message) : Type 0 where
  pub own_key : key ≡ m.message_id
  pub number : ℕ
  pub printed : m.message_id ≡ message_id number
  pub given : number ≤ next

abbrev pub IsSound : Store → Type 0
IsSound s = IsAccounted s × IsRing s × Entries (IsNumbered s.next_message_id) s.messages
