-- ===== src/Store/Push.antt =====
-- The queue of push callbacks of pkg/bus/store.go.
use pinakes.Base.{suc, String, [], ◌∷◌, ◌++◌, Option, none, some, length, ltb, if◌then◌else◌}
use pinakes.Store.{Store, PushJob}

-- enqueuePushJobLocked: the reason of a scheduling failure, if there is one
unfoldable pub enqueue_push_job : PushJob → Store → Option String × Store
enqueue_push_job job s =
    if s.push_closed
    then (
      some "push delivery interrupted by shutdown",
      record s { push_failures = suc s.push_failures },
    )
    else if ltb (length s.push_queue) s.cfg.push_queue_size
    then (none, record s { push_queue = s.push_queue ++ job ∷ [] })
    else (some "push queue full", record s { push_failures = suc s.push_failures })
