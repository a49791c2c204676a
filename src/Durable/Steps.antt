-- ===== src/Durable/Steps.antt =====
-- pkg/bus/sqlite.go and sqlite_delivery.go: the transactions of the store as steps, and the runs of them.
use pinakes.Base.{ℕ, String, ◌≡◌, Bool, some}
use pinakes.Base.Int.{ℤ}
use pinakes.Base.Dict.{Dict}
use pinakes.Types.{Agent, Message, Conversation}
use pinakes.Config.{Config}
use pinakes.Store.Acceptance.{SendAcceptance}
use pinakes.Durable.{Tables}
use pinakes.Durable.Accept.{persist_acceptance, persist_ack, persist_conversation}
use pinakes.Durable.Push.{
  record_push_success, record_push_failure, claim_due_pushes, recover_on_close, recover_on_start,
}
use pinakes.Durable.Read.{read_durable_inbox, Look}
use pinakes.Durable.Prune.{prune_db}
use pinakes.Durable.Moves.{Moved, Sound, Moved-Sound, persist_acceptance-Moved}
use pinakes.Durable.Backfill.{backfill_legacy_delivery_state}
use pinakes.Durable.Backfill.Laws.{backfill_legacy_delivery_state-Sound}
use pinakes.Durable.Transactions.{
  pushed-Moved, created-Moved, push_failed-Moved, closed-Moved, started-Moved, acked-Moved,
  claimed-Moved, pruned-Moved,
}
use pinakes.Durable.Looked.{looked-Moved}

-- One transaction. The clock, the configuration, the faults and the requests are free.
pub data Step : Tables → Tables → Type 0 where
  sent :
      (window : ℕ) (fault : Bool) (a : SendAcceptance) (t u : Tables)
      → persist_acceptance window fault a t ≡ some u
      → Step t u
  acked :
      (now : ℕ) (fault : Bool) (m : Message) (t u : Tables)
      → persist_ack now fault m t ≡ some u
      → Step t u
  created :
      (c : Conversation) (next_conv next_msg : ℕ) (fault : Bool) (t u : Tables)
      → persist_conversation c next_conv next_msg fault t ≡ some u
      → Step t u
  pushed :
      (now : ℕ) (id : String) (attempts : ℕ) (t : Tables)
      → Step t (record_push_success now id attempts t)
  push_failed :
      (cfg : Config) (now : ℕ) (id : String) (attempts : ℕ) (reason : String) (t : Tables)
      → Step t (record_push_failure cfg now id attempts reason t)
  claimed : (now : ℕ) (agents : Dict Agent) (t : Tables) → Step t (claim_due_pushes now agents t).1
  looked :
      (cfg : Config) (now : ℕ) (fault : Bool) (agent_id : String) (requested limit : ℤ) (t : Tables)
      (look : Look)
      → read_durable_inbox cfg now fault agent_id requested limit t ≡ some look
      → Step t look.tables
  pruned : (cfg : Config) (now : ℕ) (t : Tables) → Step t (prune_db cfg now t)
  closed : (now : ℕ) (t : Tables) → Step t (recover_on_close now t)
  started : (t : Tables) → Step t (recover_on_start t)

-- The tables before and after any number of transactions and of starts that fill an old database.
pub data Run : Tables → Tables → Type 0 where
  here : (t : Tables) → Run t t
  then : (t u v : Tables) → Run t u → Step u v → Run t v
  upgraded :
      (cfg : Config) (now : ℕ) (applied fault : Bool) (t u v : Tables)
      → Run t u
      → backfill_legacy_delivery_state cfg now applied fault u ≡ some v
      → Run t v

-- Whatever transaction of the running durable store takes place, a delivery after it continues
-- one before it, under the same target, number and message, and is the same row if that was
-- received or failed; or it is new, open, and has the number that was the next one of its target.
-- Neither the next number of a target nor what it has acknowledged goes back, what was
-- acknowledged stays at most the next number if it was so, and in sound tables the numbers of a
-- target still stand once.
pub Step-Moved : (t u : Tables) → Step t u → Moved t u
Step-Moved _ _ (sent window fault a t u h) = persist_acceptance-Moved window fault a t u h
Step-Moved _ _ (acked now fault m t u h) = acked-Moved now fault m t u h
Step-Moved _ _ (created c next_conv next_msg fault t u h) =
    created-Moved c next_conv next_msg fault t u h
Step-Moved _ _ (pushed now id attempts t) = pushed-Moved now id attempts t
Step-Moved _ _ (push_failed cfg now id attempts reason t) =
    push_failed-Moved cfg now id attempts reason t
Step-Moved _ _ (claimed now agents t) = claimed-Moved now agents t
Step-Moved _ _ (looked cfg now fault agent_id requested limit t look h) =
    looked-Moved cfg now fault agent_id requested limit t look h
Step-Moved _ _ (pruned cfg now t) = pruned-Moved cfg now t
Step-Moved _ _ (closed now t) = closed-Moved now t
Step-Moved _ _ (started t) = started-Moved t

-- Along any run of transactions, and of starts that fill an old database, from tables in which
-- the numbers of the deliveries of a target stand once and are below its next number, and no
-- target has acknowledged more than its next number, the tables stay so.
pub Run-Sound : (t u : Tables) → Run t u → Sound t → Sound u
Run-Sound _ _ (here t) sound = sound
Run-Sound _ _ (then t m u run step) sound =
    Moved-Sound m u (Run-Sound t m run sound) (Step-Moved m u step)
Run-Sound _ _ (upgraded cfg now applied fault t m u run filled) sound =
    backfill_legacy_delivery_state-Sound cfg now applied fault m u filled (Run-Sound t m run sound)
