-- ===== src/Store/Conversations.antt =====
-- Conversations of pkg/bus/store.go: ids, creation, reuse, and the list of participants.
pub mod Laws
use Prim.Native.String.{◌++◌ as concat}
use pinakes.Base.{
  ℕ, suc, String, List, [], ◌∷◌, ◌++◌, map, none, some, contains, ◌==◌, if◌then◌else◌,
}
use pinakes.Base.Dict.{lookup, insert}
use pinakes.Text.{trim_space}
use pinakes.Text.Decimal.{format_padded}
use pinakes.Types.{Conversation, CreateConversationInput}
use pinakes.Errors.{Result, ok, fail, validation}
use pinakes.Config.{Config}
use pinakes.Scope.{accepts_name}
use pinakes.Store.{Operation, guarded}
use pinakes.Store.Access.{authorize_actor_for_names}

-- fmt.Sprintf("c-%06d", n)
unfoldable pub conversation_id : ℕ → String
conversation_id n = concat "c-" (format_padded n)

-- The loop of mergeConversationParticipantsLocked.
unfoldable pub merge_loop : (seen merged : List String) → List String → List String
merge_loop seen merged [] = merged
merge_loop seen merged (raw ∷ rest) =
    let participant = trim_space raw in
    let skip = merge_loop seen merged rest in
    let add = merge_loop (participant ∷ seen) (merged ++ participant ∷ []) rest in
    if participant == "" then skip else if contains seen participant then skip else add

unfoldable pub merge_participants : Conversation → List String → Conversation
merge_participants c participants = record c {
  participants = merge_loop (map trim_space c.participants) c.participants participants;
}

unfoldable pub create_new : CreateConversationInput → String → ℕ → Operation Conversation
create_new input id now s =
    let c : Conversation = record {
      conversation_id = id;
      title = trim_space input.title;
      participants = input.participants;
      status = "active";
      message_count = 0;
      created_at = now;
      last_message_at = now;
      meta = input.meta;
    } in
    (ok c, record s { conversations = insert id c s.conversations })

unfoldable pub reuse : Conversation → CreateConversationInput → String → Operation Conversation
reuse existing input id s =
    let merged = merge_participants existing input.participants in
    (ok merged, record s { conversations = insert id merged s.conversations })

unfoldable pub open_conversation : CreateConversationInput → String → ℕ → Operation Conversation
open_conversation input id now s =
    let allowed = authorize_actor_for_names s.cfg input.actor_agent_id in
    elim (lookup id s.conversations) [
      | none ↦ guarded (allowed input.participants) (create_new input id now) s
      | some existing ↦
          guarded (allowed existing.participants)
            (guarded (allowed input.participants) (reuse existing input id)) s
    ]

-- ensureConversationLocked
unfoldable pub ensure_conversation : CreateConversationInput → ℕ → Operation Conversation
ensure_conversation input now s =
    let given = trim_space input.conversation_id in
    if given == ""
    then open_conversation input (conversation_id (suc s.next_conversation_id)) now
        (record s { next_conversation_id = suc s.next_conversation_id })
    else open_conversation input given now s

-- The check of CreateConversation before the lock.
unfoldable pub check_participants : Config → List String → Result (Unit {0})
check_participants cfg [] = ok tt
check_participants cfg (name ∷ rest) =
    let next = check_participants cfg rest in
    if trim_space name == ""
    then next
    else if accepts_name cfg name
    then next
    else fail validation "participants must be prefixed with personal., ucla., or shared."
