-- ===== src/Types.antt =====
-- pkg/bus/types.go: the data of the bus. A time is the count of nanoseconds since Go's zero time, so
-- 0 is the time for which IsZero holds. A pointer that may be nil is an Option.
use pinakes.Base.{ℕ, String, Bool, List, Option}
use pinakes.Base.Int.{ℤ}

pub data Scope : Type 0 where
  personal ucla shared : Scope

pub data NamespaceMode : Type 0 where
  compat strict : NamespaceMode

pub data AgentMode : Type 0 where
  pull push : AgentMode

pub data MessageType : Type 0 where
  request response inform : MessageType

pub data MessageState : Type 0 where
  pending waiting executing completed rejected error : MessageState

pub data AgentStatus : Type 0 where
  active expired : AgentStatus

-- A value of type `any` that the bus only hands on and marshals: nothing, a value known by its JSON
-- text, or a value that encoding/json refuses.
pub data Any : Type 0 where
  nil : Any
  json : String → Any
  unmarshalable : Any

pub record Attachment : Type 0 where
  pub url : String
  pub name : String
  pub content_type : String
  pub size : ℤ
  pub sha256 : String

pub record BuildInfo : Type 0 where
  pub commit : String
  pub dirty : Bool

pub record AgentMeta : Type 0 where
  pub owner : String
  pub repo : String
  pub health_url : String
  pub dependencies : List String

pub record Agent : Type 0 where
  pub agent_id : String
  pub allowed_scopes : List String
  pub shared_grants : List String
  pub capabilities : List String
  pub version : String
  pub description : String
  pub agent_class : String
  pub mutation_class : String
  pub build : Option BuildInfo
  pub meta : Option AgentMeta
  pub mode : AgentMode
  pub callback_url : String
  pub status : AgentStatus
  pub registered_at : ℕ
  pub expires_at : ℕ
  pub ttl_seconds : ℤ

pub record Conversation : Type 0 where
  pub conversation_id : String
  pub title : String
  pub participants : List String
  pub status : String
  pub message_count : ℕ
  pub created_at : ℕ
  pub last_message_at : ℕ
  pub meta : Any

pub record Message : Type 0 where
  pub message_id : String
  pub type : MessageType
  pub from : String
  pub to : String
  pub conversation_id : String
  pub request_id : String
  pub in_reply_to : String
  pub body : String
  pub meta : Any
  pub attachments : List Attachment
  pub state : MessageState
  pub created_at : ℕ
  pub terminal_at : ℕ
  pub delivered_at : ℕ
  pub last_progress_at : ℕ
  pub ttl_expires_at : ℕ
  pub grace_until : ℕ
  pub queued_for_agent : Bool

pub record InboxEvent : Type 0 where
  pub message_id : String
  pub type : MessageType
  pub from : String
  pub conversation_id : String
  pub body : String
  pub meta : Any
  pub attachments : List Attachment
  pub created_at : ℕ

-- The type of an observe event together with its data, the map literals of pkg/bus/store.go.
pub data EventData : Type 0 where
  message :
      (message_id : String)
      → MessageType
      → (from to conversation_id body : String) → (created_at : ℕ) → EventData
  ack : (message_id agent_id status : String) → (at : ℕ) → EventData
  progress : (message_id body : String) → (meta : Any) → (at : ℕ) → EventData
  state_change : (message_id : String) → (from_state to_state : MessageState) → (at : ℕ) → EventData
  -- of a sweep, with the reason
  state_failure :
      (message_id : String) → (from_state : MessageState) → (at : ℕ) → (reason : String) → EventData
  -- of a final or error event, with its body and meta
  state_result :
      (message_id : String)
      → (from_state to_state : MessageState) → (at : ℕ) → (body : String) → (meta : Any) → EventData
  agent_registered :
      (agent_id : String)
      → (allowed_scopes shared_grants capabilities : List String) → (at : ℕ) → EventData
  agent_expired : (agent_id : String) → (at : ℕ) → EventData
  human_injection : (identity message_id conversation_id to body : String) → (at : ℕ) → EventData

pub record ObserveEvent : Type 0 where
  pub id : ℕ
  pub at : ℕ
  pub content : EventData
  pub conversation_id : String
  pub agent_ids : List String
  pub size : ℕ

-- The inputs of the operations. A `type`, `mode` or `status` of a request is any text.
pub record RegisterAgentInput : Type 0 where
  pub agent_id : String
  pub secret : String
  pub allowed_scopes : List String
  pub shared_grants : List String
  pub capabilities : List String
  pub version : String
  pub description : String
  pub agent_class : String
  pub mutation_class : String
  pub build : Option BuildInfo
  pub meta : Option AgentMeta
  pub mode : String
  pub callback_url : String
  pub ttl_seconds : ℤ

pub record CreateConversationInput : Type 0 where
  pub conversation_id : String
  pub title : String
  pub participants : List String
  pub meta : Any
  pub actor_agent_id : String

pub record ListConversationsFilter : Type 0 where
  pub participant : String
  pub status : String
  pub actor_agent_id : String

pub record SendMessageInput : Type 0 where
  pub to : String
  pub from : String
  pub conversation_id : String
  pub request_id : String
  pub type : String
  pub body : String
  pub meta : Any
  pub attachments : List Attachment
  pub ttl_seconds : ℤ
  pub in_reply_to : String

pub record AckInput : Type 0 where
  pub agent_id : String
  pub message_id : String
  pub status : String
  pub reason : String

pub record EventInput : Type 0 where
  pub actor_agent_id : String
  pub message_id : String
  pub type : String
  pub body : String
  pub meta : Any

pub record InjectInput : Type 0 where
  pub identity : String
  pub conversation_id : String
  pub to : String
  pub body : String

pub record ListConversationMessagesInput : Type 0 where
  pub conversation_id : String
  pub cursor : ℤ
  pub limit : ℤ
  pub actor_agent_id : String

pub record ObserveFilter : Type 0 where
  pub conversation_id : String
  pub agent_id : String
  pub actor_agent_id : String
