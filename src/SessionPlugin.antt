-- ===== src/SessionPlugin.antt =====
-- packages/session/src/session.ts: the session of one request. `Date.now()`, the ids of `newSessionId` and
-- the HMAC are arguments; the store is any that has the four methods of `SessionStore`. A cookie that is
-- set or cleared is kept with its name and value, the newest first, its attributes left out.
pub mod Requests
pub mod Attaching
pub mod Destroying
pub mod Issuing
pub mod Returning
pub mod Persisting
pub mod Building
pub mod MemoryStore
use axiomify.Base.{ℕ, String, Bool, List, Option}
use axiomify.Sessions.{SessionRecord}

-- The interface of packages/session/src/stores.ts: each method with the time and the state of the store.
pub record SessionStore (St : Type 0) (D : Type 0) : Type 0 where
  pub read : ℕ → String → St → St × Option (SessionRecord D)
  pub write : ℕ → String → SessionRecord D → ℕ → St → St
  pub erase : String → St → St
  pub refresh : ℕ → String → ℕ → St → St

-- `secrets` are a first one and the older ones.
pub record SessionPluginContext (St : Type 0) (V : Type 0) : Type 0 where
  pub cookie_name : String
  pub secret : String
  pub older_secrets : List String
  pub store : SessionStore St (List (String × V))
  pub rolling : Bool
  pub save_uninitialized : Bool
  pub idle_ttl : ℕ
  pub absolute_timeout : Option ℕ

pub record SessionInternal (V : Type 0) : Type 0 where
  pub dirty : Bool
  pub touched : Bool
  pub destroyed : Bool
  pub persisted : Bool
  pub cookie_set : Bool
  pub warned_headers_sent : Bool
  pub id : String
  pub is_new : Bool
  pub content : List (String × V)
  pub created_at : ℕ

pub data CookieHeader : Type 0 where
  set_header : String → String → CookieHeader
  clear_header : String → CookieHeader

-- The session, the response as far as the plugin touches it, and the store.
pub record Request (St : Type 0) (V : Type 0) : Type 0 where
  pub session : SessionInternal V
  pub headers_sent : Bool
  pub cookies : List CookieHeader
  pub stored_state : St
