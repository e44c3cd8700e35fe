-- ===== src/CachePlugin.antt =====
-- packages/cache/src/plugin.ts over the memory store: which requests the cache answers, what it answers, and
-- which responses it keeps. A header of a request is read under its name in lower case; the query is the
-- normalized text that packages/cache/src/key.ts puts into the key.
pub mod Parsing
pub mod ETag
pub mod Revalidating
pub mod Keeping
pub mod Bypassing
use Prim.Native.String
use Prim.Native.String.{◌++◌}
use mathlib.Core.Option
use text.Mathlib.Text.{starts_with}
use axiomify.Base.{
  ℕ, ◌+◌, ◌-◌, ◌*◌, ◌/◌, String, Bool, true, false, not, ◌&&◌, ◌||◌, Option, none, some, List, [],
  ◌∷◌, if◌then◌else◌, ltb, leb, ◌==◌, ◌===◌,
}
use axiomify.CacheStore
use axiomify.CacheStore.{CacheEntry, MemoryCacheStore, acquire_refresh_lock, release_refresh_lock}
use axiomify.Texts.{is_empty}
use ETag.{EtagMode, compute_etag, if_none_match_matches}

-- What `cached()` leaves in the state of a request; its header names are in lower case.
pub record CachedMarker : Type 0 where
  pub ttl : Option ℕ
  pub swr : Option ℕ
  pub vary_headers : List String

-- The options with their defaults filled in and the prefixes of `routes` normalized; no mode of tags is
-- `etag: false`.
pub record CacheOptions : Type 0 where
  pub default_ttl : ℕ
  pub stale_while_revalidate : ℕ
  pub etag : Option EtagMode
  pub routes : List String
  pub vary_headers : List String
  pub cache_private : Bool
  pub cacheable_statuses : List ℕ
  pub refresh_lock_ttl : ℕ

pub record Request : Type 0 where
  pub method : String
  pub path : String
  pub query : String
  pub header : String → Option String
  pub if_none_match : Option (List String)

abbrev pub separator : String
separator = "\0"

unfoldable pub vary_part : Request → List String → String
vary_part req [] = ""
vary_part req (name ∷ names) =
    separator ++ (name ++ (":" ++ (Option.get_or (req.header name) "" ++ vary_part req names)))

unfoldable pub request_cache_key : Request → List String → String
request_cache_key req names =
    req.method ++ (separator ++ (req.path ++ (separator ++ (req.query ++ vary_part req names))))

abbrev pub is_present : Option String → Bool
is_present none = false
is_present (some value) = true

unfoldable pub is_request_eligible : CacheOptions → Request → Bool
is_request_eligible o req =
    o.cache_private
    || (not (is_present (req.header "authorization")) && not (is_present (req.header "cookie")))

unfoldable pub matches_route_prefix : List String → String → Bool
matches_route_prefix [] path = false
matches_route_prefix (prefix ∷ prefixes) path =
    (prefix === "/")
    || ((path === prefix) || starts_with path (prefix ++ "/"))
    || matches_route_prefix prefixes path

unfoldable pub vary_holds : List (String × String) → Request → Bool
vary_holds [] req = true
vary_holds ((name, value) ∷ vary) req =
    (Option.get_or (req.header name) "" === value) && vary_holds vary req

unfoldable pub vary_matches : CacheEntry → Request → Bool
vary_matches entry req = elim entry.vary [ none ↦ true | some vary ↦ vary_holds vary req ]

pub data XCacheValue : Type 0 where
  hit stale miss expired : XCacheValue

-- What `serveEntry` sends.
pub record Served : Type 0 where
  pub x_cache : XCacheValue
  pub age : ℕ
  pub etag : Option String
  pub status : ℕ
  pub payload : String
  pub content_type : Option String

-- A tag that is there and not empty.
unfoldable pub present_tag : Option String → Option String
present_tag none = none
present_tag (some tag) = if is_empty tag then none else some tag

-- The tag of an entry, where tags are on.
abbrev pub tag_of : Option EtagMode → CacheEntry → Option String
tag_of none entry = none
tag_of (some mode) entry = present_tag entry.etag

abbrev pub is_not_modified : Request → Option String → Bool
is_not_modified req none = false
is_not_modified req (some tag) = if_none_match_matches req.if_none_match (some tag)

unfoldable pub serve_entry : CacheOptions → Request → CacheEntry → XCacheValue → ℕ → Served
serve_entry o req entry kind age_ms =
    let tag = tag_of o.etag entry in
    let bare = is_not_modified req tag in
    record {
      x_cache = kind;
      age = age_ms / 1000;
      etag = tag;
      status = if bare then 304 else entry.status_code;
      payload = if bare || (req.method === "HEAD") then "" else entry.payload;
      content_type = if bare then none else some entry.content_type;
    }

-- What the hook does: nothing, an answer from the cache, or a wrapped response, with whether the request is
-- eligible and whether it refreshes a stale entry.
pub data Answer : Type 0 where
  ignored : Answer
  served : Served → Answer
  wrapped : Bool → Bool → Answer

unfoldable pub answer_stale :
    CacheOptions → Request → CacheEntry → ℕ → MemoryCacheStore × Bool → MemoryCacheStore × Answer
answer_stale o req entry now (s, true) = (s, wrapped true true)
answer_stale o req entry now (s, false) =
    (s, served (serve_entry o req entry stale (now - entry.stored_at)))

unfoldable pub answer_entry :
    CacheOptions → ℕ → Request → String → CacheEntry → MemoryCacheStore → MemoryCacheStore × Answer
answer_entry o now req key entry s =
    if not (vary_matches entry req)
    then (s, wrapped true false)
    else if leb now (entry.stored_at + entry.ttl_ms)
    then (s, served (serve_entry o req entry hit (now - entry.stored_at)))
    else if leb now (entry.stored_at + entry.ttl_ms + entry.swr_ms)
    then answer_stale o req entry now (acquire_refresh_lock now key o.refresh_lock_ttl s)
    else (s, wrapped true false)

unfoldable pub answer_found :
    CacheOptions
    → ℕ
    → Request
    → String
    → MemoryCacheStore × Option CacheEntry
    → MemoryCacheStore × Answer
answer_found o now req key (s, none) = (s, wrapped true false)
answer_found o now req key (s, some entry) = answer_entry o now req key entry s

-- The `onRequest` hook.
unfoldable pub on_request :
    CacheOptions → ℕ → Bool → Request → MemoryCacheStore → MemoryCacheStore × Answer
on_request o now headers_sent req s =
    let key = request_cache_key req o.vary_headers in
    if not ((req.method === "GET") || (req.method === "HEAD")) || headers_sent
    then (s, ignored)
    else if is_request_eligible o req
    then answer_found o now req key (CacheStore.get now key s)
    else (s, wrapped false false)
