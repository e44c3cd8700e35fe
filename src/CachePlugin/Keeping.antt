-- ===== src/CachePlugin/Keeping.antt =====
-- `wrapResponse` of packages/cache/src/plugin.ts: which responses the cache keeps, and what it keeps of them. The
-- digest of a body is a parameter.
use mathlib.Core.Option
use text.Mathlib.Text.{starts_with}
use axiomify.Base.{
  ℕ, ◌+◌, ◌*◌, String, Bool, true, false, not, ◌&&◌, ◌||◌, Option, none, some, List, [], ◌∷◌,
  if◌then◌else◌, ltb, leb, ◌==◌,
}
use axiomify.CacheStore
use axiomify.CacheStore.{CacheEntry, MemoryCacheStore, release_refresh_lock}
use axiomify.Texts.{is_empty}
use axiomify.CachePlugin.ETag.{EtagMode, compute_etag}
use axiomify.CachePlugin.{
  CachedMarker, CacheOptions, Request, request_cache_key, matches_route_prefix, present_tag,
  is_not_modified, Answer, ignored, served, wrapped, Served, on_request,
}

-- A response when it is sent: its status, what is read of its headers, `Cache-Control` in lower case, and
-- the marker of its route.
pub record Sent : Type 0 where
  pub status : ℕ
  pub saw_set_cookie : Bool
  pub content_encoding : Option String
  pub cache_control : String
  pub etag : Option String
  pub marker : Option CachedMarker

-- `includes` of texts.
unfoldable pub has_text : String → String → Bool
has_text part String.[] = is_empty part
has_text part (String.◌∷◌ c s) = starts_with (String.◌∷◌ c s) part || has_text part s

unfoldable pub has_status : List ℕ → ℕ → Bool
has_status [] status = false
has_status (n ∷ ns) status = (n == status) || has_status ns status

abbrev pub marker_ttl : Option CachedMarker → Option ℕ
marker_ttl none = none
marker_ttl (some m) = m.ttl

abbrev pub marker_swr : Option CachedMarker → Option ℕ
marker_swr none = none
marker_swr (some m) = m.swr

abbrev pub is_marked : Option CachedMarker → Bool
is_marked none = false
is_marked (some m) = true

abbrev pub is_encoded : Option String → Bool
is_encoded none = false
is_encoded (some coding) = not (is_empty coding)

-- The response may be kept, whatever its time to live is.
unfoldable pub is_storable : CacheOptions → Request → Sent → Bool
is_storable o req sent =
    has_status o.cacheable_statuses sent.status
    && not sent.saw_set_cookie
    && (not (is_encoded sent.content_encoding) && not (has_text "no-store" sent.cache_control))
    && (not (has_text "private" sent.cache_control && not o.cache_private)
        && (is_marked sent.marker || matches_route_prefix o.routes req.path))

-- The times to live of `shouldStore`, in seconds.
unfoldable pub should_store : CacheOptions → Request → Bool → Sent → Option (ℕ × ℕ)
should_store o req eligible sent =
    let ttl = Option.get_or (marker_ttl sent.marker) o.default_ttl in
    let swr = Option.get_or (marker_swr sent.marker) o.stale_while_revalidate in
    if eligible && (is_storable o req sent && ltb 0 ttl) then some (ttl, swr) else none

unfoldable pub vary_values : Request → List String → List (String × String)
vary_values req [] = []
vary_values req (name ∷ names) = (name, Option.get_or (req.header name) "") ∷ vary_values req names

-- The header values that the entry is for, where its route names headers.
unfoldable pub vary_of : Request → Option CachedMarker → Option (List (String × String))
vary_of req none = none
vary_of req (some m) = elim m.vary_headers [
  | [] ↦ none
  | name ∷ names ↦ some (vary_values req (name ∷ names))
]

abbrev pub is_successful : ℕ → Bool
is_successful status = leb 200 status && ltb status 300

module _ (digest : String → String) where
  -- The tag that is sent, and whether it may turn the answer into a 304.
  unfoldable pub sent_tag : Option EtagMode → Sent → String → Option String × Bool
  sent_tag none sent body = (sent.etag, false)
  sent_tag (some mode) sent body =
      if is_successful sent.status
      then (some (Option.get_or (present_tag sent.etag) (compute_etag digest body mode)), true)
      else (sent.etag, false)

abbrev pub entry_of : Request → Sent → String → String → Option String → ℕ → ℕ → ℕ → CacheEntry
entry_of req sent body content_type etag now ttl swr = record {
  payload = body;
  status_code = sent.status;
  content_type = content_type;
  etag = etag;
  stored_at = now;
  ttl_ms = ttl * 1000;
  swr_ms = swr * 1000;
  vary = vary_of req sent.marker;
}

abbrev pub released : Bool → String → MemoryCacheStore → MemoryCacheStore
released refreshing key s = if refreshing then release_refresh_lock key s else s

unfoldable pub write_through :
    ℕ → String → Option (ℕ × ℕ) → (ℕ → ℕ → CacheEntry) → MemoryCacheStore → MemoryCacheStore
write_through now key none entry s = s
write_through now key (some (ttl, swr)) entry s =
    CacheStore.set now key (entry ttl swr) (ttl + swr) s

module _ (digest : String → String) where
  -- The first send of a wrapped response: the store after it, and whether a 304 went out.
  unfoldable pub finish :
      CacheOptions
      → ℕ
      → Request
      → Bool
      → Bool
      → Sent
      → String
      → String
      → MemoryCacheStore
      → MemoryCacheStore × Bool
  finish o now req eligible refreshing sent body content_type s =
      let key = request_cache_key req o.vary_headers in
      let (etag, conditional) = sent_tag digest o.etag sent body in
      let fresh = should_store o req eligible sent in
      let kept = write_through now key fresh (entry_of req sent body content_type etag now) s in
      if conditional && is_not_modified req etag
      then (released refreshing key s, true)
      else (released refreshing key kept, false)

  unfoldable pub concluded :
      CacheOptions
      → ℕ
      → Request
      → Sent
      → String
      → String
      → MemoryCacheStore × Answer
      → MemoryCacheStore × Option Served
  concluded o later req sent body content_type (s, ignored) = (s, none)
  concluded o later req sent body content_type (s, served answer) = (s, some answer)
  concluded o later req sent body content_type (s, wrapped eligible refreshing) =
      ((finish o later req eligible refreshing sent body content_type s).0, none)

  -- A request and, where the hook wraps its response, what its handler sends at a later time: the store,
  -- and the answer from the cache if there is one.
  unfoldable pub exchange :
      CacheOptions
      → ℕ
      → ℕ
      → Request
      → Sent
      → String
      → String
      → MemoryCacheStore
      → MemoryCacheStore × Option Served
  exchange o now later req sent body content_type s =
      concluded o later req sent body content_type (on_request o now false req s)
