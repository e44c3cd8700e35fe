-- ===== src/CachePlugin/Bypassing.antt =====
-- packages/cache/src/plugin.ts: requests with credentials pass the cache by, and a kept response is replayed.
use axiomify.Base.{
  ===_refl, List, none, some, [], ◌∷◌, All, ℕ, ◌+◌, ◌-◌, ◌*◌, ◌≤◌, ◌<◌, String, Bool, true, false,
  ◌&&◌, ◌||◌, Option, none, some, if◌then◌else◌, ◌===◌, ◌≡◌, ◌⊎◌, inl, inr, refl, ap, ◌∙◌, arith,
  le→leb,
}
use mathlib.Core.Option
use axiomify.CacheStore
use axiomify.CacheStore.{CacheEntry, MemoryCacheStore, release_refresh_lock, byte_cost}
use axiomify.CacheStore.Accounting.{IsAccounted}
use axiomify.CacheStore.Reading.{get-set}
use axiomify.CachePlugin.{
  vary_holds, CachedMarker, CacheOptions, Request, request_cache_key, is_request_eligible,
  is_present, vary_matches, XCacheValue, hit, tag_of, Served, serve_entry, Answer, ignored, served,
  wrapped, answer_found, answer_entry, on_request, is_not_modified,
}
use axiomify.CachePlugin.ETag.{if_none_match_matches}
use axiomify.CachePlugin.Keeping.{
  vary_values, vary_of, Sent, should_store, sent_tag, entry_of, released, write_through, finish,
  concluded, exchange,
}

finish-ineligible :
    (digest : String → String) (o : CacheOptions) (now : ℕ) (req : Request) (sent : Sent)
    (body content_type : String) (s : MemoryCacheStore)
    → (finish digest o now req false false sent body content_type s).0 ≡ s
unfolding finish should_store write_through
finish-ineligible digest o now req sent body content_type s = ground arith

has_credentials :
    (o : CacheOptions) (req : Request)
    → o.cache_private ≡ false
    → (is_present (req.header "authorization") ≡ true) ⊎ (is_present (req.header "cookie") ≡ true)
    → is_request_eligible o req ≡ false
unfolding is_request_eligible
has_credentials o req p h = ground arith

ineligible :
    (o : CacheOptions) (now : ℕ) (req : Request) (s : MemoryCacheStore)
    → is_request_eligible o req ≡ false
    → (on_request o now false req s ≡ (s, ignored))
      ⊎ (on_request o now false req s ≡ (s, wrapped false false))
unfolding on_request
ineligible o now req s e = ground arith

concluded_same :
    (digest : String → String) (o : CacheOptions) (later : ℕ) (req : Request) (sent : Sent)
    (body content_type : String) (s : MemoryCacheStore) (r : MemoryCacheStore × Answer)
    → (r ≡ (s, ignored)) ⊎ (r ≡ (s, wrapped false false))
    → concluded digest o later req sent body content_type r ≡ (s, none)
unfolding concluded
concluded_same digest o later req sent body content_type s r (inl e) = rw e refl
concluded_same digest o later req sent body content_type s r (inr e) =
    rw e (ap (λ t. (t, none)) (finish-ineligible digest o later req sent body content_type s))

-- Unless private responses are cached, a request with an Authorization or a Cookie header is not answered
-- from the cache, and neither the request nor the response to it changes the store.
pub credentials_bypass :
    (digest : String → String) (o : CacheOptions) (now later : ℕ) (req : Request) (sent : Sent)
    (body content_type : String) (s : MemoryCacheStore)
    → o.cache_private ≡ false
    → (is_present (req.header "authorization") ≡ true) ⊎ (is_present (req.header "cookie") ≡ true)
    → exchange digest o now later req sent body content_type s ≡ (s, none)
unfolding exchange
credentials_bypass digest o now later req sent body content_type s p h =
    concluded_same digest o later req sent body content_type s _
      (ineligible o now req s (has_credentials o req p h))

second_part :
    {A : Type 0} (b : Bool) (x y : A)
    → (if◌then◌else◌ {A = A × Bool} b (x, true) (y, false)).1 ≡ false
    → (if◌then◌else◌ {A = A × Bool} b (x, true) (y, false)).0 ≡ y
second_part true x y n = cc n
second_part false x y n = refl

finish_kept :
    (digest : String → String) (o : CacheOptions) (now : ℕ) (req : Request) (refreshing : Bool)
    (sent : Sent) (body content_type : String) (ttl swr : ℕ) (s : MemoryCacheStore)
    → should_store o req true sent ≡ some (ttl, swr)
    → (finish digest o now req true refreshing sent body content_type s).1 ≡ false
    → (finish digest o now req true refreshing sent body content_type s).0
      ≡ released refreshing (request_cache_key req o.vary_headers) (
          CacheStore.set now
            (request_cache_key req o.vary_headers)
            (entry_of req sent body content_type (sent_tag digest o.etag sent body).0 now ttl swr)
            (ttl + swr)
            s)
unfolding finish write_through
finish_kept digest o now req refreshing sent body content_type ttl swr s e n =
    let key = request_cache_key req o.vary_headers in
    let tag = sent_tag digest o.etag sent body in
    let entry = entry_of req sent body content_type tag.0 now in
    second_part (tag.1 && is_not_modified req tag.0) (released refreshing key s)
      (released refreshing key (write_through now key (should_store o req true sent) entry s)) n
    ∙ ap (λ f. released refreshing key (write_through now key f entry s)) e

get-released :
    (refreshing : Bool) (now : ℕ) (lock key : String) (s : MemoryCacheStore)
    → (CacheStore.get now key (released refreshing lock s)).1 ≡ (CacheStore.get now key s).1
unfolding CacheStore.get release_refresh_lock
get-released refreshing now lock key s = ground arith

answer_found-hit :
    (o : CacheOptions) (now : ℕ) (req : Request) (key : String) (entry : CacheEntry)
    (r : MemoryCacheStore × Option CacheEntry)
    → r.1 ≡ some entry
    → vary_matches entry req ≡ true
    → now ≤ entry.stored_at + entry.ttl_ms
    → (answer_found o now req key r).1
      ≡ served (serve_entry o req entry hit (now - entry.stored_at))
unfolding answer_found answer_entry
answer_found-hit o now req key entry (s, found) g v l =
    rw (g, v, le→leb now (entry.stored_at + entry.ttl_ms) l) refl

unconditional :
    (req : Request) (tag : Option String)
    → req.if_none_match ≡ none
    → is_not_modified req tag ≡ false
unfolding if_none_match_matches
unconditional req none w = refl
unconditional req (some t) w = rw w refl

serve_entry_plain :
    (o : CacheOptions) (req : Request) (entry : CacheEntry) (kind : XCacheValue) (age : ℕ)
    → req.if_none_match ≡ none
    → ((serve_entry o req entry kind age).status ≡ entry.status_code)
      × ((serve_entry o req entry kind age).payload
          ≡ (if req.method === "HEAD" then "" else entry.payload))
      × ((serve_entry o req entry kind age).content_type ≡ some entry.content_type)
unfolding serve_entry
serve_entry_plain o req entry kind age w =
    rw (unconditional req (tag_of o.etag entry) w) (refl, refl, refl)

on_request-hit :
    (o : CacheOptions) (now : ℕ) (req : Request) (entry : CacheEntry) (s : MemoryCacheStore)
    → ((req.method === "GET") || (req.method === "HEAD")) ≡ true
    → is_request_eligible o req ≡ true
    → (CacheStore.get now (request_cache_key req o.vary_headers) s).1 ≡ some entry
    → vary_matches entry req ≡ true
    → now ≤ entry.stored_at + entry.ttl_ms
    → (on_request o now false req s).1
      ≡ served (serve_entry o req entry hit (now - entry.stored_at))
unfolding on_request
on_request-hit o now req entry s m e g v l =
    let key = request_cache_key req o.vary_headers in
    rw (m, e) (answer_found-hit o now req key entry (CacheStore.get now key s) g v l)

-- The headers that the route of the response names.
abbrev pub vary_names : Option CachedMarker → List String
vary_names none = []
vary_names (some m) = m.vary_headers

-- The second request has the values of the first for the headers.
abbrev pub AgreesOn : List String → Request → Request → Type 0
AgreesOn names req other =
    All (λ name. Option.get_or (other.header name) "" ≡ Option.get_or (req.header name) "") names

vary_holds-vary_values :
    (names : List String) (req other : Request)
    → AgreesOn names req other
    → vary_holds (vary_values req names) other ≡ true
unfolding vary_holds vary_values
vary_holds-vary_values [] req other a = refl
vary_holds-vary_values (name ∷ names) req other (e, a) =
    rw (e, ===_refl (Option.get_or (req.header name) ""), vary_holds-vary_values names req other a)
      refl

vary_of-vary_values :
    (names : List String) (m : CachedMarker) (req other : Request) (entry : CacheEntry)
    → m.vary_headers ≡ names
    → entry.vary ≡ vary_of req (some m)
    → AgreesOn names req other
    → vary_matches entry other ≡ true
unfolding vary_matches vary_of
vary_of-vary_values [] m req other entry e v a = rw (v, e) refl
vary_of-vary_values (name ∷ names) m req other entry e v a =
    rw (v, e) (vary_holds-vary_values (name ∷ names) req other a)

vary_matches-vary_of :
    (marker : Option CachedMarker) (req other : Request) (entry : CacheEntry)
    → entry.vary ≡ vary_of req marker
    → AgreesOn (vary_names marker) req other
    → vary_matches entry other ≡ true
unfolding vary_matches vary_of
vary_matches-vary_of none req other entry v a = rw v refl
vary_matches-vary_of (some m) req other entry v a =
    vary_of-vary_values m.vary_headers m req other entry refl v a

-- A response that is sent in full and that the cache keeps answers the next eligible GET or HEAD with the
-- same key, within its time to live, where that request has the same value as the first one of each header
-- that the route names, an absent header counting as empty: with its status, its type and, but for a HEAD,
-- its body. This takes a store in the invariant of its calls that holds at least one entry, an entry
-- within its byte cap, and a request without `If-None-Match`.
pub kept_replayed :
    (digest : String → String) (o : CacheOptions) (now later : ℕ) (req other : Request)
    (refreshing : Bool) (sent : Sent) (body content_type : String) (ttl swr : ℕ)
    (s : MemoryCacheStore)
    → IsAccounted s
    → 0 < s.max_entries
    → byte_cost
        (request_cache_key req o.vary_headers)
        (entry_of req sent body content_type (sent_tag digest o.etag sent body).0 now ttl swr)
      ≤ s.max_bytes
    → should_store o req true sent ≡ some (ttl, swr)
    → (finish digest o now req true refreshing sent body content_type s).1 ≡ false
    → ((other.method === "GET") || (other.method === "HEAD")) ≡ true
    → is_request_eligible o other ≡ true
    → request_cache_key other o.vary_headers ≡ request_cache_key req o.vary_headers
    → AgreesOn (vary_names sent.marker) req other
    → other.if_none_match ≡ none
    → later < now + ttl * 1000
    → (answer : Served) × ((on_request o later false other
          (finish digest o now req true refreshing sent body content_type s).0).1
        ≡ served answer)
      × (answer.x_cache ≡ hit)
      × (answer.status ≡ sent.status)
      × (answer.payload ≡ (if other.method === "HEAD" then "" else body))
      × (answer.content_type ≡ some content_type)
unfolding serve_entry
kept_replayed digest o now later req other refreshing sent body content_type ttl swr s acc room fits
      f n m e k agrees w l =
    let key = request_cache_key req o.vary_headers in
    let entry =
      entry_of req sent body content_type (sent_tag digest o.etag sent body).0 now ttl swr in
    let v = vary_matches-vary_of sent.marker req other entry refl agrees in
    let stored = CacheStore.set now key entry (ttl + swr) s in
    let kept = finish_kept digest o now req refreshing sent body content_type ttl swr s f n in
    let found : (CacheStore.get later (request_cache_key other o.vary_headers)
          (released refreshing key stored)).1
        ≡ some entry =
      rw k (
        get-released refreshing later key key stored
        ∙ get-set now later key entry (ttl + swr) s acc fits room (omega arith)) in
    let answered =
      on_request-hit o later other entry (released refreshing key stored) m e found v
        (omega arith) in
    let (a, b, c) = serve_entry_plain o other entry hit (later - now) w in
    (serve_entry o other entry hit (later - now), rw kept answered, refl, a, b, c)
