-- ===== src/Tests/CachePluginTests.antt =====
-- The cache plugin of packages/cache/src/plugin.ts and etag.ts on small inputs. The digest of a body is the body.
use axiomify.Base.{
  String, true, false, Option, none, some, [], ◌∷◌, if◌then◌else◌, ◌===◌, ◌≡◌, refl, inr, arith,
}
use axiomify.JsMap
use axiomify.Texts.{
  contains, cut, trim, trim_start, trim_end, is_space, char_count, join_comma, join_rest,
}
use axiomify.CacheStore
use axiomify.CacheStore.{MemoryCacheStore, byte_cost}
use axiomify.CacheStore.Calls.{run, apply, run-IsAccounted}
use axiomify.CachePlugin
use axiomify.CachePlugin.{
  CacheOptions, Request, CachedMarker, Served, served, hit, on_request, request_cache_key,
  is_request_eligible, vary_matches,
}
use axiomify.CachePlugin.Bypassing.{credentials_bypass, kept_replayed}
use axiomify.CachePlugin.ETag
use axiomify.CachePlugin.ETag.{
  EtagMode, weak, strong, compute_etag, parse_if_none_match, if_none_match_matches,
}
use axiomify.CachePlugin.Keeping
use axiomify.CachePlugin.Keeping.{Sent, should_store, finish, exchange}
use axiomify.CachePlugin.Parsing.{tag_texts, has_opaque}
use axiomify.CachePlugin.Revalidating.{if_none_match_matches-compute_etag}

program : Unit {0}
unfolding contains cut trim trim_start trim_end is_space char_count join_comma join_rest
    ETag.compute_etag ETag.weakness ETag.opaque_tag ETag.take_token ETag.take_tag ETag.prefixed
    ETag.next_tag ETag.parse_loop ETag.parse_if_none_match ETag.has_star ETag.some_matches
    ETag.candidates_match ETag.if_none_match_matches CachePlugin.vary_part
    CachePlugin.request_cache_key CachePlugin.is_request_eligible CachePlugin.matches_route_prefix
    CachePlugin.vary_holds CachePlugin.vary_matches CachePlugin.present_tag CachePlugin.serve_entry
    CachePlugin.answer_stale CachePlugin.answer_entry CachePlugin.answer_found
    CachePlugin.on_request Keeping.has_text Keeping.has_status Keeping.is_storable
    Keeping.should_store Keeping.vary_values Keeping.vary_of Keeping.sent_tag Keeping.write_through
    Keeping.finish Keeping.concluded Keeping.exchange run apply CacheStore.get CacheStore.set
    CacheStore.evict CacheStore.evict_loop CacheStore.evict_oldest CacheStore.forget_previous
    CacheStore.byte_cost CacheStore.utf16_length CacheStore.new_store JsMap.get JsMap.set
    JsMap.delete
program = tt

-- A list of tags in one header, one of them with a comma in it and one without quotes.
tags_read : parse_if_none_match "W/\"a,b\", \"c\" , d,*" ≡ "W/\"a,b\"" ∷ "\"c\"" ∷ "d" ∷ "*" ∷ []
unfolding program
tags_read = refl

abbrev digest : String → String
digest body = body

if_none_match_matches-compute_etag_example :
    (parse_if_none_match (join_comma (tag_texts ((true, "a,b") ∷ (false, "c") ∷ [])))
      ≡ tag_texts ((true, "a,b") ∷ (false, "c") ∷ []))
    × (if_none_match_matches
          (some (tag_texts ((true, "a,b") ∷ (false, "c") ∷ [])))
          (some (compute_etag digest "c" weak))
        ≡ has_opaque ((true, "a,b") ∷ (false, "c") ∷ []) "c")
unfolding contains
if_none_match_matches-compute_etag_example =
    if_none_match_matches-compute_etag ((true, "a,b") ∷ (false, "c") ∷ []) digest "c" weak
      (refl, (refl, tt))

abbrev options : CacheOptions
options = record {
  default_ttl = 30;
  stale_while_revalidate = 0;
  etag = some weak;
  routes = "/api" ∷ [];
  vary_headers = [];
  cache_private = false;
  cacheable_statuses = 200 ∷ 203 ∷ 301 ∷ 404 ∷ [];
  refresh_lock_ttl = 30;
}

abbrev no_header : String → Option String
no_header name = none

abbrev only_cookie : String → Option String
only_cookie name = if name === "cookie" then some "id=7" else none

abbrev request : (String → Option String) → Request
request header = record {
  method = "GET";
  path = "/api/x";
  query = "";
  header = header;
  if_none_match = none;
}

abbrev sent : Sent
sent = record {
  status = 200;
  saw_set_cookie = false;
  content_encoding = none;
  cache_control = "";
  etag = none;
  marker = none;
}

abbrev store : MemoryCacheStore
store = run [] (CacheStore.new_store none none)

credentials_bypass_example :
    exchange digest options 1000 1010 (request only_cookie) sent "hi" "text/plain" store
    ≡ (store, none)
credentials_bypass_example =
    credentials_bypass digest options 1000 1010 (request only_cookie) sent "hi" "text/plain" store
      refl (inr refl)

abbrev in_english : String → Option String
in_english name = if name === "accept-language" then some "en" else none

-- The route names the header of the language.
abbrev varied : Sent
varied = record sent {
  marker = some (record { ttl = none; swr = none; vary_headers = "accept-language" ∷ [] });
}

kept_replayed_example :
    (answer : Served) × ((on_request options 2000 false
        (request in_english)
        (finish digest options 1000
          (request in_english)
          true
          false
          varied
          "hi"
          "text/plain"
          store).0).1
      ≡ served answer)
    × (answer.x_cache ≡ hit)
    × (answer.status ≡ 200)
    × (answer.payload ≡ (if "GET" === "HEAD" then "" else "hi"))
    × (answer.content_type ≡ some "text/plain")
unfolding program
kept_replayed_example =
    kept_replayed digest options 1000 2000 (request in_english) (request in_english) false varied
      "hi" "text/plain" 30 0 store (run-IsAccounted none none []) (omega arith) (omega arith) refl
      refl refl refl refl (refl, tt) refl (omega arith)
