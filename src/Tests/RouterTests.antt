-- ===== src/Tests/RouterTests.antt =====
-- The router of packages/core/src/router.ts at a few routes.
use axiomify.Base.{String, ◌⊎◌, ◌↔◌, none, some, List, [], ◌∷◌, ◌≡◌, refl, inl, inr}
use axiomify.JsMap
use axiomify.Router
use axiomify.Router.{
  RouteDefinition, TrieNode, Kind, static, param, wildcard, LookupResult, matched,
  method_not_allowed, not_found, segments, lookup, new_router, register, Router, insert_route,
  collision, wildcard_not_last, conflict, Params, write_params, new_node,
}
use axiomify.Router.Patterns.{match, kinds}
use axiomify.Router.Matching.{Serves}
use axiomify.Router.Registration.{insert_route-Adds}
use axiomify.Router.Registration.Children.{Adds}
use axiomify.Router.Members.{IsMember}
use axiomify.Router.Refusing.{IsOffered, lookup_allowed_iff}
use axiomify.Router.Serving.{register_all, IsIn, pattern_of, lookup_sound, lookup_complete}

program : Unit {0}
unfolding Router.split Router.rest_of Router.kind_of segments Router.join Router.update_child
    Router.update_wildcard Router.add_route Router.in_static Router.in_param Router.in_wildcard
    insert_route new_router Router.star_params Router.normalize register Router.payload
    Router.lookup_node Router.lookup_static Router.lookup_param Router.lookup_wildcard
    Router.includes Router.add_all Router.collect_allowed Router.collect_static Router.collect_param
    Router.collect_wildcard write_params Router.with_head lookup register_all match JsMap.get
    JsMap.set
program = tt

abbrev show_user : RouteDefinition
show_user = record { method = "GET"; path = "/users/:id"; handler = 1 }

abbrev me : RouteDefinition
me = record { method = "GET"; path = "/users/me"; handler = 2 }

abbrev files : RouteDefinition
files = record { method = "POST"; path = "/files/*"; handler = 3 }

abbrev routes : List RouteDefinition
routes = show_user ∷ me ∷ files ∷ []

filled : Router
unfolding program
filled = elim (register_all routes (new_router none)) [ some r ↦ r | none ↦ new_router none ]

-- A static segment comes before a parameter, HEAD is served by GET, and `*` takes the rest.
lookups :
    (lookup "HEAD" "/users/me" [] filled ≡ matched me [])
    × (lookup "GET" "/users/7" [] filled ≡ matched show_user (("id", "7") ∷ []))
    × (lookup "POST" "/files/a/b" [] filled ≡ matched files (("*", "a/b") ∷ []))
    × (lookup "POST" "/users/7" [] filled ≡ method_not_allowed ("GET" ∷ "HEAD" ∷ []))
    × (lookup "GET" "/nowhere" [] filled ≡ not_found)
unfolding program filled
lookups = (refl, refl, refl, refl, refl)

refusals :
    ((register me filled).1 ≡ some collision)
    × ((register (record { method = "GET"; path = "/*/x"; handler = 4 }) filled).1
        ≡ some wildcard_not_last)
    × ((register (record { method = "GET"; path = "/users/:name"; handler = 5 }) filled).1
        ≡ some conflict)
unfolding program filled
refusals = (refl, refl, refl)

lookup_sound_example :
    IsIn show_user routes
    × Serves "HEAD" "GET"
    × ((params : Params) × (match (pattern_of show_user) (segments "/users/7") ≡ some params)
        × ((("id", "7") ∷ []) ≡ write_params params []))
unfolding program filled
lookup_sound_example =
    lookup_sound none routes filled "HEAD" "/users/7" [] (("id", "7") ∷ []) show_user refl refl

lookup_complete_example :
    (found : RouteDefinition) × (ps : Params) × (lookup "POST" "/files/a" [] filled
      ≡ matched found ps)
unfolding program filled
lookup_complete_example =
    lookup_complete none routes filled "POST" "/files/a" [] (("*", "a") ∷ []) files refl
      (inr (inr (inl refl))) (inl refl) refl

insert_route-Adds_example :
    Adds (kinds ("a" ∷ [])) me new_node (insert_route me ("a" ∷ []) new_node).0
unfolding program
insert_route-Adds_example = insert_route-Adds me ("a" ∷ []) new_node refl

lookup_allowed_iff_example : IsMember "HEAD" ("GET" ∷ "HEAD" ∷ []) ↔ (
    IsOffered routes "/users/7" "HEAD"
    ⊎ ((◌≡◌ {A = String} "HEAD" "HEAD") × IsOffered routes "/users/7" "GET"))
unfolding program filled
lookup_allowed_iff_example =
    lookup_allowed_iff none routes filled "POST" "/users/7" [] ("GET" ∷ "HEAD" ∷ []) "HEAD" refl
      refl
