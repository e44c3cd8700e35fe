-- ===== src/Router/Serving.antt =====
-- packages/core/src/router.ts end to end: a router filled by `register` serves the routes that were
-- registered.
use axiomify.Base.{
  String, Bool, Option, none, some, List, [], ◌∷◌, ◌≡◌, ◌⊎◌, ◌↔◌, refl, arith, inl, inr,
  Option-cases, ◌∙◌, ap, sym,
}
use mathlib.Core.Path.{subst}
use axiomify.Router.{
  RouteDefinition, Router, new_router, register, insert_route, segments, lookup, matched, Params,
  write_params,
}
use axiomify.Router.Patterns.{Pattern, kinds, Holds, match}
use axiomify.Router.Matching.{Serves}
use axiomify.Router.Complete.{lookup-Serving, lookup-matched}
use axiomify.Router.Registration.{insert_route-Adds}
use axiomify.Router.Registration.Children.{new_node-Holds}

-- The pattern of a route.
abbrev pub pattern_of : RouteDefinition → Pattern
pattern_of route = kinds (segments route.path)

-- Registration of a list of routes, with `none` where one of them throws.
unfoldable pub register_all : List RouteDefinition → Router → Option Router
register_all [] r = some r
register_all (route ∷ routes) r = elim (register route r).1 [
  | none ↦ register_all routes (register route r).0
  | some _ ↦ none
]

-- The route is in the list.
abbrev pub IsIn : RouteDefinition → List RouteDefinition → Type 0
IsIn route [] = ⊥
IsIn route (x ∷ xs) = (route ≡ x) ⊎ IsIn route xs

register-insert :
    (route : RouteDefinition) (r : Router)
    → (register route r).1 ≡ none
    → ((register route r).0.root ≡ (insert_route route (segments route.path) r.root).0)
      × ((insert_route route (segments route.path) r.root).1 ≡ none)
unfolding register
register-insert route r h = ground arith

register_all-Holds :
    (routes : List RouteDefinition) (r r' : Router)
    → register_all routes r ≡ some r'
    → (p : Pattern) (m : String) (route : RouteDefinition)
    → Holds r'.root p m route
      ↔ (Holds r.root p m route ⊎ (IsIn route routes × (p ≡ pattern_of route) × (m ≡ route.method)))
unfolding register_all
register_all-Holds [] r r' h p m route =
    let e : r ≡ r' = ground arith in
    (
      λ k. inl (subst (λ x. Holds x.root p m route) (sym e) k),
      λ k. elim k [
        | inl old ↦ subst (λ x. Holds x.root p m route) e old
        | inr (nowhere, _, _) ↦ absurd nowhere
      ],
    )
register_all-Holds (x ∷ routes) r r' h p m route = elim (Option-cases (register x r).1) [
  | inl e ↦
      let (root, fine) = register-insert x r e in
      let (to, from) = register_all-Holds routes (register x r).0 r' (ground arith) p m route in
      let (to', from') = insert_route-Adds x (segments x.path) r.root fine p m route in
      (
        λ h. elim (to h) [
          | inl now ↦ elim (to' (subst (λ n. Holds n p m route) root now)) [
            | inl old ↦ inl old
            | inr (pp, mm, own) ↦ inr (
              inl own,
              pp ∙ ap pattern_of (sym own),
              mm ∙ ap (λ (t : RouteDefinition). t.method) (sym own),
            )
          ]
          | inr (later, pp, mm) ↦ inr (inr later, pp, mm)
        ],
        λ h. elim h [
          | inl old ↦ from (inl (subst (λ n. Holds n p m route) (sym root) (from' (inl old))))
          | inr (inl own, pp, mm) ↦
              let new = from' (
                inr
                  (pp ∙ ap pattern_of own, mm ∙ ap (λ (t : RouteDefinition). t.method) own, own)) in
              from (inl (subst (λ n. Holds n p m route) (sym root) new))
          | inr (inr later, pp, mm) ↦ from (inr (later, pp, mm))
        ],
      )
  | inr (err, e) ↦ absurd (ground arith)
]

-- The routes of a router that was filled from a new one.
pub registered :
    (throws : Option Bool) (routes : List RouteDefinition) (r : Router)
    → register_all routes (new_router throws) ≡ some r
    → (p : Pattern) (m : String) (route : RouteDefinition)
    → Holds r.root p m route ↔ (IsIn route routes × (p ≡ pattern_of route) × (m ≡ route.method))
unfolding new_router
registered throws routes r h p m route =
    let (to, from) = register_all-Holds routes (new_router throws) r h p m route in
    (
      λ k. elim (to k) [
        | inl nothing ↦ absurd (new_node-Holds p m route nothing)
        | inr listed ↦ listed
      ],
      λ listed. from (inr listed),
    )

-- What a router that was filled by `register` hands to the dispatcher is one of the registered routes,
-- whose method serves the request's (its own, or GET for HEAD) and whose pattern matches the path; the
-- parameters are those of the pattern, written over the given object.
pub lookup_sound :
    (throws : Option Bool) (routes : List RouteDefinition) (r : Router) (method path : String)
    (out found : Params) (route : RouteDefinition)
    → register_all routes (new_router throws) ≡ some r
    → lookup method path out r ≡ matched route found
    → IsIn route routes
      × Serves method route.method
      × ((params : Params) × (match (pattern_of route) (segments path) ≡ some params)
          × (found ≡ write_params params out))
lookup_sound throws routes r method path out found route filled h =
    let (params, written, s) = lookup-Serving method path out r route found h in
    let (listed, pp, mm) = (registered throws routes r filled s.pattern s.served route).0 s.holds in
    (
      listed,
      subst (λ m. Serves method m) mm s.serves,
      (params, subst (λ p. match p (segments path) ≡ some params) pp s.matches, written),
    )

-- If a registered route's method serves the request's and its pattern matches the path, then the
-- request is matched by some route: the answer is neither not found nor method not allowed.
pub lookup_complete :
    (throws : Option Bool) (routes : List RouteDefinition) (r : Router) (method path : String)
    (out params : Params) (route : RouteDefinition)
    → register_all routes (new_router throws) ≡ some r
    → IsIn route routes
    → Serves method route.method
    → match (pattern_of route) (segments path) ≡ some params
    → (found : RouteDefinition) × (ps : Params) × (lookup method path out r ≡ matched found ps)
lookup_complete throws routes r method path out params route filled listed serves h =
    lookup-matched method path out r route params (record {
      pattern = pattern_of route;
      served = route.method;
      serves = serves;
      holds =
          (registered throws routes r filled (pattern_of route) route.method route).1
            (listed, refl, refl);
      matches = h;
    })
