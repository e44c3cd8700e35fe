-- ===== src/Router/Refusing.antt =====
-- The answers of packages/core/src/router.ts to a request that no route serves, for a router that was
-- filled by `register`.
use axiomify.Base.{
  String, Bool, true, Option, none, some, List, [], ◌∷◌, ◌≡◌, ◌≢◌, ◌⊎◌, ◌↔◌, refl, arith, inl, inr,
  Option-cases, sym,
}
use mathlib.Core.Path.{subst}
use axiomify.Router.{
  RouteDefinition, Router, new_router, segments, lookup, method_not_allowed, not_found, Params,
  collect_allowed, with_head, is_empty,
}
use axiomify.Router.Patterns.{match}
use axiomify.Router.Members.{IsMember, with_head-IsMember}
use axiomify.Router.Allowed.{Allows, collect_allowed_iff}
use axiomify.Router.Serving.{register_all, IsIn, pattern_of, registered}

-- A route of the list has the method, and its pattern matches the path.
abbrev pub IsOffered : List RouteDefinition → String → String → Type 0
IsOffered routes path m =
    (route : RouteDefinition) × IsIn route routes
    × (route.method ≡ m)
    × (match (pattern_of route) (segments path) ≢ none)

module _ (throws : Option Bool) (routes : List RouteDefinition) (r : Router)
    (filled : register_all routes (new_router throws) ≡ some r) (path : String) where
  IsOffered-Allows : (m : String) → Allows m r.root (segments path) → IsOffered routes path m
  IsOffered-Allows m a =
      let (listed, pp, mm) = (registered throws routes r filled a.pattern m a.route).0 a.holds in
      (
        a.route,
        listed,
        sym mm,
        λ e. cc (subst (λ p. match p (segments path) ≡ some a.params) pp a.matches, e),
      )

  Allows-IsOffered : (m : String) → IsOffered routes path m → Allows m r.root (segments path)
  Allows-IsOffered m (route, listed, mm, e) =
      elim (Option-cases (match (pattern_of route) (segments path))) [
        | inl missing ↦ absurd (e missing)
        | inr (params, found) ↦ record {
          pattern = pattern_of route;
          route = route;
          params = params;
          holds =
              (registered throws routes r filled (pattern_of route) m route).1
                (listed, refl, sym mm);
          matches = found;
        }
      ]

  collected_iff :
      (m : String) → IsMember m (collect_allowed r.root (segments path)) ↔ IsOffered routes path m
  collected_iff m =
      let (to, from) = collect_allowed_iff m r.root (segments path) in
      (λ h. IsOffered-Allows m (to h), λ o. from (Allows-IsOffered m o))

not-IsMember_of_empty : (m : String) (ms : List String) → is_empty ms ≡ true → ¬ IsMember m ms
not-IsMember_of_empty m [] e h = h
not-IsMember_of_empty m (x ∷ ms) e h = cc e

-- A request that is answered method not allowed is told exactly the methods of the registered routes
-- whose pattern matches the path, and HEAD where GET is among them.
pub lookup_allowed_iff :
    (throws : Option Bool) (routes : List RouteDefinition) (r : Router) (method path : String)
    (out : Params) (allowed : List String) (m : String)
    → register_all routes (new_router throws) ≡ some r
    → lookup method path out r ≡ method_not_allowed allowed
    → IsMember m allowed ↔ (IsOffered routes path m ⊎ ((m ≡ "HEAD") × IsOffered routes path "GET"))
unfolding lookup
lookup_allowed_iff throws routes r method path out allowed m filled h =
    let e : allowed ≡ with_head (collect_allowed r.root (segments path)) = ground arith in
    let (to, from) = with_head-IsMember m (collect_allowed r.root (segments path)) in
    let (own_to, own_from) = collected_iff throws routes r filled path m in
    let (get_to, get_from) = collected_iff throws routes r filled path "GET" in
    rw e (
      λ k. elim (to k) [ inl a ↦ inl (own_to a) | inr (hd, a) ↦ inr (hd, get_to a) ],
      λ k. elim k [ inl a ↦ from (inl (own_from a)) | inr (hd, a) ↦ from (inr (hd, get_from a)) ],
    )

-- A request is answered not found only where the pattern of no registered route matches the path,
-- whatever its method.
pub lookup_not_found :
    (throws : Option Bool) (routes : List RouteDefinition) (r : Router) (method path : String)
    (out : Params) (route : RouteDefinition)
    → register_all routes (new_router throws) ≡ some r
    → lookup method path out r ≡ not_found
    → IsIn route routes
    → match (pattern_of route) (segments path) ≡ none
unfolding lookup
lookup_not_found throws routes r method path out route filled h listed =
    let e : is_empty (collect_allowed r.root (segments path)) ≡ true = ground arith in
    elim (Option-cases (match (pattern_of route) (segments path))) [
      | inl missing ↦ missing
      | inr (params, found) ↦ absurd (
          not-IsMember_of_empty route.method (collect_allowed r.root (segments path)) e (
            (collected_iff throws routes r filled path route.method).1
              (route, listed, refl, λ n. cc (n, found))))
    ]
