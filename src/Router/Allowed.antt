-- ===== src/Router/Allowed.antt =====
-- The methods that packages/core/src/router.ts allows for a path: `_collectAllowed` and the answer of
-- `lookup` where nothing is matched.
use axiomify.Base.{
  String, none, some, List, [], ◌∷◌, ◌===◌, ◌≡◌, ◌≢◌, ◌⊎◌, ◌↔◌, refl, arith, eq_iff, inl, inr,
  Bool-cases, sym, ===_refl,
}
use mathlib.Core.Path.{subst}
use axiomify.Router.{
  RouteDefinition, TrieNode, node, Nodes, nil, entry, MaybeNode, absent, present, Kind, static,
  param, wildcard, Params, includes, add_all, methods_of, collect_allowed, collect_static,
  collect_param, collect_wildcard,
}
use axiomify.Router.Patterns.{Pattern, get_child, IsChild, Holds, match}
use axiomify.Router.Members.{IsMember, add_all-IsMember, methods_of-IsMember}

-- The node holds a route for the method at a pattern that matches the segments.
pub record Allows (m : String) (t : TrieNode) (segs : List String) : Type 0 where
  pub pattern : Pattern
  pub route : RouteDefinition
  pub params : Params
  pub holds : Holds t pattern m route
  pub matches : match pattern segs ≡ some params

module _ (m : String) where
  mutual
    unfolding collect_allowed collect_static collect_param collect_wildcard match get_child

    collect_allowed-Allows :
        (t : TrieNode) (segs : List String) → IsMember m (collect_allowed t segs) → Allows m t segs
    collect_allowed-Allows (node ch ps w rs) [] h =
        let (r, held) = (methods_of-IsMember m rs).0 h in
        record { pattern = []; route = r; params = []; holds = held; matches = refl }
    collect_allowed-Allows (node ch ps w rs) (seg ∷ segs) h = elim (collect_wildcard-Allows w _ h) [
      | inr (n, c, a) ↦ record {
        pattern = wildcard ∷ a.pattern;
        route = a.route;
        params = ("*", axiomify.Router.join (seg ∷ segs)) ∷ a.params;
        holds = (n, c, a.holds);
        matches = ground (arith, a.matches);
      }
      | inl h₁ ↦ elim (collect_param-Allows ps segs _ h₁) [
        | inr (key, n, c, a) ↦ record {
          pattern = param key ∷ a.pattern;
          route = a.route;
          params = (key, seg) ∷ a.params;
          holds = (n, c, a.holds);
          matches = ground (arith, a.matches);
        }
        | inl h₂ ↦ elim (collect_static-Allows ch seg segs [] h₂) [
          | inr (n, c, a) ↦ record {
            pattern = static seg ∷ a.pattern;
            route = a.route;
            params = a.params;
            holds = (n, c, a.holds);
            matches = rw (===_refl seg) a.matches;
          }
          | inl nowhere ↦ absurd nowhere
        ]
      ]
    ]

    collect_static-Allows :
        (ch : Nodes) (seg : String) (segs methods : List String)
        → IsMember m (collect_static ch seg segs methods)
        → IsMember m methods ⊎ ((n : TrieNode) × (get_child seg ch ≡ some n) × Allows m n segs)
    collect_static-Allows nil seg segs methods h = inl h
    collect_static-Allows (entry k n more) seg segs methods h = elim (Bool-cases (k === seg)) [
      | inl same ↦
          elim ((add_all-IsMember m methods (collect_allowed n segs)).0
            (rw (same, collect_static) at h)) [
              | inl old ↦ inl old
              | inr new ↦ inr (n, rw same, collect_allowed-Allows n segs new)
            ]
      | inr other ↦
          elim (collect_static-Allows more seg segs methods (rw (other, collect_static) at h)) [
            | inl old ↦ inl old
            | inr (n', c, a) ↦ inr (n', rw other c, a)
          ]
    ]

    collect_param-Allows :
        (ps : Nodes) (segs methods : List String)
        → IsMember m (collect_param ps segs methods)
        → IsMember m methods
          ⊎ ((key : String) × (n : TrieNode) × IsChild key n ps × Allows m n segs)
    collect_param-Allows nil segs methods h = inl h
    collect_param-Allows (entry k n more) segs methods h =
        elim (collect_param-Allows more segs (add_all methods (collect_allowed n segs)) h) [
          | inl h₁ ↦ elim ((add_all-IsMember m methods (collect_allowed n segs)).0 h₁) [
            | inl old ↦ inl old
            | inr new ↦ inr (k, n, inl (refl, refl), collect_allowed-Allows n segs new)
          ]
          | inr (key, n', c, a) ↦ inr (key, n', inr c, a)
        ]

    collect_wildcard-Allows :
        (w : MaybeNode) (methods : List String)
        → IsMember m (collect_wildcard w methods)
        → IsMember m methods ⊎ ((n : TrieNode) × (w ≡ present n) × Allows m n [])
    collect_wildcard-Allows absent methods h = inl h
    collect_wildcard-Allows (present n) methods h =
        elim ((add_all-IsMember m methods (collect_allowed n [])).0 h) [
          | inl old ↦ inl old
          | inr new ↦ inr (n, refl, collect_allowed-Allows n [] new)
        ]

  collect_static_old :
      (ch : Nodes) (seg : String) (segs methods : List String)
      → IsMember m methods
      → IsMember m (collect_static ch seg segs methods)
  unfolding collect_static
  collect_static_old nil seg segs methods h = h
  collect_static_old (entry k n more) seg segs methods h = elim (Bool-cases (k === seg)) [
    | inl same ↦
        rw (same, collect_static) ((add_all-IsMember m methods (collect_allowed n segs)).1 (inl h))
    | inr other ↦ rw (other, collect_static) (collect_static_old more seg segs methods h)
  ]

  collect_param_old :
      (ps : Nodes) (segs methods : List String)
      → IsMember m methods
      → IsMember m (collect_param ps segs methods)
  unfolding collect_param
  collect_param_old nil segs methods h = h
  collect_param_old (entry k n more) segs methods h =
      collect_param_old more segs (add_all methods (collect_allowed n segs))
        ((add_all-IsMember m methods (collect_allowed n segs)).1 (inl h))

  collect_wildcard_old :
      (w : MaybeNode) (methods : List String)
      → IsMember m methods
      → IsMember m (collect_wildcard w methods)
  unfolding collect_wildcard
  collect_wildcard_old absent methods h = h
  collect_wildcard_old (present n) methods h =
      (add_all-IsMember m methods (collect_allowed n [])).1 (inl h)

  collect_static_new :
      (ch : Nodes) (seg : String) (segs methods : List String) (n : TrieNode)
      → get_child seg ch ≡ some n
      → IsMember m (collect_allowed n segs)
      → IsMember m (collect_static ch seg segs methods)
  unfolding collect_static get_child
  collect_static_new nil seg segs methods n c h = absurd (cc c)
  collect_static_new (entry k n' more) seg segs methods n c h = elim (Bool-cases (k === seg)) [
    | inl same ↦
        let nn : n ≡ n' = ground arith in
        rw (same, collect_static)
          ((add_all-IsMember m methods (collect_allowed n' segs)).1
            (inr (subst (λ t. IsMember m (collect_allowed t segs)) nn h)))
    | inr other ↦
        rw (other, collect_static) (collect_static_new more seg segs methods n (rw other at c) h)
  ]

  collect_param_new :
      (ps : Nodes) (segs methods : List String) (n : TrieNode) (key : String)
      → IsChild key n ps
      → IsMember m (collect_allowed n segs)
      → IsMember m (collect_param ps segs methods)
  unfolding collect_param
  collect_param_new nil segs methods n key c h = absurd c
  collect_param_new (entry k n' more) segs methods n key (inl (_, nn)) h =
      collect_param_old more segs (add_all methods (collect_allowed n' segs)) (
        (add_all-IsMember m methods (collect_allowed n' segs)).1
          (inr (subst (λ t. IsMember m (collect_allowed t segs)) (sym nn) h)))
  collect_param_new (entry k n' more) segs methods n key (inr c) h =
      collect_param_new more segs (add_all methods (collect_allowed n' segs)) n key c h

  collect_wildcard_new :
      (w : MaybeNode) (methods : List String) (n : TrieNode)
      → w ≡ present n
      → IsMember m (collect_allowed n [])
      → IsMember m (collect_wildcard w methods)
  unfolding collect_wildcard
  collect_wildcard_new absent methods n c h = absurd (cc c)
  collect_wildcard_new (present n') methods n c h =
      let nn : n ≡ n' = cc c in
      (add_all-IsMember m methods (collect_allowed n' [])).1
        (inr (subst (λ t. IsMember m (collect_allowed t [])) nn h))

  -- What the trie holds for the segments is among the methods.
  Holds-collect_allowed :
      (p : Pattern) (t : TrieNode) (segs : List String) (route : RouteDefinition)
      → Holds t p m route
      → match p segs ≢ none
      → IsMember m (collect_allowed t segs)
  unfolding collect_allowed match
  Holds-collect_allowed [] (node ch ps w rs) [] route h e = (methods_of-IsMember m rs).1 (route, h)
  Holds-collect_allowed [] (node ch ps w rs) (seg ∷ segs) route h e = absurd (e refl)
  Holds-collect_allowed (k ∷ p) (node ch ps w rs) [] route h e = absurd (e refl)
  Holds-collect_allowed (static key ∷ p) (node ch ps w rs) (seg ∷ segs) route (n, c, h) e =
      elim (Bool-cases (key === seg)) [
        | inl same ↦
            let p' : key ≡ seg = (eq_iff key seg).0 same in
            collect_wildcard_old w _ (
              collect_param_old ps segs _ (
                collect_static_new ch seg segs [] n (rw p' at c)
                  (Holds-collect_allowed p n segs route h (ground arith))))
        | inr diff ↦ absurd (e (rw diff))
      ]
  Holds-collect_allowed (param key ∷ p) (node ch ps w rs) (seg ∷ segs) route (n, c, h) e =
      collect_wildcard_old w _ (
        collect_param_new ps segs _ n key c (Holds-collect_allowed p n segs route h (ground arith)))
  Holds-collect_allowed (wildcard ∷ p) (node ch ps w rs) (seg ∷ segs) route (n, c, h) e =
      collect_wildcard_new w _ n c (Holds-collect_allowed p n [] route h (ground arith))

-- The methods collected for the segments are those of the routes whose pattern matches them.
pub collect_allowed_iff :
    (m : String) (t : TrieNode) (segs : List String)
    → IsMember m (collect_allowed t segs) ↔ Allows m t segs
collect_allowed_iff m t segs = (
  collect_allowed-Allows m t segs,
  λ a. Holds-collect_allowed m a.pattern t segs a.route a.holds (λ e. cc (e, a.matches)),
)
