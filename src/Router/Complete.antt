-- ===== src/Router/Complete.antt =====
-- `lookup` of packages/core/src/router.ts misses no route that the trie holds.
use axiomify.Base.{
  String, true, Option, none, some, List, [], ◌∷◌, ◌++◌, if◌then◌else◌, ◌===◌, ◌≡◌, ◌≢◌, refl,
  arith, eq_iff, inl, inr, Option-cases, Bool-cases, ◌∙◌, ap,
}
use axiomify.JsMap
use axiomify.Router.{
  RouteDefinition, TrieNode, node, Nodes, nil, entry, static, param, wildcard, join, Params,
  payload, or_else, lookup_node, lookup_static, lookup_param, lookup_wildcard, Router, segments,
  lookup, matched, write_params,
}
use axiomify.Router.Patterns.{Pattern, get_child, IsChild, Holds, match}
use axiomify.Router.Matching.{Serves, lookup_node-IsServed}

or_else-ne_left {ℓ} : {A : Type ℓ} (o o' : Option A) → o ≢ none → or_else o o' ≢ none
or_else-ne_left none o' h = λ e. h refl
or_else-ne_left (some a) o' h = λ e. cc

or_else-ne_right {ℓ} : {A : Type ℓ} (o o' : Option A) → o' ≢ none → or_else o o' ≢ none
or_else-ne_right none o' h = h
or_else-ne_right (some a) o' h = λ e. cc

payload-ne-none :
    (method m : String) (rs : List (String × RouteDefinition)) (route : RouteDefinition)
    → Serves method m
    → JsMap.get m rs ≡ some route
    → payload method rs ≢ none
unfolding payload
payload-ne-none method m rs route (inl own) h =
    or_else-ne_left (JsMap.get method rs) _ (λ e. cc (ap (λ k. JsMap.get k rs) own, h, e))
payload-ne-none method m rs route (inr (head, get)) h =
    let is_head : (method === "HEAD") ≡ true = (eq_iff method "HEAD").1 head in
    or_else-ne_right (JsMap.get method rs) (if method === "HEAD" then JsMap.get "GET" rs else none)
      (rw is_head (λ e. cc (ap (λ k. JsMap.get k rs) get, h, e)))

lookup_static-child :
    (ch : Nodes) (seg : String) (segs : List String) (method : String) (accum : Params)
    (n : TrieNode)
    → get_child seg ch ≡ some n
    → lookup_static ch seg segs method accum ≡ lookup_node n segs method accum
unfolding lookup_static get_child
lookup_static-child nil seg segs method accum n h = absurd (cc)
lookup_static-child (entry k n' more) seg segs method accum n h =
    ground (arith, lookup_static-child more seg segs method accum n)

lookup_param-child :
    (ps : Nodes) (seg : String) (segs : List String) (method : String) (accum : Params)
    (n : TrieNode) (key : String)
    → IsChild key n ps
    → ((extended : Params) → lookup_node n segs method extended ≢ none)
    → lookup_param ps seg segs method accum ≢ none
unfolding lookup_param
lookup_param-child nil seg segs method accum n key c h = absurd c
lookup_param-child (entry k n' more) seg segs method accum n key (inl (_, same)) h =
    or_else-ne_left (lookup_node n' segs method (accum ++ (k, seg) ∷ [])) _
      (rw same (h (accum ++ (k, seg) ∷ [])))
lookup_param-child (entry k n' more) seg segs method accum n key (inr c) h =
    or_else-ne_right _ _ (lookup_param-child more seg segs method accum n key c h)

pub lookup_node-ne-none :
    (p : Pattern) (t : TrieNode) (segs : List String) (method m : String) (route : RouteDefinition)
    → Serves method m
    → Holds t p m route
    → match p segs ≢ none
    → (accum : Params) → lookup_node t segs method accum ≢ none
unfolding lookup_node match lookup_wildcard
lookup_node-ne-none [] (node ch ps w rs) [] method m route s h e accum =
    ground (arith, payload-ne-none method m rs route s h)
lookup_node-ne-none [] (node ch ps w rs) (seg ∷ segs) method m route s h e accum = absurd (e refl)
lookup_node-ne-none (k ∷ p) (node ch ps w rs) [] method m route s h e accum = absurd (e refl)
lookup_node-ne-none (static key ∷ p) (node ch ps w rs) (seg ∷ segs) method m route s (n, c, h) e
      accum =
    elim (Bool-cases (key === seg)) [
      | inl same ↦
          let p' : key ≡ seg = (eq_iff key seg).0 same in
          or_else-ne_left (lookup_static ch seg segs method accum) _ (
            rw (lookup_static-child ch seg segs method accum n (rw p' at c))
              (lookup_node-ne-none p n segs method m route s h (ground arith) accum))
      | inr diff ↦ absurd (e (rw diff))
    ]
lookup_node-ne-none (param key ∷ p) (node ch ps w rs) (seg ∷ segs) method m route s (n, c, h) e
      accum =
    or_else-ne_right _ _ (
      or_else-ne_left _ _ (
        lookup_param-child ps seg segs method accum n key c
          (lookup_node-ne-none p n segs method m route s h (ground arith))))
lookup_node-ne-none (wildcard ∷ p) (node ch ps w rs) (seg ∷ segs) method m route s (n, c, h) e
      accum =
    or_else-ne_right _ _ (
      or_else-ne_right _ (lookup_wildcard w (join (seg ∷ segs)) method accum) (
        rw c (
          lookup_node-ne-none p n [] method m route s h (ground arith)
            (accum ++ ("*", join (seg ∷ segs)) ∷ []))))

-- A route that the trie holds at a pattern which matches the segments, under a method that serves the
-- request.
pub record Serving (t : TrieNode) (segs : List String) (method : String) (route : RouteDefinition)
    (params : Params) : Type 0 where
  pub pattern : Pattern
  pub served : String
  pub serves : Serves method served
  pub holds : Holds t pattern served route
  pub matches : match pattern segs ≡ some params

-- A request that is matched is handed a route which the trie holds for its method, at a pattern that
-- matches its path, and the parameters object with the pattern's parameters written over it.
pub lookup-Serving :
    (method path : String) (out : Params) (r : Router) (route : RouteDefinition) (found : Params)
    → lookup method path out r ≡ matched route found
    → (params : Params) × (found ≡ write_params params out)
      × Serving r.root (segments path) method route params
unfolding lookup
lookup-Serving method path out r route found h =
    elim (Option-cases (lookup_node r.root (segments path) method [])) [
      | inl e ↦ absurd (ground arith)
      | inr ((route', accum), e) ↦
          let s = lookup_node-IsServed method route' accum r.root (segments path) [] e in
          let same : route' ≡ route = ground arith in
          let written : found ≡ write_params accum out = ground arith in
          (
            s.params,
            written ∙ ap (λ ps. write_params ps out) s.collected,
            rw (← same) (record {
              pattern = s.pattern;
              served = s.served;
              serves = s.serves;
              holds = s.holds;
              matches = s.matches;
            }),
          )
    ]

-- Where the trie holds a route for the method at a pattern that matches the path, the request is
-- matched: it is answered neither "not found" nor "method not allowed".
pub lookup-matched :
    (method path : String) (out : Params) (r : Router) (route : RouteDefinition) (params : Params)
    → Serving r.root (segments path) method route params
    → (found : RouteDefinition) × (ps : Params) × (lookup method path out r ≡ matched found ps)
unfolding lookup
lookup-matched method path out r route params s =
    elim (Option-cases (lookup_node r.root (segments path) method [])) [
      | inl e ↦ absurd (
          lookup_node-ne-none s.pattern r.root (segments path) method s.served route s.serves
            s.holds (λ none_there. cc (none_there, s.matches)) [] e)
      | inr ((found, accum), e) ↦ (found, write_params accum out, ground (arith, e))
    ]
