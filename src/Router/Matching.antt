-- ===== src/Router/Matching.antt =====
-- `lookup` of packages/core/src/router.ts against the routes that the trie holds.
use axiomify.Base.{
  ===_refl, String, Option, none, some, List, [], ◌∷◌, ◌++◌, ◌===◌, ◌≡◌, ◌⊎◌, refl, arith, eq_iff,
  inl, inr, Option-cases, Bool-cases, append_assoc, append-nil, ◌∙◌, sym,
}
use axiomify.JsMap
use axiomify.Router.{
  RouteDefinition, TrieNode, node, Nodes, nil, entry, MaybeNode, absent, present, static, param,
  wildcard, join, Params, payload, or_else, lookup_node, lookup_static, lookup_param,
  lookup_wildcard,
}
use axiomify.Router.Patterns.{Pattern, get_child, IsChild, Holds, match}

-- The method under which a request is served: its own, or GET for HEAD.
abbrev pub Serves : String → String → Type 0
Serves method m = (m ≡ method) ⊎ ((method ≡ "HEAD") × (m ≡ "GET"))

-- A result of the lookup below a node, with what was accumulated before: a route that the node holds
-- at a pattern which matches the segments, and the pattern's parameters behind the earlier ones.
pub record IsServed (t : TrieNode) (segs : List String) (method : String) (accum : Params)
    (route : RouteDefinition) (found : Params) : Type 0 where
  pub pattern : Pattern
  pub params : Params
  pub served : String
  pub serves : Serves method served
  pub holds : Holds t pattern served route
  pub matches : match pattern segs ≡ some params
  pub collected : found ≡ accum ++ params

or_else-cases {ℓ} :
    {A : Type ℓ} (o o' : Option A) {a : A}
    → or_else o o' ≡ some a
    → (o ≡ some a) ⊎ ((o ≡ none) × (o' ≡ some a))
or_else-cases none o' h = inr (refl, h)
or_else-cases (some b) o' h = inl h

payload-Serves :
    (method : String) (rs : List (String × RouteDefinition)) (route : RouteDefinition)
    → payload method rs ≡ some route
    → (m : String) × Serves method m × (JsMap.get m rs ≡ some route)
unfolding payload
payload-Serves method rs route h = elim (or_else-cases (JsMap.get method rs) _ h) [
  | inl own ↦ (method, inl refl, own)
  | inr (_, other) ↦ elim (Bool-cases (method === "HEAD")) [
    | inl head ↦ ("GET", inr ((eq_iff method "HEAD").0 head, refl), rw head at other)
    | inr not_head ↦ absurd (cc (rw not_head at other))
  ]
]

module _ {method : String} {route : RouteDefinition} {found accum : Params} where
  end-IsServed :
      (ch ps : Nodes) (w : MaybeNode) (rs : List (String × RouteDefinition))
      → payload method rs ≡ some route
      → found ≡ accum
      → IsServed (node ch ps w rs) [] method accum route found
  unfolding match
  end-IsServed ch ps w rs e f =
      let (m, serves, held) = payload-Serves method rs route e in
      record {
        pattern = [];
        params = [];
        served = m;
        serves = serves;
        holds = held;
        matches = refl;
        collected = f ∙ sym (append-nil accum);
      }

  static-IsServed :
      {n : TrieNode} {ch : Nodes} (ps : Nodes) (w : MaybeNode)
      (rs : List (String × RouteDefinition)) {seg : String} {segs : List String}
      → get_child seg ch ≡ some n
      → IsServed n segs method accum route found
      → IsServed (node ch ps w rs) (seg ∷ segs) method accum route found
  unfolding match
  static-IsServed {n} ps w rs {seg} c s = record {
    pattern = static seg ∷ s.pattern;
    params = s.params;
    served = s.served;
    serves = s.serves;
    holds = (n, c, s.holds);
    matches = rw (===_refl seg) s.matches;
    collected = s.collected;
  }

  param-IsServed :
      {n : TrieNode} (ch : Nodes) {ps : Nodes} (w : MaybeNode)
      (rs : List (String × RouteDefinition)) (key : String) {seg : String} {segs : List String}
      → IsChild key n ps
      → IsServed n segs method (accum ++ (key, seg) ∷ []) route found
      → IsServed (node ch ps w rs) (seg ∷ segs) method accum route found
  unfolding match
  param-IsServed {n} ch w rs key {seg} c s = record {
    pattern = param key ∷ s.pattern;
    params = (key, seg) ∷ s.params;
    served = s.served;
    serves = s.serves;
    holds = (n, c, s.holds);
    matches = ground (arith, s.matches);
    collected = s.collected ∙ append_assoc accum ((key, seg) ∷ []) s.params;
  }

  wildcard-IsServed :
      {n : TrieNode} (ch ps : Nodes) {w : MaybeNode} (rs : List (String × RouteDefinition))
      {seg : String} {segs : List String}
      → w ≡ present n
      → IsServed n [] method (accum ++ ("*", join (seg ∷ segs)) ∷ []) route found
      → IsServed (node ch ps w rs) (seg ∷ segs) method accum route found
  unfolding match
  wildcard-IsServed {n} ch ps rs {seg} {segs} c s = record {
    pattern = wildcard ∷ s.pattern;
    params = ("*", join (seg ∷ segs)) ∷ s.params;
    served = s.served;
    serves = s.serves;
    holds = (n, c, s.holds);
    matches = ground (arith, s.matches);
    collected = s.collected ∙ append_assoc accum (("*", join (seg ∷ segs)) ∷ []) s.params;
  }

module _ (method : String) (route : RouteDefinition) (found : Params) where
  mutual
    unfolding lookup_node lookup_static lookup_param lookup_wildcard get_child

    pub lookup_node-IsServed :
        (t : TrieNode) (segs : List String) (accum : Params)
        → lookup_node t segs method accum ≡ some (route, found)
        → IsServed t segs method accum route found
    lookup_node-IsServed (node ch ps w rs) [] accum h = elim (Option-cases (payload method rs)) [
      | inl e ↦ absurd (ground arith)
      | inr (r, e) ↦ end-IsServed ch ps w rs (ground arith) (ground arith)
    ]
    lookup_node-IsServed (node ch ps w rs) (seg ∷ segs) accum h =
        elim (or_else-cases (lookup_static ch seg segs method accum) _ h) [
          | inl h₁ ↦
              let (n, c, s) = lookup_static-IsServed ch seg segs accum h₁ in
              static-IsServed ps w rs c s
          | inr (_, h₂) ↦ elim (or_else-cases (lookup_param ps seg segs method accum) _ h₂) [
            | inl h₃ ↦
                let (key, n, c, s) = lookup_param-IsServed ps seg segs accum h₃ in
                param-IsServed ch w rs key c s
            | inr (_, h₄) ↦
                let (n, c, s) = lookup_wildcard-IsServed w (join (seg ∷ segs)) accum h₄ in
                wildcard-IsServed ch ps rs c s
          ]
        ]

    lookup_static-IsServed :
        (ch : Nodes) (seg : String) (segs : List String) (accum : Params)
        → lookup_static ch seg segs method accum ≡ some (route, found)
        → (n : TrieNode) × (get_child seg ch ≡ some n) × IsServed n segs method accum route found
    lookup_static-IsServed nil seg segs accum h = absurd (cc)
    lookup_static-IsServed (entry k n more) seg segs accum h = elim (Bool-cases (k === seg)) [
      | inl same ↦ (n, rw same, lookup_node-IsServed n segs accum (ground arith))
      | inr diff ↦
          let (n', c, s) = lookup_static-IsServed more seg segs accum (ground arith) in
          (n', rw diff c, s)
    ]

    lookup_param-IsServed :
        (ps : Nodes) (seg : String) (segs : List String) (accum : Params)
        → lookup_param ps seg segs method accum ≡ some (route, found)
        → (key : String) × (n : TrieNode) × IsChild key n ps
          × IsServed n segs method (accum ++ (key, seg) ∷ []) route found
    lookup_param-IsServed nil seg segs accum h = absurd (cc)
    lookup_param-IsServed (entry k n more) seg segs accum h =
        elim (or_else-cases (lookup_node n segs method (accum ++ (k, seg) ∷ [])) _ h) [
          | inl h₁ ↦
              (k, n, inl (refl, refl), lookup_node-IsServed n segs (accum ++ (k, seg) ∷ []) h₁)
          | inr (_, h₂) ↦
              let (key, n', c, s) = lookup_param-IsServed more seg segs accum h₂ in
              (key, n', inr c, s)
        ]

    lookup_wildcard-IsServed :
        (w : MaybeNode) (rest : String) (accum : Params)
        → lookup_wildcard w rest method accum ≡ some (route, found)
        → (n : TrieNode) × (w ≡ present n)
          × IsServed n [] method (accum ++ ("*", rest) ∷ []) route found
    lookup_wildcard-IsServed absent rest accum h = absurd (cc)
    lookup_wildcard-IsServed (present n) rest accum h =
        (n, refl, lookup_node-IsServed n [] (accum ++ ("*", rest) ∷ []) h)
