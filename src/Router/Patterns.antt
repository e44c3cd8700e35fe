-- ===== src/Router/Patterns.antt =====
-- The specification of the trie of packages/core/src/router.ts: which routes a trie holds, by the
-- pattern of their path, and when a pattern matches the segments of a request.
use axiomify.Base.{String, Option, none, some, List, [], ◌∷◌, if◌then◌else◌, ◌===◌, ◌≡◌, ◌⊎◌}
use axiomify.JsMap
use axiomify.Router.{
  RouteDefinition, TrieNode, node, Nodes, nil, entry, present, Kind, static, param, wildcard,
  kind_of, join, Params,
}

abbrev pub Pattern : Type 0
Pattern = List Kind

-- The pattern of a route's path.
abbrev pub kinds : List String → Pattern
kinds [] = []
kinds (seg ∷ segs) = kind_of seg ∷ kinds segs

-- The static child of a key: a `Map` holds one.
unfoldable pub get_child : String → Nodes → Option TrieNode
get_child key nil = none
get_child key (entry k n more) = if k === key then some n else get_child key more

-- A parameter child of a key.
abbrev pub IsChild : String → TrieNode → Nodes → Type 0
IsChild key n nil = ⊥
IsChild key n (entry k n' more) = ((k ≡ key) × (n' ≡ n)) ⊎ IsChild key n more

-- The trie holds the route under the method at the end of the pattern.
abbrev pub Holds : TrieNode → Pattern → String → RouteDefinition → Type 0
Holds (node ch ps w rs) [] method route = JsMap.get method rs ≡ some route
Holds (node ch ps w rs) (static key ∷ p) method route =
    (n : TrieNode) × (get_child key ch ≡ some n) × Holds n p method route
Holds (node ch ps w rs) (param key ∷ p) method route =
    (n : TrieNode) × IsChild key n ps × Holds n p method route
Holds (node ch ps w rs) (wildcard ∷ p) method route =
    (n : TrieNode) × (w ≡ present n) × Holds n p method route

-- The parameters that a pattern takes from the segments: a name takes one, `*` takes all the rest.
unfoldable pub match : Pattern → List String → Option Params
match [] [] = some []
match [] (seg ∷ segs) = none
match (k ∷ p) [] = none
match (static key ∷ p) (seg ∷ segs) = if key === seg then match p segs else none
match (param key ∷ p) (seg ∷ segs) = elim (match p segs) [
  | none ↦ none
  | some ps ↦ some ((key, seg) ∷ ps)
]
match (wildcard ∷ p) (seg ∷ segs) = elim (match p []) [
  | none ↦ none
  | some ps ↦ some (("*", join (seg ∷ segs)) ∷ ps)
]
