-- ===== src/Router.antt =====
-- packages/core/src/router.ts: the trie of routes, registration and lookup.
-- A position in a path is the list of the segments from there on, empty where `pos > path.length`;
-- `path.slice(pos)` is their join. A route's handler and schema are a number that stands for them.
pub mod Patterns
pub mod Matching
pub mod Complete
pub mod Registration
pub mod Serving
pub mod Members
pub mod Allowed
pub mod Refusing
use Prim.Native.Char.{code}
use Prim.Native.String
use text.Mathlib.Text.{starts_with}
use axiomify.Base.{
  ℕ, zero, suc, String, Bool, true, false, ◌&&◌, ◌||◌, not, Option, none, some, List, [], ◌∷◌, ◌++◌,
  if◌then◌else◌, ◌===◌, ◌==◌,
}
use axiomify.JsMap

pub record RouteDefinition : Type 0 where
  pub method : String
  pub path : String
  pub handler : ℕ

-- A node with its static children, its parameter children, its wildcard child and its routes by method.
mutual
  pub data TrieNode : Type 0 where
    node : Nodes → Nodes → MaybeNode → List (String × RouteDefinition) → TrieNode

  pub data Nodes : Type 0 where
    nil : Nodes
    entry : String → TrieNode → Nodes → Nodes

  pub data MaybeNode : Type 0 where
    absent : MaybeNode
    present : TrieNode → MaybeNode

abbrev pub new_node : TrieNode
new_node = node nil nil absent []

-- The kind of a segment of a route's path.
pub data Kind : Type 0 where
  static param : String → Kind
  wildcard : Kind

-- `seg.slice(1)`.
unfoldable pub rest_of : String → String
rest_of String.[] = ""
rest_of (String.◌∷◌ c s) = s

unfoldable pub kind_of : String → Kind
kind_of seg =
    if starts_with seg ":"
    then param (rest_of seg)
    else if seg === "*"
    then wildcard
    else static seg

-- A character in front of the first segment.
push_front : Prim.Native.Char.Char → List String → List String
push_front c [] = String.◌∷◌ c "" ∷ []
push_front c (seg ∷ segs) = String.◌∷◌ c seg ∷ segs

-- The segments between the slashes, as the walk by `indexOf('/', start)` cuts them.
unfoldable pub split : String → List String
unfolding push_front
split String.[] = "" ∷ []
split (String.◌∷◌ c s) =
    let segs = split s in if code c == b'/' then "" ∷ segs else push_front c segs

unfoldable pub join : List String → String
join [] = ""
join (seg ∷ []) = seg
join (seg ∷ seg' ∷ segs) = String.◌++◌ seg (String.◌∷◌ "/" (join (seg' ∷ segs)))

-- The segments from the first position on: behind the leading slash, if there is one.
unfoldable pub segments : String → List String
segments path = split (if starts_with path "/" then rest_of path else path)

-- The errors that `register` throws.
pub data RegisterError : Type 0 where
  conflict wildcard_not_last collision : RegisterError

-- What a step of the walk leaves: the changed node and the error, if it throws. Nodes made before a
-- throw stay.
abbrev pub Walk : Type 0 → Type 0
Walk N = N × Option RegisterError

-- The walk goes on in the child of the key, which is made if it is not there.
unfoldable pub update_child : String → (TrieNode → Walk TrieNode) → Nodes → Walk Nodes
update_child key go nil = let (n, err) = go new_node in (entry key n nil, err)
update_child key go (entry k n more) =
    let (n', err) = go n in
    let (more', err') = update_child key go more in
    if k === key then (entry k n' more, err) else (entry k n more', err')

unfoldable pub update_wildcard : (TrieNode → Walk TrieNode) → MaybeNode → Walk MaybeNode
update_wildcard go absent = let (n, err) = go new_node in (present n, err)
update_wildcard go (present n) = let (n', err) = go n in (present n', err)

-- The end of the walk.
unfoldable pub add_route : RouteDefinition → TrieNode → Walk TrieNode
add_route route (node ch ps w rs) = elim (JsMap.get route.method rs) [
  | none ↦ (node ch ps w (JsMap.set route.method route rs), none)
  | some _ ↦ (node ch ps w rs, some collision)
]

unfoldable pub in_static : String → (TrieNode → Walk TrieNode) → TrieNode → Walk TrieNode
in_static key go (node ch ps w rs) =
    let (ch', err) = update_child key go ch in (node ch' ps w rs, err)

unfoldable pub in_param : String → (TrieNode → Walk TrieNode) → TrieNode → Walk TrieNode
in_param key go (node ch ps w rs) =
    let (ps', err) = update_child key go ps in (node ch ps' w rs, err)

unfoldable pub in_wildcard : (TrieNode → Walk TrieNode) → TrieNode → Walk TrieNode
in_wildcard go (node ch ps w rs) = let (w', err) = update_wildcard go w in (node ch ps w' rs, err)

abbrev pub is_empty {ℓ} : {A : Type ℓ} → List A → Bool
is_empty [] = true
is_empty (x ∷ xs) = false

-- The loop of `register`.
unfoldable pub insert_route : RouteDefinition → List String → TrieNode → Walk TrieNode
insert_route route [] t = add_route route t
insert_route route (seg ∷ segs) t =
    let go = insert_route route segs in
    elim (kind_of seg) [
      | param key ↦ in_param key go t
      | wildcard ↦ if is_empty segs then in_wildcard go t else (t, some wildcard_not_last)
      | static key ↦ in_static key go t
    ]

pub record Router : Type 0 where
  pub root : TrieNode
  pub route_conflict_throws : Bool
  pub normalized_paths : List (String × String)

-- `options.routeConflict ?? 'throw'`.
unfoldable pub new_router : Option Bool → Router
new_router throws = record {
  root = new_node;
  route_conflict_throws = elim throws [ none ↦ true | some b ↦ b ];
  normalized_paths = [];
}

unfoldable pub star_params : List String → List String
star_params [] = []
star_params (s ∷ segs) = (if starts_with s ":" then ":*" else s) ∷ star_params segs

-- The method and the path with every parameter's name struck out.
unfoldable pub normalize : RouteDefinition → String
normalize route = String.◌++◌ route.method (String.◌∷◌ " " (join (star_params (split route.path))))

-- `existing && existing !== route.path`: an empty text counts as absent.
abbrev pub is_conflict : Option String → String → Bool
is_conflict none path = false
is_conflict (some existing) path = not (existing === "") && not (existing === path)

unfoldable pub register : RouteDefinition → Router → Router × Option RegisterError
register route r =
    let norm = normalize route in
    let is_other = is_conflict (JsMap.get norm r.normalized_paths) route.path in
    let (root', err) = insert_route route (segments route.path) r.root in
    if is_other && r.route_conflict_throws then (r, some conflict) else (
      record r {
        root = root';
        normalized_paths =
            if is_other then r.normalized_paths else JsMap.set norm route.path r.normalized_paths;
      },
      err,
    )

abbrev pub or_else {ℓ} : {A : Type ℓ} → Option A → Option A → Option A
or_else none o = o
or_else (some a) o = some a

-- The route for the method at the end of a path; HEAD falls back to GET.
unfoldable pub payload : String → List (String × RouteDefinition) → Option RouteDefinition
payload method rs =
    or_else (JsMap.get method rs) (if method === "HEAD" then JsMap.get "GET" rs else none)

-- `accum`: keys and values of the parameters so far. On a match it is the whole list.
abbrev pub Params : Type 0
Params = List (String × String)

abbrev pub Found : Type 0
Found = Option (RouteDefinition × Params)

unfoldable mutual
  pub lookup_node : TrieNode → List String → String → Params → Found
  lookup_node (node ch ps w rs) [] method accum = elim (payload method rs) [
    | none ↦ none
    | some route ↦ some (route, accum)
  ]
  lookup_node (node ch ps w rs) (seg ∷ segs) method accum =
      or_else (lookup_static ch seg segs method accum) (
        or_else (lookup_param ps seg segs method accum)
          (lookup_wildcard w (join (seg ∷ segs)) method accum))

  -- `children.get(seg)`, and the lookup in that child.
  pub lookup_static : Nodes → String → List String → String → Params → Found
  lookup_static nil seg segs method accum = none
  lookup_static (entry k n more) seg segs method accum = elim (k === seg) [
    | true ↦ lookup_node n segs method accum
    | false ↦ lookup_static more seg segs method accum
  ]

  -- The loop over `paramChildren`; a failed try leaves `accum` as it was.
  pub lookup_param : Nodes → String → List String → String → Params → Found
  lookup_param nil seg segs method accum = none
  lookup_param (entry k n more) seg segs method accum =
      or_else (lookup_node n segs method (accum ++ (k, seg) ∷ []))
        (lookup_param more seg segs method accum)

  pub lookup_wildcard : MaybeNode → String → String → Params → Found
  lookup_wildcard absent rest method accum = none
  lookup_wildcard (present n) rest method accum =
      lookup_node n [] method (accum ++ ("*", rest) ∷ [])

unfoldable pub includes : List String → String → Bool
includes [] m = false
includes (x ∷ xs) m = x === m || includes xs m

-- `Set.add` for each method of the second list.
unfoldable pub add_all : List String → List String → List String
add_all ms [] = ms
add_all ms (m ∷ more) = add_all (if includes ms m then ms else ms ++ m ∷ []) more

abbrev pub methods_of : List (String × RouteDefinition) → List String
methods_of [] = []
methods_of ((m, _) ∷ rs) = m ∷ methods_of rs

unfoldable mutual
  pub collect_allowed : TrieNode → List String → List String
  collect_allowed (node ch ps w rs) [] = methods_of rs
  collect_allowed (node ch ps w rs) (seg ∷ segs) =
      collect_wildcard w (collect_param ps segs (collect_static ch seg segs []))

  -- Each adds to the set `methods`.
  pub collect_static : Nodes → String → List String → List String → List String
  collect_static nil seg segs methods = methods
  collect_static (entry k n more) seg segs methods = elim (k === seg) [
    | true ↦ add_all methods (collect_allowed n segs)
    | false ↦ collect_static more seg segs methods
  ]

  pub collect_param : Nodes → List String → List String → List String
  collect_param nil segs methods = methods
  collect_param (entry k n more) segs methods =
      collect_param more segs (add_all methods (collect_allowed n segs))

  pub collect_wildcard : MaybeNode → List String → List String
  collect_wildcard absent methods = methods
  collect_wildcard (present n) methods = add_all methods (collect_allowed n [])

-- `out[key] = value` for each parameter.
unfoldable pub write_params : Params → Params → Params
write_params [] out = out
write_params ((key, value) ∷ ps) out = write_params ps (JsMap.set key value out)

pub data LookupResult : Type 0 where
  matched : RouteDefinition → Params → LookupResult
  method_not_allowed : List String → LookupResult
  not_found : LookupResult

-- `HEAD` is allowed where `GET` is.
unfoldable pub with_head : List String → List String
with_head allowed =
    if includes allowed "GET" && not (includes allowed "HEAD")
    then allowed ++ "HEAD" ∷ []
    else allowed

unfoldable pub lookup : String → String → Params → Router → LookupResult
lookup method path out r =
    let segs = segments path in
    let allowed = collect_allowed r.root segs in
    elim (lookup_node r.root segs method []) [
      | some (route, accum) ↦ matched route (write_params accum out)
      | none ↦ if is_empty allowed then not_found else method_not_allowed (with_head allowed)
    ]
