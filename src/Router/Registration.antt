-- ===== src/Router/Registration.antt =====
-- `register` of packages/core/src/router.ts: what a successful walk adds to the routes of a trie.
pub mod Children
use axiomify.Base.{
  ℕ, String, Bool, true, false, Option, none, some, List, [], ◌∷◌, ◌++◌, if◌then◌else◌, ◌===◌, ◌≡◌,
  ◌≢◌, ◌⊎◌, ◌↔◌, refl, arith, eq_iff, inl, inr, Option-cases, Bool-cases, ◌∙◌, ap, sym,
}
use mathlib.Core.Path.{subst}
use axiomify.JsMap
use axiomify.JsMap.Laws.{get-set}
use axiomify.Router.{
  RouteDefinition, TrieNode, node, new_node, Nodes, nil, entry, MaybeNode, absent, present, Kind,
  static, param, wildcard, kind_of, RegisterError, Walk, update_child, update_wildcard, add_route,
  in_static, in_param, in_wildcard, insert_route, is_empty, wildcard_not_last, collision,
}
use axiomify.Router.Patterns.{Pattern, kinds, get_child, IsChild, Holds}
use axiomify.Router.Registration.Children.{
  IsOwn, Adds, update_child-IsChild, update_child-get, update_wildcard-present,
}

new_route-Adds :
    (route : RouteDefinition) (ch ps : Nodes) (w : MaybeNode) (rs : List (String × RouteDefinition))
    → JsMap.get route.method rs ≡ none
    → Adds [] route (node ch ps w rs) (node ch ps w (JsMap.set route.method route rs))
new_route-Adds route ch ps w rs e [] m r =
    rw (get-set m route.method route rs) (elim (Bool-cases (route.method === m)) [
      | inl same ↦
          let p : route.method ≡ m = (eq_iff route.method m).0 same in
          rw same (
            λ h. inr (refl, sym p, cc h),
            elim [ inl old ↦ absurd (cc (old, rw p at e)) | inr (_, _, own) ↦ cc own ],
          )
      | inr other ↦ rw other (
        λ h. inl h,
        elim [
          | inl old ↦ old
          | inr (_, own, _) ↦ absurd (cc (other, (eq_iff route.method m).1 (sym own)))
        ],
      )
    ])
new_route-Adds route ch ps w rs e (static key ∷ p) m r =
    (λ h. inl h, elim [ inl h ↦ h | inr (q, _, _) ↦ absurd (cc q) ])
new_route-Adds route ch ps w rs e (param key ∷ p) m r =
    (λ h. inl h, elim [ inl h ↦ h | inr (q, _, _) ↦ absurd (cc q) ])
new_route-Adds route ch ps w rs e (wildcard ∷ p) m r =
    (λ h. inl h, elim [ inl h ↦ h | inr (q, _, _) ↦ absurd (cc q) ])

add_route-Adds :
    (route : RouteDefinition) (t : TrieNode)
    → (add_route route t).1 ≡ none
    → Adds [] route t (add_route route t).0
unfolding add_route
add_route-Adds route (node ch ps w rs) h = elim (Option-cases (JsMap.get route.method rs)) [
  | inl e ↦ rw (e, add_route) (new_route-Adds route ch ps w rs e)
  | inr (old, e) ↦ absurd (ground arith)
]

-- Where the step does not reach, nothing changes.
others : {A B C D : Type 0} → (B → ⊥) → A ↔ (A ⊎ (B × C × D))
others never = (λ h. inl h, λ h. elim h [ inl old ↦ old | inr (b, _, _) ↦ absurd (never b) ])

module _ (route : RouteDefinition) (q : Pattern) (go : TrieNode → Walk TrieNode)
    (adds : (t : TrieNode) → (go t).1 ≡ none → Adds q route t (go t).0) where
  in_static-Adds :
      (key : String) (t : TrieNode)
      → (in_static key go t).1 ≡ none
      → Adds (static key ∷ q) route t (in_static key go t).0
  unfolding in_static
  in_static-Adds key (node ch ps w rs) e [] m r = others (λ c. cc c)
  in_static-Adds key (node ch ps w rs) e (static k ∷ p) m r =
      let (to, from) = update_child-get route q go adds key ch e k p m r in
      (
        λ h. elim (to h) [
          | inl old ↦ inl old
          | inr (kk, (pp, mm, own)) ↦ inr (cc (kk, pp), mm, own)
        ],
        λ h. elim h [
          | inl old ↦ from (inl old)
          | inr (pp, mm, own) ↦ from (inr (cc pp, (cc pp, mm, own)))
        ],
      )
  in_static-Adds key (node ch ps w rs) e (param k ∷ p) m r = others (λ c. cc c)
  in_static-Adds key (node ch ps w rs) e (wildcard ∷ p) m r = others (λ c. cc c)

  in_param-Adds :
      (key : String) (t : TrieNode)
      → (in_param key go t).1 ≡ none
      → Adds (param key ∷ q) route t (in_param key go t).0
  unfolding in_param
  in_param-Adds key (node ch ps w rs) e [] m r = others (λ c. cc c)
  in_param-Adds key (node ch ps w rs) e (static k ∷ p) m r = others (λ c. cc c)
  in_param-Adds key (node ch ps w rs) e (param k ∷ p) m r =
      let (to, from) = update_child-IsChild route q go adds key ps e k p m r in
      (
        λ h. elim (to h) [
          | inl old ↦ inl old
          | inr (kk, (pp, mm, own)) ↦ inr (cc (kk, pp), mm, own)
        ],
        λ h. elim h [
          | inl old ↦ from (inl old)
          | inr (pp, mm, own) ↦ from (inr (cc pp, (cc pp, mm, own)))
        ],
      )
  in_param-Adds key (node ch ps w rs) e (wildcard ∷ p) m r = others (λ c. cc c)

  in_wildcard-Adds :
      (t : TrieNode)
      → (in_wildcard go t).1 ≡ none
      → Adds (wildcard ∷ q) route t (in_wildcard go t).0
  unfolding in_wildcard
  in_wildcard-Adds (node ch ps w rs) e [] m r = others (λ c. cc c)
  in_wildcard-Adds (node ch ps w rs) e (static k ∷ p) m r = others (λ c. cc c)
  in_wildcard-Adds (node ch ps w rs) e (param k ∷ p) m r = others (λ c. cc c)
  in_wildcard-Adds (node ch ps w rs) e (wildcard ∷ p) m r =
      let (to, from) = update_wildcard-present route q go adds w e p m r in
      (
        λ h. elim (to h) [ inl old ↦ inl old | inr (pp, mm, own) ↦ inr (cc pp, mm, own) ],
        λ h. elim h [ inl old ↦ from (inl old) | inr (pp, mm, own) ↦ from (inr (cc pp, mm, own)) ],
      )

Kind-cases :
    (k : Kind)
    → ((key : String) × (k ≡ param key)) ⊎ (k ≡ wildcard) ⊎ ((key : String) × (k ≡ static key))
Kind-cases (param key) = inl (key, refl)
Kind-cases wildcard = inr (inl refl)
Kind-cases (static key) = inr (inr (key, refl))

-- A walk that does not throw adds the route at the pattern of its path, under its method, and leaves
-- every other route of the trie as it was.
pub insert_route-Adds :
    (route : RouteDefinition) (segs : List String) (t : TrieNode)
    → (insert_route route segs t).1 ≡ none
    → Adds (kinds segs) route t (insert_route route segs t).0
unfolding insert_route
insert_route-Adds route [] t e = add_route-Adds route t e
insert_route-Adds route (seg ∷ segs) t e =
    let adds = insert_route-Adds route segs in
    let go = insert_route route segs in
    elim (Kind-cases (kind_of seg)) [
      | inl (key, k) ↦
          rw (k, insert_route) (in_param-Adds route (kinds segs) go adds key t (ground arith))
      | inr (inl k) ↦ elim (Bool-cases (is_empty segs)) [
        | inl last ↦
            rw (k, insert_route)
              (rw last (in_wildcard-Adds route (kinds segs) go adds t (ground arith)))
        | inr more ↦ absurd (ground arith)
      ]
      | inr (inr (key, k)) ↦
          rw (k, insert_route) (in_static-Adds route (kinds segs) go adds key t (ground arith))
    ]
