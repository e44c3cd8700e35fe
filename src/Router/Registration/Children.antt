-- ===== src/Router/Registration/Children.antt =====
-- One level of the walk of `register` of packages/core/src/router.ts: the child of a key after a step in it.
use axiomify.Base.{
  String, none, some, [], ◌∷◌, ◌===◌, ◌≡◌, ◌⊎◌, ◌↔◌, refl, eq_iff, inl, inr, Bool-cases, ◌∙◌, sym,
}
use mathlib.Core.Path.{subst}
use axiomify.JsMap
use axiomify.Router.{
  RouteDefinition, TrieNode, new_node, Nodes, nil, entry, MaybeNode, absent, present, static, param,
  wildcard, Walk, update_child, update_wildcard,
}
use axiomify.Router.Patterns.{Pattern, get_child, IsChild, Holds}

-- The route stands at the pattern, under its own method.
abbrev pub IsOwn : Pattern → RouteDefinition → Pattern → String → RouteDefinition → Type 0
IsOwn q route p m r = (p ≡ q) × (m ≡ route.method) × (r ≡ route)

-- After a step the trie holds what it held and the new route at `q`.
abbrev pub Adds : Pattern → RouteDefinition → TrieNode → TrieNode → Type 0
Adds q route t t' =
    (p : Pattern) (m : String) (r : RouteDefinition)
    → Holds t' p m r ↔ (Holds t p m r ⊎ IsOwn q route p m r)

-- A node with nothing below it holds no route.
pub new_node-Holds : (p : Pattern) (m : String) (r : RouteDefinition) → ¬ Holds new_node p m r
unfolding JsMap.get get_child
new_node-Holds [] m r h = cc h
new_node-Holds (static key ∷ p) m r (n, c, h) = cc c
new_node-Holds (param key ∷ p) m r (n, c, h) = c
new_node-Holds (wildcard ∷ p) m r (n, c, h) = cc c

module _ (route : RouteDefinition) (q : Pattern) (go : TrieNode → Walk TrieNode)
    (adds : (t : TrieNode) → (go t).1 ≡ none → Adds q route t (go t).0) where
  new_node-go :
      (go new_node).1 ≡ none
      → (p : Pattern) (m : String) (r : RouteDefinition)
      → Holds (go new_node).0 p m r ↔ IsOwn q route p m r
  new_node-go e p m r =
      let (to, from) = adds new_node e p m r in
      (
        λ h. elim (to h) [
          | inl none_there ↦ absurd (new_node-Holds p m r none_there)
          | inr own ↦ own
        ],
        λ own. from (inr own),
      )

  -- The parameter children after the step.
  pub update_child-IsChild :
      (key : String) (ps : Nodes)
      → (update_child key go ps).1 ≡ none
      → (k : String) (p : Pattern) (m : String) (r : RouteDefinition)
      → ((n : TrieNode) × IsChild k n (update_child key go ps).0 × Holds n p m r)
        ↔ (((n : TrieNode) × IsChild k n ps × Holds n p m r) ⊎ ((k ≡ key) × IsOwn q route p m r))
  unfolding update_child
  update_child-IsChild key nil e k p m r = (
    λ (n, c, h). elim c [
      | inl (kk, nn) ↦ inr (sym kk, (new_node-go e p m r).0 (subst (λ t. Holds t p m r) (sym nn) h))
      | inr nowhere ↦ absurd nowhere
    ],
    λ h. elim h [
      | inl (n, nowhere, _) ↦ absurd nowhere
      | inr (kk, own) ↦ ((go new_node).0, inl (sym kk, refl), (new_node-go e p m r).1 own)
    ],
  )
  update_child-IsChild key (entry k' n' more) e k p m r = elim (Bool-cases (k' === key)) [
    | inl same ↦
        let key_eq : k' ≡ key = (eq_iff k' key).0 same in
        let (to, from) = adds n' (rw same at e) p m r in
        rw same (
          λ (n, c, h). elim c [
            | inl (kk, nn) ↦ elim (to (subst (λ t. Holds t p m r) (sym nn) h)) [
              | inl old ↦ inl (n', inl (kk, refl), old)
              | inr own ↦ inr (sym kk ∙ key_eq, own)
            ]
            | inr later ↦ inl (n, inr later, h)
          ],
          λ h. elim h [
            | inl (n, inl (kk, nn), old) ↦
                ((go n').0, inl (kk, refl), from (inl (subst (λ t. Holds t p m r) (sym nn) old)))
            | inl (n, inr later, old) ↦ (n, inr later, old)
            | inr (kk, own) ↦ ((go n').0, inl (key_eq ∙ sym kk, refl), from (inr own))
          ],
        )
    | inr other ↦
        let (to, from) = update_child-IsChild key more (rw other at e) k p m r in
        rw other (
          λ (n, c, h). elim c [
            | inl here ↦ inl (n, inl here, h)
            | inr later ↦ elim (to (n, later, h)) [
              | inl (n₂, c₂, h₂) ↦ inl (n₂, inr c₂, h₂)
              | inr own ↦ inr own
            ]
          ],
          λ h. elim h [
            | inl (n, inl here, old) ↦ (n, inl here, old)
            | inl (n, inr later, old) ↦
                let (n₂, c₂, h₂) = from (inl (n, later, old)) in (n₂, inr c₂, h₂)
            | inr own ↦ let (n₂, c₂, h₂) = from (inr own) in (n₂, inr c₂, h₂)
          ],
        )
  ]

  -- The static child of a key after the step.
  pub update_child-get :
      (key : String) (ch : Nodes)
      → (update_child key go ch).1 ≡ none
      → (k : String) (p : Pattern) (m : String) (r : RouteDefinition)
      → ((n : TrieNode) × (get_child k (update_child key go ch).0 ≡ some n) × Holds n p m r) ↔ (
          ((n : TrieNode) × (get_child k ch ≡ some n) × Holds n p m r)
          ⊎ ((k ≡ key) × IsOwn q route p m r))
  unfolding update_child get_child
  update_child-get key nil e k p m r = elim (Bool-cases (key === k)) [
    | inl same ↦
        let key_eq : key ≡ k = (eq_iff key k).0 same in
        rw same (
          λ (n, c, h).
              let nn : n ≡ (go new_node).0 = cc c in
              inr (sym key_eq, (new_node-go e p m r).0 (subst (λ t. Holds t p m r) nn h)),
          λ h. elim h [
            | inl (n, c, _) ↦ absurd (cc c)
            | inr (_, own) ↦ ((go new_node).0, refl, (new_node-go e p m r).1 own)
          ],
        )
    | inr other ↦ rw other (
      λ (n, c, h). absurd (cc c),
      λ h. elim h [
        | inl (n, c, _) ↦ absurd (cc c)
        | inr (kk, _) ↦ absurd (cc (other, (eq_iff key k).1 (sym kk)))
      ],
    )
  ]
  update_child-get key (entry k' n' more) e k p m r = elim (Bool-cases (k' === key)) [
    | inl same ↦
        let key_eq : k' ≡ key = (eq_iff k' key).0 same in
        let (to, from) = adds n' (rw same at e) p m r in
        elim (Bool-cases (k' === k)) [
          | inl here ↦
              let k_eq : k' ≡ k = (eq_iff k' k).0 here in
              rw (same, here)
                (
                  λ (n, c, h).
                      let nn : n ≡ (go n').0 = cc c in
                      elim (to (subst (λ t. Holds t p m r) nn h)) [
                        | inl old ↦ inl (n', refl, old)
                        | inr own ↦ inr (sym k_eq ∙ key_eq, own)
                      ],
                  λ h. elim h [
                    | inl (n, c, old) ↦
                        let nn : n ≡ n' = cc c in
                        ((go n').0, refl, from (inl (subst (λ t. Holds t p m r) nn old)))
                    | inr (_, own) ↦ ((go n').0, refl, from (inr own))
                  ],
                )
          | inr away ↦
              rw (same, away)
                (
                  λ h. inl h,
                  λ h. elim h [
                    | inl old ↦ old
                    | inr (kk, _) ↦ absurd (cc (away, (eq_iff k' k).1 (key_eq ∙ sym kk)))
                  ],
                )
        ]
    | inr other ↦
        let (to, from) = update_child-get key more (rw other at e) k p m r in
        elim (Bool-cases (k' === k)) [
          | inl here ↦
              let k_eq : k' ≡ k = (eq_iff k' k).0 here in
              rw (other, here)
                (
                  λ h. inl h,
                  λ h. elim h [
                    | inl old ↦ old
                    | inr (kk, _) ↦ absurd (cc (other, (eq_iff k' key).1 (k_eq ∙ kk)))
                  ],
                )
          | inr away ↦ rw (other, away) (to, from)
        ]
  ]

  pub update_wildcard-present :
      (w : MaybeNode)
      → (update_wildcard go w).1 ≡ none
      → (p : Pattern) (m : String) (r : RouteDefinition)
      → ((n : TrieNode) × ((update_wildcard go w).0 ≡ present n) × Holds n p m r)
        ↔ (((n : TrieNode) × (w ≡ present n) × Holds n p m r) ⊎ IsOwn q route p m r)
  unfolding update_wildcard
  update_wildcard-present absent e p m r = (
    λ (n, c, h).
        let nn : n ≡ (go new_node).0 = cc c in
        inr ((new_node-go e p m r).0 (subst (λ t. Holds t p m r) nn h)),
    λ h. elim h [
      | inl (n, c, _) ↦ absurd (cc c)
      | inr own ↦ ((go new_node).0, refl, (new_node-go e p m r).1 own)
    ],
  )
  update_wildcard-present (present n') e p m r =
      let (to, from) = adds n' e p m r in
      (
        λ (n, c, h).
            let nn : n ≡ (go n').0 = cc c in
            elim (to (subst (λ t. Holds t p m r) nn h)) [
              | inl old ↦ inl (n', refl, old)
              | inr own ↦ inr own
            ],
        λ h. elim h [
          | inl (n, c, old) ↦
              let nn : n ≡ n' = cc c in
              ((go n').0, refl, from (inl (subst (λ t. Holds t p m r) nn old)))
          | inr own ↦ ((go n').0, refl, from (inr own))
        ],
      )
