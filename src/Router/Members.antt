-- ===== src/Router/Members.antt =====
-- The sets of methods of packages/core/src/router.ts, which are lists with `Set.add`.
use axiomify.Base.{
  String, true, some, List, [], ◌∷◌, ◌++◌, ◌===◌, ◌≡◌, ◌⊎◌, ◌↔◌, refl, eq_iff, inl, inr, Bool-cases,
  sym,
}
use mathlib.Core.Path.{subst}
use axiomify.JsMap
use axiomify.Router.{with_head, RouteDefinition, includes, add_all, methods_of}

abbrev pub IsMember : String → List String → Type 0
IsMember m [] = ⊥
IsMember m (x ∷ xs) = (x ≡ m) ⊎ IsMember m xs

pub includes_iff : (ms : List String) (m : String) → (includes ms m ≡ true) ↔ IsMember m ms
unfolding includes
includes_iff [] m = (λ h. cc h, λ h. absurd h)
includes_iff (x ∷ ms) m = elim (Bool-cases (x === m)) [
  | inl same ↦ (λ h. inl ((eq_iff x m).0 same), λ h. rw same)
  | inr other ↦
      let (to, from) = includes_iff ms m in
      (
        λ h. inr (to (rw other at h)),
        λ h. elim h [
          | inl e ↦ absurd (cc (other, (eq_iff x m).1 e))
          | inr later ↦ rw other (from later)
        ],
      )
]

pub IsMember-append :
    (m : String) (xs ys : List String) → IsMember m (xs ++ ys) ↔ (IsMember m xs ⊎ IsMember m ys)
IsMember-append m [] ys =
    (λ h. inr h, λ h. elim h [ inl nowhere ↦ absurd nowhere | inr there ↦ there ])
IsMember-append m (x ∷ xs) ys =
    let (to, from) = IsMember-append m xs ys in
    (
      λ h. elim h [
        | inl e ↦ inl (inl e)
        | inr later ↦ elim (to later) [ inl a ↦ inl (inr a) | inr b ↦ inr b ]
      ],
      λ h. elim h [
        | inl (inl e) ↦ inl e
        | inl (inr a) ↦ inr (from (inl a))
        | inr b ↦ inr (from (inr b))
      ],
    )

pub add_all-IsMember :
    (m : String) (ms more : List String)
    → IsMember m (add_all ms more) ↔ (IsMember m ms ⊎ IsMember m more)
unfolding add_all
add_all-IsMember m ms [] = (λ h. inl h, λ h. elim h [ inl a ↦ a | inr nowhere ↦ absurd nowhere ])
add_all-IsMember m ms (x ∷ more) = elim (Bool-cases (includes ms x)) [
  | inl old ↦
      let (to, from) = add_all-IsMember m ms more in
      let there = (includes_iff ms x).0 old in
      rw old (
        λ h. elim (to h) [ inl a ↦ inl a | inr b ↦ inr (inr b) ],
        λ h. elim h [
          | inl a ↦ from (inl a)
          | inr (inl e) ↦ from (inl (subst (λ y. IsMember y ms) e there))
          | inr (inr b) ↦ from (inr b)
        ],
      )
  | inr new ↦
      let (to, from) = add_all-IsMember m (ms ++ x ∷ []) more in
      let (split, join) = IsMember-append m ms (x ∷ []) in
      rw new (
        λ h. elim (to h) [
          | inl a ↦ elim (split a) [
            | inl old ↦ inl old
            | inr (inl e) ↦ inr (inl e)
            | inr (inr nowhere) ↦ absurd nowhere
          ]
          | inr b ↦ inr (inr b)
        ],
        λ h. elim h [
          | inl a ↦ from (inl (join (inl a)))
          | inr (inl e) ↦ from (inl (join (inr (inl e))))
          | inr (inr b) ↦ from (inr b)
        ],
      )
]

pub methods_of-IsMember :
    (m : String) (rs : List (String × RouteDefinition))
    → IsMember m (methods_of rs) ↔ ((r : RouteDefinition) × (JsMap.get m rs ≡ some r))
unfolding JsMap.get
methods_of-IsMember m [] = (λ h. absurd h, λ (r, h). cc h)
methods_of-IsMember m ((k, v) ∷ rs) = elim (Bool-cases (k === m)) [
  | inl same ↦ rw same (λ h. (v, refl), λ h. inl ((eq_iff k m).0 same))
  | inr other ↦
      let (to, from) = methods_of-IsMember m rs in
      rw other (
        λ h. elim h [ inl e ↦ absurd (cc (other, (eq_iff k m).1 e)) | inr later ↦ to later ],
        λ h. inr (from h),
      )
]

-- `HEAD` comes with `GET`.
pub with_head-IsMember :
    (m : String) (ms : List String)
    → IsMember m (with_head ms) ↔ (IsMember m ms ⊎ ((m ≡ "HEAD") × IsMember "GET" ms))
unfolding with_head
with_head-IsMember m ms =
    let (get_to, get_from) = includes_iff ms "GET" in
    let (head_to, head_from) = includes_iff ms "HEAD" in
    elim (Bool-cases (includes ms "GET")) [
      | inl get ↦ elim (Bool-cases (includes ms "HEAD")) [
        | inl head ↦
            rw (get, head)
              (
                λ h. inl h,
                λ h. elim h [
                  | inl a ↦ a
                  | inr (e, _) ↦ subst (λ x. IsMember x ms) (sym e) (head_to head)
                ],
              )
        | inr no_head ↦
            let (split, join) = IsMember-append m ms ("HEAD" ∷ []) in
            rw (get, no_head)
              (
                λ h. elim (split h) [
                  | inl a ↦ inl a
                  | inr (inl e) ↦ inr (sym e, get_to get)
                  | inr (inr nowhere) ↦ absurd nowhere
                ],
                λ h. elim h [ inl a ↦ join (inl a) | inr (e, _) ↦ join (inr (inl (sym e))) ],
              )
      ]
      | inr no_get ↦
          rw no_get
            (λ h. inl h, λ h. elim h [ inl a ↦ a | inr (_, a) ↦ absurd (cc (no_get, get_from a)) ])
    ]
