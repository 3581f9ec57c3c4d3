-- ===== src/Actions/Roles/Properties.antt =====
-- actions/role_context.go: the precedence of the declarations.
use request_generator.Common.{
  ℕ, ◌≡◌, ◌≢◌, refl, Option, none, some, List, [], ◌∷◌, ◌++◌, ◌==◌, if◌then◌else◌, arith,
}
use request_generator.Actions.Roles.{role_all, first_of, resolve}

-- The declarations of one role, in their order.
abbrev pub of_role {ℓ} : {A : Type ℓ} → ℕ → List (ℕ × A) → List A
of_role role [] = []
of_role role ((r, a) ∷ entries) =
    if r == role then a ∷ of_role role entries else of_role role entries

abbrev pub head {ℓ} : {A : Type ℓ} → List A → Option A
head [] = none
head (a ∷ xs) = some a

module _ {A : Type 0} where
  first_of-head :
      (role : ℕ) (entries : List (ℕ × A)) → first_of role entries ≡ head (of_role role entries)
  unfolding first_of
  first_of-head role [] = refl
  first_of-head role ((r, a) ∷ entries) = ground (arith, first_of-head role entries)

  head-append :
      (xs ys : List A) → head (xs ++ ys) ≡ (elim (head xs) [ some a ↦ some a | none ↦ head ys ])
  head-append [] ys = refl
  head-append (x ∷ xs) ys = refl

  -- What applies to a role is the first of its own declarations, and behind them of those for all:
  -- a declaration for all never hides one of the role, wherever it stands.
  pub resolve-precedence :
      (entries : List (ℕ × A)) (role : ℕ)
      → resolve entries role ≡ head (of_role role entries ++ of_role role_all entries)
  unfolding resolve
  resolve-precedence entries role = ground (
    arith,
    first_of-head role entries,
    first_of-head role_all entries,
    head-append (of_role role entries) (of_role role_all entries),
  )

  first_of-append :
      (role : ℕ) (xs ys : List (ℕ × A))
      → first_of role (xs ++ ys)
        ≡ (elim (first_of role xs) [ some a ↦ some a | none ↦ first_of role ys ])
  unfolding first_of
  first_of-append role [] ys = refl
  first_of-append role ((r, a) ∷ xs) ys = ground (arith, first_of-append role xs ys)

  -- A declaration for a third role changes nothing, wherever it is added.
  resolve-third :
      (before after : List (ℕ × A)) (role other : ℕ) (a : A)
      → other ≢ role
      → other ≢ role_all
      → resolve (before ++ (other, a) ∷ after) role ≡ resolve (before ++ after) role
  unfolding resolve first_of
  resolve-third before after role other a h k = ground (
    arith,
    first_of-append role before ((other, a) ∷ after),
    first_of-append role before after,
    first_of-append role_all before ((other, a) ∷ after),
    first_of-append role_all before after,
  )
