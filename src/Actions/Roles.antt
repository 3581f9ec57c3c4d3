-- ===== src/Actions/Roles.antt =====
-- actions/role_context.go: which declaration of an action applies to a role.
-- A role is a number, and what is declared for it is of any type: columns, a condition, joins or a
-- hook. `none` is the nil that each function returns where nothing is declared.
pub mod Properties
pub mod Tests
use request_generator.Common.{
  ℕ, Bool, true, false, Option, none, some, List, [], ◌∷◌, ◌==◌, if◌then◌else◌,
}

-- RoleAll, the text "all".
abbrev pub role_all : ℕ
role_all = 1

-- GetRoleFromContext: the role of the user of the request, and the empty role without one.
abbrev pub role_from_context : Option ℕ → ℕ
role_from_context none = 0
role_from_context (some role) = role

module _ {ℓ} {A : Type ℓ} where
  -- One loop over the declarations.
  unfoldable pub first_of : ℕ → List (ℕ × A) → Option A
  first_of role [] = none
  first_of role ((r, a) ∷ entries) = if r == role then some a else first_of role entries

  unfoldable pub resolve : List (ℕ × A) → ℕ → Option A
  resolve entries role = elim (first_of role entries) [
    | some a ↦ some a
    | none ↦ first_of role_all entries
  ]

  abbrev pub resolve_role_columns : List (ℕ × A) → ℕ → Option A
  resolve_role_columns = resolve

  abbrev pub resolve_role_where : List (ℕ × A) → ℕ → Option A
  resolve_role_where = resolve

  abbrev pub resolve_role_join : List (ℕ × A) → ℕ → Option A
  resolve_role_join = resolve

  abbrev pub resolve_role_hook : List (ℕ × A) → ℕ → Option A
  resolve_role_hook = resolve

  abbrev pub resolve_role_after_hook : List (ℕ × A) → ℕ → Option A
  resolve_role_after_hook = resolve
