-- ===== src/Actions/Roles/Tests.antt =====
-- Declarations by role at concrete inputs.
use request_generator.Common.{ℕ, ◌≡◌, refl, List, some, none, [], ◌∷◌, ◌++◌}
use request_generator.Actions.Roles.{role_all, first_of, resolve}
use request_generator.Actions.Roles.Properties.{of_role, head, resolve-precedence}

-- Declarations for all, and for role 5.
abbrev for_all : List (ℕ × ℕ)
for_all = (1, 10) ∷ []

abbrev for_five : List (ℕ × ℕ)
for_five = (5, 20) ∷ []

abbrev third : List (ℕ × ℕ)
third = (7, 30) ∷ for_five

resolved :
    (resolve (for_all ++ for_five) 5 ≡ some 20)
    × (resolve (for_all ++ for_five) 6 ≡ some 10)
    × (resolve for_five 6 ≡ none)
unfolding resolve first_of
resolved = (refl, refl, refl)

resolve-precedence_example :
    resolve (for_all ++ for_five) 5
    ≡ head (of_role 5 (for_all ++ for_five) ++ of_role role_all (for_all ++ for_five))
resolve-precedence_example = resolve-precedence (for_all ++ for_five) 5
