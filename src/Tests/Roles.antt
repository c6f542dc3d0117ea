-- ===== src/Tests/Roles.antt =====
-- `FindRole` on the two roles that Strapi installs.
use provider_strapi.Prelude.{none, some, true, false, ◌≡◌, refl, ◌↔◌, arith, All, map}
use provider_strapi.Text.{codes}
use provider_strapi.Text.Fold.{ascii_lower, to_lower, equal_fold}
use provider_strapi.Roles.{find_role}
use provider_strapi.Roles.Find.{
  Selects, type_matches, name_matches, find_role-iff_Selects, find_role-eq-none_iff,
  find_role_ignores_case,
}
use provider_strapi.Tests.Data.{ascii, ascii-IsUnicode, roles, public_role, authenticated_role}

program : Unit {0}
unfolding find_role to_lower equal_fold
program = tt

-- `TestFindRole` of roles_test.go
find_run :
    (find_role ascii roles (codes "PUBLIC") ≡ some public_role)
    × (find_role ascii roles (codes "Authenticated") ≡ some authenticated_role)
    × (find_role ascii roles (codes "nope") ≡ none)
unfolding program
find_run = (refl, refl, refl)

find_role-iff_Selects_example :
    (find_role ascii roles (codes "public") ≡ some public_role)
    ↔ Selects ascii roles (codes "public") public_role
find_role-iff_Selects_example = find_role-iff_Selects ascii roles (codes "public") public_role

find_role-eq-none_iff_example : (find_role ascii roles (codes "nope") ≡ none) ↔ (
    All (λ b. type_matches ascii (codes "nope") b ≡ false) roles
    × All (λ b. name_matches ascii (codes "nope") b ≡ false) roles)
find_role-eq-none_iff_example = find_role-eq-none_iff ascii roles (codes "nope")

find_role_ignores_case_example :
    (find_role ascii roles (codes "Public") ≡ find_role ascii roles (codes "PUBLIC"))
    × ((type_matches ascii (codes "Public") public_role ≡ true)
        ↔ (map ascii_lower (codes "public") ≡ map ascii_lower (codes "PUBLIC")))
find_role_ignores_case_example =
    find_role_ignores_case ascii ascii-IsUnicode roles (codes "Public") (codes "PUBLIC") public_role
      (omega arith) (omega arith) (omega arith) refl
