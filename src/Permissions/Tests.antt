-- ===== src/Permissions/Tests.antt =====
-- A repository of an organization, its team and a collaborator, and the theorems on them.
use pandahub.Prelude.{◌≤◌, ◌≡◌, refl, inl, Option, none, some, true, [], ◌∷◌, arith}
use pandahub.Exceptions.{permission_denied, ok, err}
use pandahub.Enums.{PermissionLevel, read, triage, write, maintain, admin, OrganizationRole, public}
use pandahub.Table.{select, scalar_one_or_none, unique}
use pandahub.Permissions.{
  Repository, AccessTables, level_rank, max_level, is_owner, is_admin_role, administers,
  organization_role, collaborates, collaborator_level, team_grants, team_levels, highest,
  visibility_level, fallback, resolve_permission, meets_minimum, refusal, checked,
  assert_permission, require_repo_permission,
}
use pandahub.Permissions.Granted.{IsGranted, by_team}
use pandahub.Permissions.Rank.{option_rank}
use pandahub.Permissions.Resolve.{resolve_permission-IsGranted}
use pandahub.Permissions.Greatest.{resolve_permission_greatest}
use pandahub.Permissions.Access.{
  HasUniqueKeys, resolve_permission_total, assert_permission-IsGranted, IsGranted-assert_permission,
}

abbrev site : Repository
site = record {
  id = 7;
  owner_user_id = none;
  owner_organization_id = some 1;
  name = "site";
  visibility = public;
  disk_path = "/data/7.git";
}

abbrev tables : AccessTables
tables = record {
  organization_members =
      record { organization_id = 1; user_id = 10; role = OrganizationRole.owner }
      ∷ record { organization_id = 1; user_id = 11; role = OrganizationRole.member }
      ∷ [];
  collaborators = record { repository_id = 7; user_id = 11; permission = triage } ∷ [];
  team_members = record { team_id = 3; user_id = 11 } ∷ [];
  team_repositories = record { team_id = 3; repository_id = 7; permission = maintain } ∷ [];
}

runs : Unit {0}
unfolding resolve_permission is_owner organization_role administers is_admin_role scalar_one_or_none
    select collaborator_level collaborates team_levels team_grants highest max_level level_rank
    visibility_level fallback assert_permission checked meets_minimum refusal
    require_repo_permission unique
runs = tt

resolve_site :
    (resolve_permission tables (some 10) site ≡ ok (some admin))
    × (resolve_permission tables (some 11) site ≡ ok (some maintain))
    × (resolve_permission tables none site ≡ ok (some read))
unfolding runs
resolve_site = (refl, refl, refl)

tables-HasUniqueKeys : HasUniqueKeys tables
unfolding unique
tables-HasUniqueKeys = record { members = refl; collaborators = refl }

by_maintainers : IsGranted tables (some 11) site maintain
by_maintainers =
    by_team 11 (record { team_id = 3; user_id = 11 })
      (record { team_id = 3; repository_id = 7; permission = maintain }) refl (inl refl) (inl refl)
      refl refl refl refl

resolve_permission-IsGranted_example : IsGranted tables (some 11) site maintain
resolve_permission-IsGranted_example =
    resolve_permission-IsGranted tables site (some 11) maintain (resolve_site.1)

resolve_permission_greatest_example : level_rank maintain ≤ option_rank (some maintain)
resolve_permission_greatest_example =
    resolve_permission_greatest tables site (some 11) (some maintain) maintain resolve_site.1
      by_maintainers

resolve_permission_total_example :
    (r : Option PermissionLevel) × (resolve_permission tables (some 11) site ≡ ok r)
resolve_permission_total_example =
    resolve_permission_total tables tables-HasUniqueKeys site (some 11)

assert_write : assert_permission tables (some 11) site write ≡ ok maintain
unfolding runs
assert_write = refl

rank_write : level_rank write ≤ level_rank maintain
unfolding level_rank
rank_write = omega arith

assert_permission-IsGranted_example :
    IsGranted tables (some 11) site maintain × (level_rank write ≤ level_rank maintain)
assert_permission-IsGranted_example =
    assert_permission-IsGranted tables site (some 11) write maintain assert_write

IsGranted-assert_permission_example :
    (l : PermissionLevel) × (assert_permission tables (some 11) site write ≡ ok l)
IsGranted-assert_permission_example =
    IsGranted-assert_permission tables site tables-HasUniqueKeys (some 11) write maintain
      by_maintainers rank_write

assert_admin : assert_permission tables (some 11) site admin ≡ err permission_denied
unfolding runs
assert_admin = refl

anonymous_read : require_repo_permission tables read true none site ≡ ok read
unfolding runs
anonymous_read = refl
