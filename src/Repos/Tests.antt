-- ===== src/Repos/Tests.antt =====
-- Two users, an organization and a repository, and the theorems on them.
use pandahub.Repos.Disk.ForkRuns.{IsForkable, fork_repository_runs}
use text.Mathlib.Text.{◌==◌ as str_eq}
use pandahub.Prelude.{
  ◌-◌, ℕ, ◌≤◌, ◌≡◌, ◌≢◌, refl, inl, inr, Option, none, some, true, false, not, ◌&&◌, String, List,
  [], ◌∷◌, arith, All, length, is_some, ◌==◌, str, if◌then◌else◌,
}
use pandahub.Exceptions.{Error, Error.git_library, ok, err}
use pandahub.Session.{run}
use pandahub.Table.{scalar_one_or_none, select, unique, update_where, delete_where}
use pandahub.Enums.{private, public, PermissionLevel, read, write, OrganizationRole}
use pandahub.Permissions.{
  OrganizationMember, AccessTables, level_rank, is_admin_role, administers, assert_permission,
}
use pandahub.Permissions.Access.{same_member}
use pandahub.GitAuth.{Codecs}
use pandahub.Repos.Store.{
  refers, has_organization, has_owner, has_source, owners_valid, sources_valid, Repository, User,
  Organization, RepositoryCreate, RepositoryUpdate, RepoStore, same_id, same_disk_path, is_single,
  has_single_owner, same_branch, same_star, same_watcher, has_repository, has_user,
  repositories_valid, branches_valid, stars_valid, watchers_valid, collaborators_valid,
  satisfies_constraints, names_owner, is_owned_by, for_resolver, change_repository,
}
use pandahub.Repos.{
  ensure_name_available, owner_user, is_excluded, has_name, get_repo_by_owner_and_name,
}
use pandahub.Repos.Valid.{HasStarCount, IsValid}
use pandahub.Repos.Disk.{
  put, build_disk_path, prepare_repository, BareRepositories, Disk, prepare_fork, finish_fork,
  clone_and_finish, add_repository, set_fork_count, build_disk_path, new_repository, new_fork,
  and_then, initial_commit, init_bare_repo, create_repository, fork_repository, remove_repository,
  delete_repository,
}
use pandahub.Repos.Lookup.{IsSlugOfOwner}
use pandahub.Repos.Disk.Failure.{start, create_repository_error}
use pandahub.Repos.Disk.Create.{get_repo_by_owner_and_name-create_repository}
use pandahub.Repos.Disk.CreateRuns.{IsClear, create_repository_runs}
use pandahub.Repos.Disk.Fork.{with_fork}
use pandahub.Repos.Disk.Delete.{IsGone, delete_repository_lem}
use pandahub.Repos.Marks.{unstar_repository, is_star, is_starred, star_repository}
use pandahub.Repos.Marks.Stars.{has_star, unstar_repository-count}
use pandahub.Repos.Marks.Runs.{StarRequest, star, unstar, serve_all, apply_all}
use pandahub.Repos.Marks.Runs.Laws.{is_starred-serve_all}
use pandahub.Repos.Collaborators.{add_collaborator}
use pandahub.Repos.Collaborators.Laws.{assert_permission-add_collaborator}
use pandahub.Repos.Steps.{creates, stars, unchanged, one_more, Steps-IsValid}
use pandahub.Repos.Routes
use pandahub.Repos.Routes.Laws.{IsAdminCall, changed_by_admin}

abbrev ann : User
ann = record { id = 20; username = "ann"; is_active = true; is_verified = true }

abbrev bob : User
bob = record { id = 21; username = "bob"; is_active = true; is_verified = true }

abbrev acme : Organization
acme = record { id = 30; name = "acme" }

abbrev site : Repository
site = record {
  id = 7;
  owner_user_id = some 20;
  owner_organization_id = none;
  name = "site";
  description = none;
  visibility = public;
  default_branch = "main";
  is_fork = false;
  forked_from_id = none;
  is_archived = false;
  is_template = false;
  disk_path = "/git/7.git";
  star_count = 1;
  fork_count = 0;
  watcher_count = 0;
}

abbrev ownership : OrganizationMember
ownership = record { organization_id = 30; user_id = 20; role = OrganizationRole.owner }

abbrev access : AccessTables
access = record {
  organization_members = ownership ∷ [];
  collaborators = [];
  team_members = [];
  team_repositories = [];
}

abbrev store : RepoStore
store = record {
  users = ann ∷ bob ∷ [];
  organizations = acme ∷ [];
  repositories = site ∷ [];
  branches = [];
  stars = record { repository_id = 7; user_id = 21 } ∷ [];
  watchers = [];
  access = access;
}

-- A directory is the number of its commits.
abbrev git : BareRepositories ℕ
git = record {
  mkdir = λ path disk. (ok tt, disk);
  init_repository = λ directory. (ok tt, some 0);
  set_head = λ ref directory. (ok tt, directory);
  create_commit = λ ref readme directory. (ok tt, some 1);
  head_target = λ directory. ok "abc";
  clone_repository = λ source dest. (ok tt, source);
  rmtree = λ directory. (ok tt, none);
}

-- pygit2 without a disk: every call fails.
abbrev broken : BareRepositories ℕ
broken = record git { init_repository = λ directory. (err git_library, directory) }

abbrev disk : Disk ℕ
disk path = if str_eq path "/git/7.git" then some 3 else none

abbrev codecs : Codecs
codecs = record {
  jwt_decode = λ t. none;
  parse_uuid = λ s. none;
  b64decode = λ s. none;
  sha256 = λ s. s;
}

abbrev payload : RepositoryCreate
payload = record {
  name = "docs";
  description = none;
  visibility = private;
  default_branch = "main";
  auto_init = true;
  owner_organization_id = some 30;
}

program : Unit {0}
unfolding refers has_organization has_owner has_source owners_valid sources_valid select
    update_where delete_where unique same_id same_disk_path is_single has_single_owner same_branch
    same_star same_watcher has_repository has_user repositories_valid branches_valid stars_valid
    watchers_valid collaborators_valid satisfies_constraints names_owner is_owned_by is_excluded
    has_name owner_user build_disk_path is_star and_then initial_commit init_bare_repo
    new_repository level_rank scalar_one_or_none str
program = tt

store-IsValid : IsValid store
unfolding program
store-IsValid = record { constraints = refl; names = refl }

one_membership : unique same_member access.organization_members ≡ true
unfolding program
one_membership = refl

owns : (o : ℕ) → ◌≡◌ {A = Option ℕ} (some 30) (some o) → administers o 20 ownership ≡ true
unfolding administers is_admin_role
owns o q = ground (arith, q)

docs-IsClear : IsClear "/git" 8 20 payload store store-IsValid one_membership
unfolding program
docs-IsClear = record {
  known = (refl, refl);
  allowed = λ o q. (ownership, inl refl, owns o q);
  free = refl;
  fresh = refl;
  unused = refl;
}

docs_made : init_bare_repo git 8 "main" true (disk (build_disk_path "/git" 8)) ≡ (ok tt, some 1)
unfolding program
docs_made = refl

docs_created :
    (create_repository git "/git" 8 20 payload disk (start store)).0.0
    ≡ ok (new_repository "/git" 8 20 payload)
docs_created =
    create_repository_runs "/git" 8 20 payload store store-IsValid one_membership git disk disk
      (some 1) "abc" docs-IsClear refl docs_made refl

known_ann : has_user store.users 20 ≡ true
unfolding program
known_ann = refl

known_bob : has_user store.users 21 ≡ true
unfolding program
known_bob = refl

known_site : has_repository store.repositories 7 ≡ true
unfolding program
known_site = refl

stars_counted : All (HasStarCount store) store.repositories
unfolding program
stars_counted = (refl, tt)

read_below : level_rank read ≤ level_rank write
unfolding program
read_below = omega arith

create_repository_runs_example :
    (create_repository git "/git" 8 20 payload disk (start store)).0.0
    ≡ ok (new_repository "/git" 8 20 payload)
create_repository_runs_example =
    create_repository_runs "/git" 8 20 payload store store-IsValid one_membership git disk disk
      (some 1) "abc" docs-IsClear refl docs_made refl

create_repository_error_example :
    ((e : Error)
      → (create_repository broken "/git" 8 20 payload disk (start store)).0.0 ≡ err e
      → (create_repository broken "/git" 8 20 payload disk (start store)).0.1.committed ≡ store)
    × ((e : Error)
        → (prepare_repository "/git" 8 20 payload (start store)).0 ≡ err e
        → (create_repository broken "/git" 8 20 payload disk (start store)).1 ≡ disk)
    × ((repo : Repository) (other : String)
        → (prepare_repository "/git" 8 20 payload (start store)).0 ≡ ok repo
        → str_eq other (build_disk_path "/git" 8) ≡ false
        → (create_repository broken "/git" 8 20 payload disk (start store)).1 other
          ≡ (broken.mkdir "/git" disk).1 other)
create_repository_error_example = create_repository_error broken "/git" 8 20 disk store payload

acme_owns :
    IsSlugOfOwner "acme" store.users store.organizations (new_repository "/git" 8 20 payload)
unfolding program
acme_owns = inr (30, refl, refl, refl)

get_repo_by_owner_and_name-create_repository_example :
    run
      (get_repo_by_owner_and_name "acme" "docs")
      (create_repository git "/git" 8 20 payload disk (start store)).0.1.committed
    ≡ (
      ok (some (new_repository "/git" 8 20 payload)),
      (create_repository git "/git" 8 20 payload disk (start store)).0.1.committed,
    )
get_repo_by_owner_and_name-create_repository_example =
    get_repo_by_owner_and_name-create_repository git "/git" 8 20 payload disk store store-IsValid
      (new_repository "/git" 8 20 payload) "acme" docs_created acme_owns

Steps-IsValid_example :
    IsValid
      (run
        (star_repository 20 site)
        (create_repository git "/git" 8 20 payload disk (start store)).0.1.committed).1
Steps-IsValid_example =
    Steps-IsValid store _ store-IsValid
      (one_more (one_more unchanged (creates git "/git" 8 20 payload disk store)) (stars 20 site _))

fork_made :
    (fork_repository git "/git" 9 21 site none disk (start store)).0.0
    ≡ ok (new_fork "/git" 9 21 site none)
unfolding program prepare_fork ensure_name_available finish_fork clone_and_finish fork_repository
    add_repository set_fork_count change_repository new_fork scalar_one_or_none
fork_made = refl

-- Bob has no role in acme.
site-IsForkable : IsForkable "/git" 9 21 site (some 30) store
unfolding program
site-IsForkable = record {
  loaded = inl refl;
  known = (refl, refl);
  free = refl;
  fresh = refl;
  unused = refl;
}

fork_repository_runs_example : fork_repository git "/git" 9 21 site (some 30) disk (start store) ≡ (
  (
    ok (new_fork "/git" 9 21 site (some 30)),
    start (with_fork site (new_fork "/git" 9 21 site (some 30)) store),
  ),
  put
      (build_disk_path "/git" 9)
      (git.clone_repository (disk "/git/7.git") (disk (build_disk_path "/git" 9))).1
      disk,
)
fork_repository_runs_example =
    fork_repository_runs "/git" 9 21 site (some 30) store store-IsValid site-IsForkable git disk
      refl

delete_repository_lem_example :
    ((delete_repository git site disk (start store)).0 ≡ (ok tt, start (remove_repository 7 store)))
    × IsValid (remove_repository 7 store)
    × IsGone 7 (remove_repository 7 store)
    × ((delete_repository git site disk (start store)).1 "/git/7.git"
        ≡ (if is_some (disk "/git/7.git") then (git.rmtree (disk "/git/7.git")).1 else none))
    × ((other : String)
        → str_eq other "/git/7.git" ≡ false
        → (delete_repository git site disk (start store)).1 other ≡ disk other)
delete_repository_lem_example = delete_repository_lem git site disk store store-IsValid

abbrev requests : List StarRequest
requests = star 20 7 ∷ unstar 21 7 ∷ star 20 7 ∷ []

is_starred-serve_all_example :
    run (is_starred 21 7) (serve_all requests store)
    ≡ (ok (apply_all requests (λ u r. has_star u r store) 21 7), serve_all requests store)
is_starred-serve_all_example =
    is_starred-serve_all requests store 21 7 store-IsValid
      ((known_ann, known_site), ((known_bob, known_site), ((known_ann, known_site), tt)))

unstar_repository-count_example :
    ((run (unstar_repository 20 site) store).0 ≡ ok tt)
    × All
        (λ r. r.star_count ≡ (
          if (r.id == 7) && not (has_star 20 7 store)
          then length (
              select (λ x. x.repository_id == r.id) (run (unstar_repository 20 site) store).1.stars)
            - 1
          else length (
              select
                (λ x. x.repository_id == r.id)
                (run (unstar_repository 20 site) store).1.stars)))
        (run (unstar_repository 20 site) store).1.repositories
unstar_repository-count_example =
    unstar_repository-count 20 site store store-IsValid known_ann (inl refl) stars_counted

assert_permission-add_collaborator_example :
    (l : PermissionLevel) × (assert_permission
        (run (add_collaborator site 21 write) store).1.access
        (some 21)
        (for_resolver site)
        read
      ≡ ok l)
assert_permission-add_collaborator_example =
    assert_permission-add_collaborator site 21 store store-IsValid write known_bob (inl refl)
      one_membership read read_below

changed_by_admin_example :
    ((change : RepositoryUpdate)
      → (run (Routes.update_repository codecs (some "t") "ann" "site" change) store).1 ≢ store
      → IsAdminCall codecs (some "t") "ann" "site" store)
    × ((user_id : ℕ) (permission : PermissionLevel)
        → (run (Routes.add_collaborator codecs (some "t") "ann" "site" user_id permission) store).1
          ≢ store
        → IsAdminCall codecs (some "t") "ann" "site" store)
    × ((collaborator_id : ℕ)
        → (run (Routes.remove_collaborator codecs (some "t") "ann" "site" collaborator_id) store).1
          ≢ store
        → IsAdminCall codecs (some "t") "ann" "site" store)
    × ((Routes.delete_repository codecs git
            (some "t")
            "ann"
            "site"
            disk
            (start store)).0.1.committed
          ≢ store
        → IsAdminCall codecs (some "t") "ann" "site" store)
changed_by_admin_example = changed_by_admin codecs (some "t") "ann" "site" git disk store
