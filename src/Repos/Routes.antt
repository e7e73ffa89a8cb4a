-- ===== src/Repos/Routes.antt =====
-- backend/app/api/v1/repos.py: the routes that change repositories, with their gates.
-- FastAPI calls the dependencies of a route in the order of its parameters.
pub mod Laws
use pandahub.Prelude.{ℕ, Option, none, some, Bool, true, false, String, List, ◌==◌}
use pandahub.Exceptions.{Error.other_exception, Result, ok, err}
use pandahub.Session.{Session, Exec, pure, raise, lift, query, ◌>>=◌, ◌>>◌}
use pandahub.Table.{select, scalar_one_or_none}
use pandahub.Enums.{PermissionLevel, read, maintain, admin}
use pandahub.Permissions.{RepositoryCollaborator}
use pandahub.GitAuth.{Codecs}
use pandahub.Repos.Store.{User, Repository, RepositoryCreate, RepositoryUpdate, RepoStore}
use pandahub.Repos
use pandahub.Repos.Disk
use pandahub.Repos.Disk.{BareRepositories, Disk}
use pandahub.Repos.Marks.{star_repository, unstar_repository}
use pandahub.Repos.Collaborators
use pandahub.Dependencies.{
  get_current_active_user, get_current_verified_user, get_repository, check_repo_permission,
}

pub record StarStatusOut : Type 0 where
  pub starred : Bool
  pub star_count : ℕ

-- db.refresh: without a row it raises InvalidRequestError.
unfoldable pub refreshed : Option Repository → Exec RepoStore Repository
refreshed none = raise other_exception
refreshed (some repo) = pure repo

unfoldable pub refresh : Repository → Exec RepoStore Repository
refresh repo = do
  rows ← query (λ d. select (λ r. r.id == repo.id) d.repositories)
  row ← lift (scalar_one_or_none rows)
  refreshed row

module _ (codecs : Codecs) where
  -- The repository of the path, if the caller's level reaches the minimum.
  unfoldable pub gated :
      (minimum : PermissionLevel)
      → (allow_anonymous : Bool) → (token : Option String) → (owner repo : String)
      → Exec RepoStore Repository
  gated minimum allow_anonymous token owner repo = do
    repository ← get_repository owner repo
    check_repo_permission codecs minimum allow_anonymous token repository
    pure repository

  unfoldable pub get_repository_metadata :
      (token : Option String) → (owner repo : String) → Exec RepoStore Repository
  get_repository_metadata token owner repo = gated read true token owner repo

  unfoldable pub update_repository :
      (token : Option String) → (owner repo : String) → RepositoryUpdate → Exec RepoStore Repository
  update_repository token owner repo payload = do
    repository ← gated admin false token owner repo
    Repos.update_repository repository payload

  -- The repository and the current user of a star.
  unfoldable pub starrer :
      (token : Option String) → (owner repo : String) → Exec RepoStore (Repository × User)
  starrer token owner repo = do
    repository ← get_repository owner repo
    current_user ← get_current_active_user codecs token
    check_repo_permission codecs read true token repository
    pure (repository, current_user)

  unfoldable pub star_repo :
      (token : Option String) → (owner repo : String) → Exec RepoStore StarStatusOut
  star_repo token owner repo = do
    (repository, current_user) ← starrer token owner repo
    star_repository current_user.id repository
    row ← refresh repository
    pure (record { starred = true; star_count = row.star_count })

  unfoldable pub unstar_repo :
      (token : Option String) → (owner repo : String) → Exec RepoStore StarStatusOut
  unstar_repo token owner repo = do
    (repository, current_user) ← starrer token owner repo
    unstar_repository current_user.id repository
    row ← refresh repository
    pure (record { starred = false; star_count = row.star_count })

  unfoldable pub list_collaborators :
      (token : Option String) → (owner repo : String) → Exec RepoStore (List RepositoryCollaborator)
  list_collaborators token owner repo = do
    repository ← gated maintain false token owner repo
    Collaborators.list_collaborators repository.id

  unfoldable pub add_collaborator :
      (token : Option String)
      → (owner repo : String) → (user_id : ℕ) → PermissionLevel
      → Exec RepoStore RepositoryCollaborator
  add_collaborator token owner repo user_id permission = do
    repository ← gated admin false token owner repo
    Collaborators.add_collaborator repository user_id permission

  unfoldable pub remove_collaborator :
      (token : Option String)
      → (owner repo : String) → (collaborator_id : ℕ) → Exec RepoStore (Unit {0})
  remove_collaborator token owner repo collaborator_id = do
    repository ← gated admin false token owner repo
    Collaborators.remove_collaborator repository collaborator_id

  module _ {R : Type 0} (git : BareRepositories R) where
    unfoldable pub delete_if_gated :
        Disk R
        → Result Repository
        → Session RepoStore
        → (Result (Unit {0}) × Session RepoStore) × Disk R
    delete_if_gated disk (err e) s = ((err e, s), disk)
    delete_if_gated disk (ok repository) s = Disk.delete_repository git repository disk s

    unfoldable pub delete_repository :
        (token : Option String)
        → (owner repo : String) → Disk R
        → Session RepoStore
        → (Result (Unit {0}) × Session RepoStore) × Disk R
    delete_repository token owner repo disk s =
        let (repository, s') = gated admin false token owner repo s in
        delete_if_gated disk repository s'

    unfoldable pub create_if_known :
        (root : String)
        → (repo_id : ℕ) → RepositoryCreate
        → Disk R
        → Result User
        → Session RepoStore
        → (Result Repository × Session RepoStore) × Disk R
    create_if_known root repo_id payload disk (err e) s = ((err e, s), disk)
    create_if_known root repo_id payload disk (ok user) s =
        Disk.create_repository git root repo_id user.id payload disk s

    unfoldable pub create_repository :
        (is_development : Bool)
        → (token : Option String) → (root : String) → (repo_id : ℕ) → RepositoryCreate
        → Disk R
        → Session RepoStore
        → (Result Repository × Session RepoStore) × Disk R
    create_repository is_development token root repo_id payload disk s =
        let (user, s') = get_current_verified_user codecs is_development token s in
        create_if_known root repo_id payload disk user s'

    unfoldable pub forker :
        (is_development : Bool)
        → (token : Option String) → (owner repo : String) → Exec RepoStore (Repository × User)
    forker is_development token owner repo = do
      repository ← get_repository owner repo
      current_user ← get_current_verified_user codecs is_development token
      check_repo_permission codecs read true token repository
      pure (repository, current_user)

    unfoldable pub fork_if_gated :
        (root : String)
        → (repo_id : ℕ) → (owner_organization_id : Option ℕ) → Disk R
        → Result (Repository × User)
        → Session RepoStore
        → (Result Repository × Session RepoStore) × Disk R
    fork_if_gated root repo_id owner_organization_id disk (err e) s = ((err e, s), disk)
    fork_if_gated root repo_id owner_organization_id disk (ok (repository, user)) s =
        Disk.fork_repository git root repo_id user.id repository owner_organization_id disk s

    unfoldable pub fork_repo :
        (is_development : Bool)
        → (token : Option String) → (owner repo root : String) → (repo_id : ℕ)
        → (owner_organization_id : Option ℕ) → Disk R
        → Session RepoStore
        → (Result Repository × Session RepoStore) × Disk R
    fork_repo is_development token owner repo root repo_id owner_organization_id disk s =
        let (gate, s') = forker is_development token owner repo s in
        fork_if_gated root repo_id owner_organization_id disk gate s'
