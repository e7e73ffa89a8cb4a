-- ===== src/Repos/Collaborators.antt =====
-- backend/app/services/repo_service.py: the direct grants, which the permission resolver reads.
pub mod Laws
use pandahub.Prelude.{ℕ, Option, none, some, List, [], ◌∷◌, ◌++◌, ◌==◌}
use pandahub.Session.{Exec, pure, lift, query, modify, commit, ◌>>=◌, ◌>>◌}
use pandahub.Table.{select, update_where, delete_where, scalar_one_or_none}
use pandahub.Enums.{PermissionLevel}
use pandahub.Permissions.{RepositoryCollaborator, AccessTables, collaborates}
use pandahub.Repos.Store.{Repository, RepoStore, satisfies_constraints}

-- A write to the grants.
abbrev pub change_collaborators :
    (List RepositoryCollaborator → List RepositoryCollaborator) → RepoStore → RepoStore
change_collaborators change d = record d {
  access = record d.access { collaborators = change d.access.collaborators };
}

unfoldable pub new_grant : Repository → (user_id : ℕ) → PermissionLevel → RepositoryCollaborator
new_grant repo user_id permission = record {
  repository_id = repo.id;
  user_id = user_id;
  permission = permission;
}

unfoldable pub set_permission : PermissionLevel → RepositoryCollaborator → RepositoryCollaborator
set_permission permission c = record c { permission = permission }

-- A row is the user's in the repository, so that an update reaches the row that was found.
unfoldable pub grant :
    Option RepositoryCollaborator
    → Repository
    → (user_id : ℕ) → PermissionLevel
    → Exec RepoStore RepositoryCollaborator
grant none repo user_id permission = do
  modify (change_collaborators (λ rows. rows ++ new_grant repo user_id permission ∷ []))
  commit satisfies_constraints
  pure (new_grant repo user_id permission)
grant (some collab) repo user_id permission = do
  modify (
      change_collaborators
        (update_where (collaborates repo.id user_id) (set_permission permission)))
  commit satisfies_constraints
  pure (set_permission permission collab)

unfoldable pub add_collaborator :
    Repository → (user_id : ℕ) → PermissionLevel → Exec RepoStore RepositoryCollaborator
add_collaborator repo user_id permission = do
  rows ← query (λ d. select (collaborates repo.id user_id) d.access.collaborators)
  existing ← lift (scalar_one_or_none rows)
  grant existing repo user_id permission

unfoldable pub remove_collaborator : Repository → (user_id : ℕ) → Exec RepoStore (Unit {0})
remove_collaborator repo user_id = do
  modify (change_collaborators (delete_where (collaborates repo.id user_id)))
  commit satisfies_constraints

unfoldable pub list_collaborators : (repo_id : ℕ) → Exec RepoStore (List RepositoryCollaborator)
list_collaborators repo_id =
    query (λ d. select (λ c. c.repository_id == repo_id) d.access.collaborators)
