-- ===== src/Repos/Routes/Laws.antt =====
-- api/v1/repos.py: who changes a repository through the routes.
use mathlib.Core.Path.{subst}
use pandahub.Prelude.{ℕ, ◌≤◌, ◌≡◌, ◌≢◌, ap, sym, ◌∙◌, inl, inr, Option, some, false, String, arith}
use pandahub.Exceptions.{ok, Result-cases}
use pandahub.Session.{Session, Exec, run, ◌>>=◌}
use pandahub.Enums.{PermissionLevel, admin}
use pandahub.Permissions.{level_rank}
use pandahub.Permissions.Granted.{IsGranted}
use pandahub.GitAuth.{Codecs}
use pandahub.Repos.Store.{User, Repository, RepositoryUpdate, RepoStore, for_resolver}
use pandahub.Repos.Disk.{BareRepositories, Disk}
use pandahub.Repos.Disk.Failure.{start}
use pandahub.Dependencies.{get_repository, check_repo_permission}
use pandahub.Dependencies.Laws.{
  IsTokenOf, get_repository_keeps, check_keeps, check_repo_permission-IsGranted,
}
use pandahub.Repos.Routes.{
  gated, update_repository, add_collaborator, remove_collaborator, delete_repository,
  delete_if_gated,
}

only_admin : (l : PermissionLevel) → level_rank admin ≤ level_rank l → l ≡ admin
unfolding level_rank
only_admin l h = ground arith

module _ (codecs : Codecs) (token : Option String) (owner repo : String) where
  -- A stored user who is granted ADMIN on the repository of the path sent an access token.
  pub record IsAdminCall (d : RepoStore) : Type 0 where
    pub repository : Repository
    pub user : User
    pub of_path : (run (get_repository owner repo) d).0 ≡ ok repository
    pub presented : IsTokenOf codecs token d user
    pub granted : IsGranted d.access (some user.id) (for_resolver repository) admin

  gated_keeps :
      (minimum : PermissionLevel) (s : Session RepoStore)
      → (gated codecs minimum false token owner repo s).1 ≡ s
  unfolding gated
  gated_keeps minimum s = elim (Result-cases (get_repository owner repo s).0) [
    | inr (raised, e) ↦ ground (arith, get_repository_keeps owner repo s)
    | inl (repository, e) ↦ ground (
      arith,
      get_repository_keeps owner repo s,
      check_keeps codecs minimum false token repository s,
    )
  ]

  gated_source :
      (minimum : PermissionLevel) (s : Session RepoStore) (repository : Repository)
      → (gated codecs minimum false token owner repo s).0 ≡ ok repository
      → (l : PermissionLevel) × ((get_repository owner repo s).0 ≡ ok repository)
        × ((check_repo_permission codecs minimum false token repository s).0 ≡ ok l)
  unfolding gated
  gated_source minimum s repository h = elim (Result-cases (get_repository owner repo s).0) [
    | inr (raised, e) ↦ ground arith
    | inl (found, e) ↦
        elim (Result-cases (check_repo_permission codecs minimum false token found s).0) [
          | inr (raised, f) ↦ ground (arith, get_repository_keeps owner repo s)
          | inl (l, f) ↦
              let same : found ≡ repository = ground (arith, get_repository_keeps owner repo s) in
              (
                l,
                e ∙ ap ok same,
                ap (λ r. (check_repo_permission codecs minimum false token r s).0) (sym same) ∙ f,
              )
        ]
  ]

  admin_call :
      (d : RepoStore) (repository : Repository)
      → (gated codecs admin false token owner repo (start d)).0 ≡ ok repository
      → IsAdminCall d
  admin_call d repository h =
      let (l, found, c) = gated_source admin (start d) repository h in
      let (user, presented, granted, reaches) =
        check_repo_permission-IsGranted codecs admin l token repository (start d) c in
      record {
        repository = repository;
        user = user;
        of_path = found;
        presented = presented;
        granted =
            subst (λ k. IsGranted d.access (some user.id) (for_resolver repository) k)
              (only_admin l reaches) granted;
      }

  changed :
      {A : Type 0} (rest : Repository → Exec RepoStore A) (d : RepoStore)
      → (run (gated codecs admin false token owner repo >>= rest) d).1 ≢ d
      → IsAdminCall d
  changed rest d h = elim (Result-cases (gated codecs admin false token owner repo (start d)).0) [
    | inl (repository, e) ↦ admin_call d repository e
    | inr (raised, e) ↦
        absurd (h (rw (run, e) (ap (λ s. s.committed) (gated_keeps admin (start d)))))
  ]

  changed_by_deletion :
      {R : Type 0} (git : BareRepositories R) (disk : Disk R) (d : RepoStore)
      → (delete_repository codecs git token owner repo disk (start d)).0.1.committed ≢ d
      → IsAdminCall d
  unfolding delete_repository delete_if_gated
  changed_by_deletion git disk d h =
      elim (Result-cases (gated codecs admin false token owner repo (start d)).0) [
        | inl (repository, e) ↦ admin_call d repository e
        | inr (raised, e) ↦ absurd (h (rw e (ap (λ s. s.committed) (gated_keeps admin (start d)))))
      ]

  -- The routes that change the metadata of a repository or its grants, or delete it, leave every
  -- committed row as it was unless a stored user who is granted ADMIN on the repository of the path
  -- sent an access token.
  pub changed_by_admin :
      {R : Type 0} (git : BareRepositories R) (disk : Disk R) (d : RepoStore)
      → ((payload : RepositoryUpdate)
          → (run (update_repository codecs token owner repo payload) d).1 ≢ d
          → IsAdminCall d)
        × ((user_id : ℕ) (permission : PermissionLevel)
            → (run (add_collaborator codecs token owner repo user_id permission) d).1 ≢ d
            → IsAdminCall d)
        × ((collaborator_id : ℕ)
            → (run (remove_collaborator codecs token owner repo collaborator_id) d).1 ≢ d
            → IsAdminCall d)
        × ((delete_repository codecs git token owner repo disk (start d)).0.1.committed ≢ d
            → IsAdminCall d)
  unfolding update_repository add_collaborator remove_collaborator
  changed_by_admin git disk d = (
    λ payload h. changed _ d h,
    λ user_id permission h. changed _ d h,
    λ collaborator_id h. changed _ d h,
    λ h. changed_by_deletion git disk d h,
  )
