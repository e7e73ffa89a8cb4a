-- ===== src/Repos/Lookup.antt =====
-- repo_service.py and dependencies.py: a repository is found under its owner and its name.
use text.Mathlib.Text.{◌==◌ as str_eq}
use text.Mathlib.TextEquality.{eq_iff}
use pandahub.Prelude.{
  ℕ, ◌≡◌, refl, sym, ap, ◌∙◌, ◌⊎◌, inl, inr, Option, none, some, Bool, true, ◌&&◌, String, List, [],
  map, ◌∷◌, arith, all, ==_refl,
}
use pandahub.Exceptions.{Result, ok}
use pandahub.Session.{run}
use pandahub.Table.{select, scalar_one_or_none}
use pandahub.Table.Laws.{In}
use pandahub.Table.Keys.{select_single}
use pandahub.Repos.Store.{
  Repository, User, Organization, RepoStore, has_single_owner, is_single, names_owner, is_owned_by,
  repositories_valid, satisfies_constraints,
}
use pandahub.Repos.{
  is_named_of_user, is_named_of_organization, user_named, organization_named, repository_of_user,
  repository_of_organization, in_organization, of_user_or_organization, get_repo_by_owner_and_name,
}
use pandahub.Repos.Valid.{same_name, IsValid}

-- A test that all rows pass may be added to a query.
test_added :
    {A : Type 0} (p q : A → Bool) (xs : List A)
    → all q xs ≡ true
    → select (λ x. q x && p x) xs ≡ select p xs
unfolding select
test_added p q [] h = refl
test_added p q (x ∷ xs) h = ground (arith, test_added p q xs)

all-In : {A : Type 0} (p : A → Bool) (xs : List A) {x : A} → all p xs ≡ true → In x xs → p x ≡ true
all-In p [] h i = elim i [ ]
all-In p (y ∷ ys) h (inl q) = ground (arith, ap p q)
all-In p (y ∷ ys) h (inr i) = all-In p ys (ground arith) i

names_equal : (a b c : String) → str_eq a c ≡ true → str_eq b c ≡ true → str_eq a b ≡ true
names_equal a b c h k = (eq_iff a b).1 ((eq_iff a c).0 h ∙ sym ((eq_iff b c).0 k))

self : (a : String) → str_eq a a ≡ true
self a = (eq_iff a a).1 refl

-- What the queries for the slug return.
abbrev user_found : (owner_slug : String) → List User → Result (Option ℕ)
user_found owner_slug users =
    scalar_one_or_none (map (λ u. u.id) (select (λ u. str_eq u.username owner_slug) users))

abbrev organization_found : (owner_slug : String) → List Organization → Result (Option ℕ)
organization_found owner_slug organizations =
    scalar_one_or_none (map (λ o. o.id) (select (λ o. str_eq o.name owner_slug) organizations))

-- The slug is the user name of the repository's owner, or else the name of its organization.
abbrev pub IsSlugOfOwner :
    (owner_slug : String) → List User → List Organization → Repository → Type 0
IsSlugOfOwner owner_slug users organizations repo =
    ((u : ℕ) × (user_found owner_slug users ≡ ok (some u)) × (repo.owner_user_id ≡ some u))
    ⊎ ((o : ℕ) × (user_found owner_slug users ≡ ok none)
        × (organization_found owner_slug organizations ≡ ok (some o))
        × (repo.owner_organization_id ≡ some o))

module _ (d : RepoStore) (v : IsValid d) (repo : Repository) (i : In repo d.repositories) where
  user_agree :
      (u : ℕ) (name : String) (a b : Repository)
      → is_named_of_user u name a ≡ true
      → is_named_of_user u name b ≡ true
      → same_name a b ≡ true
  unfolding is_named_of_user is_owned_by names_owner
  user_agree u name a b h k = ground (arith, names_equal a.name b.name name)

  organization_agree :
      (o : ℕ) (name : String) (a b : Repository)
      → (has_single_owner a && is_named_of_organization o name a) ≡ true
      → (has_single_owner b && is_named_of_organization o name b) ≡ true
      → same_name a b ≡ true
  unfolding is_named_of_organization is_owned_by names_owner has_single_owner is_single
  organization_agree o name a b h k = ground (arith, names_equal a.name b.name name)

  singles : all has_single_owner d.repositories ≡ true
  unfolding satisfies_constraints repositories_valid
  singles = ground (arith, v.constraints)

  pub found_of_user :
      (u : ℕ)
      → repo.owner_user_id ≡ some u
      → select (is_named_of_user u repo.name) d.repositories ≡ repo ∷ []
  unfolding is_named_of_user
  found_of_user u e =
      select_single same_name (is_named_of_user u repo.name) d.repositories repo
        (user_agree u repo.name) v.names (ground (arith, ==_refl u, self repo.name)) i

  pub found_of_organization :
      (o : ℕ)
      → repo.owner_organization_id ≡ some o
      → has_single_owner repo ≡ true
      → select (is_named_of_organization o repo.name) d.repositories ≡ repo ∷ []
  unfolding is_named_of_organization
  found_of_organization o e single =
      sym
        (test_added (is_named_of_organization o repo.name) has_single_owner d.repositories singles)
      ∙ select_single same_name (λ r. has_single_owner r && is_named_of_organization o repo.name r)
          d.repositories repo (organization_agree o repo.name) v.names
          (ground (arith, ==_refl o, self repo.name)) i

  -- On valid rows, a stored repository is found under its name and the user name of its owner, or,
  -- where no user has that name, the name of the organization that owns it.
  pub get_repo_by_owner_and_name_lem :
      (owner_slug : String)
      → IsSlugOfOwner owner_slug d.users d.organizations repo
      → run (get_repo_by_owner_and_name owner_slug repo.name) d ≡ (ok (some repo), d)
  unfolding get_repo_by_owner_and_name of_user_or_organization user_named organization_named
      repository_of_user repository_of_organization in_organization scalar_one_or_none
  get_repo_by_owner_and_name_lem owner_slug (inl (u, h, e)) = rw (h, found_of_user u e) refl
  get_repo_by_owner_and_name_lem owner_slug (inr (o, h, k, f)) =
      rw (h, k, found_of_organization o f (all-In has_single_owner d.repositories singles i)) refl
