-- ===== src/Pulls/MergeLaws.antt =====
-- pr_service.py: `merge_pull_request` on every branch, with the refs of the repositories.
use mathlib.Core.Path.{subst}
use pandahub.Prelude.{
  ℕ, ◌≡◌, ◌≢◌, refl, ap, sym, ◌∙◌, ◌⊎◌, inl, inr, some, true, false, List, [], ◌∷◌, all, Bool-cases,
  String, arith, ◌==◌,
}
use pandahub.Exceptions.{
  Error, Error.permission_denied, Error.integrity, Result, ok, err, Result-cases,
}
use pandahub.Session.{Session}
use pandahub.Table.{update_where, unique, select, scalar_one_or_none}
use pandahub.Table.Laws.{select-In, scalar_some, In}
use pandahub.Table.Keys.{All-update_row}
use pandahub.Enums.{open_, PermissionLevel, write}
use pandahub.Permissions.{Repository}
use pandahub.Permissions.Text.{level_at_least-triage}
use pandahub.Merger.{Pygit, Refs, Sides, merge_commit}
use pandahub.Merger.Laws.{merge_commit_error}
use pandahub.Pulls.Store.{
  User, has_user, null_or_user, has_merger, people_valid, same_id, has_number, PullRequest,
  PullStore, satisfies_constraints, found_or_404, get_pr_or_404, update_pull,
}
use pandahub.Pulls.Merging.{
  commit_msg, merge_email, source_path, source_disk_path, prepare_merge, merge_error, set_merged,
  record_merge, execute_merge, merge_pull_request,
}
use pandahub.Pulls.Valid.{HasClosingTime, IsValid}
use pandahub.Pulls.Update.{KeepsKeys, constraints-update_pull}

-- A request's session when it starts.
abbrev pub start : PullStore → Session PullStore
start d = record { committed = d; current = d }

pub set_merged-KeepsKeys : (now actor_id sha : ℕ) → KeepsKeys (set_merged now actor_id sha)
unfolding set_merged
set_merged-KeepsKeys now actor_id sha = record {
  id = λ pr. refl;
  repository = λ pr. refl;
  number = λ pr. refl;
  source = λ pr. refl;
  author = λ pr. refl;
}

merger_known :
    (now actor_id sha i : ℕ) (users : List User) (prs : List PullRequest)
    → has_user users actor_id ≡ true
    → all (has_merger users) prs ≡ true
    → all (has_merger users) (update_where (λ pr. pr.id == i) (set_merged now actor_id sha) prs)
      ≡ true
unfolding update_where set_merged has_merger null_or_user
merger_known now actor_id sha i users [] k h = refl
merger_known now actor_id sha i users (x ∷ xs) k h =
    ground (arith, k, h, merger_known now actor_id sha i users xs k)

-- A merge by a stored user breaks no constraint.
pub merged_constraints :
    (now actor_id sha i : ℕ) (d : PullStore)
    → has_user d.users actor_id ≡ true
    → satisfies_constraints d ≡ true
    → satisfies_constraints (update_pull i (set_merged now actor_id sha) d) ≡ true
merged_constraints now actor_id sha i d k v =
    let before : all (has_merger d.users) d.pull_requests ≡ true =
      unfold satisfies_constraints people_valid in ground (arith, v) in
    constraints-update_pull (set_merged now actor_id sha) (set_merged-KeepsKeys now actor_id sha) i
      d
      (unfold update_pull in
        (merger_known now actor_id sha i d.users d.pull_requests k before ∙ sym before))
    ∙ v

-- The guards write nothing.
prepare_merge_keeps :
    (repo : Repository) (number : ℕ) (l : PermissionLevel) (s : Session PullStore)
    → (prepare_merge repo number l s).1 ≡ s
unfolding prepare_merge get_pr_or_404 found_or_404 source_disk_path source_path
prepare_merge_keeps repo number l s = ground arith

-- What the guards passed is an open pull request with the number, and the caller's level is WRITE.
prepare_merge_source :
    (repo : Repository) (number : ℕ) (l : PermissionLevel) (s : Session PullStore)
    (pr : PullRequest) (both : Sides)
    → (prepare_merge repo number l s).0 ≡ ok (pr, both)
    → (l ≡ write)
      × (pr.state ≡ open_)
      × (scalar_one_or_none (select (has_number repo.id number) s.current.pull_requests)
          ≡ ok (some pr))
unfolding prepare_merge get_pr_or_404 found_or_404 source_disk_path source_path
prepare_merge_source repo number l s pr both h =
    (ground (arith, level_at_least-triage l), ground arith, ground arith)

record_merge_error :
    (now actor_id : ℕ) (pr : PullRequest) (e : Error) (s : Session PullStore)
    → (record_merge now actor_id pr (err e) s).0 ≡ err (merge_error e)
unfolding record_merge
record_merge_error now actor_id pr e s = refl

-- A merge that went through is stored, if the database takes the row.
record_merge_stored :
    (now actor_id sha : ℕ) (pr : PullRequest) (d : PullStore)
    → satisfies_constraints (update_pull pr.id (set_merged now actor_id sha) d) ≡ true
    → record_merge now actor_id pr (ok sha) (start d) ≡ (
      ok (set_merged now actor_id sha pr),
      start (update_pull pr.id (set_merged now actor_id sha) d),
    )
unfolding record_merge
record_merge_stored now actor_id sha pr d t = rw t refl

record_merge_refused :
    (now actor_id sha : ℕ) (pr : PullRequest) (d : PullStore)
    → satisfies_constraints (update_pull pr.id (set_merged now actor_id sha) d) ≡ false
    → record_merge now actor_id pr (ok sha) (start d) ≡ (
      err integrity,
      record { committed = d; current = update_pull pr.id (set_merged now actor_id sha) d },
    )
unfolding record_merge
record_merge_refused now actor_id sha pr d t = rw t refl

module _ (git : Pygit) (now actor_id : ℕ) (username : String) (refs : Refs) (d : PullStore) where
  abbrev execute : Result (PullRequest × Sides) → (Result PullRequest × Session PullStore) × Refs
  execute prepared = execute_merge git now actor_id username refs prepared (start d)

  -- The merge went through, but the database refused the row: the branch has moved all the same.
  pub record MovedOnly (prepared : Result (PullRequest × Sides)) (e : Error) (refs' : Refs)
      : Type 0 where
    pub pr : PullRequest
    pub both : Sides
    pub passed : prepared ≡ ok (pr, both)
    pub sha : ℕ
    pub commit :
        merge_commit git refs both username merge_email (commit_msg pr) now ≡ (ok sha, refs')
    pub raised : e ≡ integrity
    pub refused : satisfies_constraints (update_pull pr.id (set_merged now actor_id sha) d) ≡ false

  execute_error :
      (prepared : Result (PullRequest × Sides)) (e : Error)
      → (execute prepared).0.0 ≡ err e
      → ((execute prepared).0.1.committed ≡ d)
        × (((execute prepared).1 ≡ refs) ⊎ MovedOnly prepared e (execute prepared).1)
  unfolding execute_merge
  execute_error (err x) e h = (refl, inl refl)
  execute_error (ok (pr, both)) e h =
      elim (Result-cases (merge_commit git refs both username merge_email (commit_msg pr) now).0) [
        | inr (x, q) ↦ (
          rw q (unfold record_merge in refl),
          inl (merge_commit_error git refs both username merge_email (commit_msg pr) now x q),
        )
        | inl (sha, q) ↦
            elim (Bool-cases
              (satisfies_constraints (update_pull pr.id (set_merged now actor_id sha) d))) [
                | inl t ↦ cc (
                    ap (λ (r : Result PullRequest × Session PullStore). r.0)
                      (record_merge_stored now actor_id sha pr d t))
                | inr t ↦
                    let ended = record_merge_refused now actor_id sha pr d t in
                    (
                      ap (λ r. (record_merge now actor_id pr r (start d)).1.committed) q
                          ∙ ap (λ (r : Result PullRequest × Session PullStore). r.1.committed)
                              ended,
                      inr (record {
                        pr = pr;
                        both = both;
                        passed = refl;
                        sha = sha;
                        commit =
                            ap
                              (λ r. (
                                r,
                                (merge_commit git refs both username merge_email (commit_msg pr)
                                    now).1,
                              ))
                              q;
                        raised =
                            cc (
                              ap (λ (r : Result PullRequest × Session PullStore). r.0) ended,
                              h,
                              q,
                            );
                        refused = t;
                      }),
                    )
              ]
      ]

  -- What a success tells about the prepared merge.
  pub record Merged (prepared : Result (PullRequest × Sides)) (after : PullRequest)
      (committed : PullStore) (refs' : Refs) : Type 0 where
    pub pr : PullRequest
    pub both : Sides
    pub sha : ℕ
    pub passed : prepared ≡ ok (pr, both)
    pub commit :
        merge_commit git refs both username merge_email (commit_msg pr) now ≡ (ok sha, refs')
    pub returned : after ≡ set_merged now actor_id sha pr
    pub stored : committed ≡ update_pull pr.id (set_merged now actor_id sha) d
    pub accepted : satisfies_constraints (update_pull pr.id (set_merged now actor_id sha) d) ≡ true

  execute_success :
      (prepared : Result (PullRequest × Sides)) (after : PullRequest)
      → (execute prepared).0.0 ≡ ok after
      → Merged prepared after (execute prepared).0.1.committed (execute prepared).1
  unfolding execute_merge
  execute_success (err x) after h = cc
  execute_success (ok (pr, both)) after h =
      elim (Result-cases (merge_commit git refs both username merge_email (commit_msg pr) now).0) [
        | inr (x, q) ↦ cc (record_merge_error now actor_id pr x (start d), h)
        | inl (sha, q) ↦
            elim (Bool-cases
              (satisfies_constraints (update_pull pr.id (set_merged now actor_id sha) d))) [
                | inr t ↦ cc (
                    ap (λ (r : Result PullRequest × Session PullStore). r.0)
                      (record_merge_refused now actor_id sha pr d t))
                | inl t ↦
                    let ended = record_merge_stored now actor_id sha pr d t in
                    record {
                      pr = pr;
                      both = both;
                      sha = sha;
                      passed = refl;
                      commit =
                          ap
                            (λ r. (
                              r,
                              (merge_commit git refs both username merge_email (commit_msg pr)
                                  now).1,
                            ))
                            q;
                      returned =
                          cc (ap (λ (r : Result PullRequest × Session PullStore). r.0) ended, h, q);
                      stored =
                          ap (λ r. (record_merge now actor_id pr r (start d)).1.committed) q
                          ∙ ap (λ (r : Result PullRequest × Session PullStore). r.1.committed)
                              ended;
                      accepted = t;
                    }
              ]
      ]

module _ (git : Pygit) (now : ℕ) (repo : Repository) (number actor_id : ℕ) (username : String)
    (actor_permission : PermissionLevel) (refs : Refs) (d : PullStore) where
  abbrev merge : (Result PullRequest × Session PullStore) × Refs
  merge = merge_pull_request git now repo number actor_id username actor_permission refs (start d)

  -- Every level but WRITE is refused, MAINTAIN and ADMIN included; no row and no branch changes.
  pub merge_pull_request_denied :
      actor_permission ≢ write → merge ≡ ((err permission_denied, start d), refs)
  unfolding merge_pull_request prepare_merge execute_merge
  merge_pull_request_denied h = ground (arith, level_at_least-triage actor_permission)

  error_cases :
      (e : Error)
      → merge.0.0 ≡ err e
      → (merge.0.1.committed ≡ d)
        × ((merge.1 ≡ refs)
            ⊎ MovedOnly git now actor_id username refs d
                (prepare_merge repo number actor_permission (start d)).0
                e
                merge.1)
  unfolding merge_pull_request
  error_cases e h = rw (prepare_merge_keeps repo number actor_permission (start d)) (
      execute_error git now actor_id username refs d
        (prepare_merge repo number actor_permission (start d)).0 e
        (rw (prepare_merge_keeps repo number actor_permission (start d)) at h))

  -- On valid rows, a merge that raises leaves the rows as they were, and the branches too, unless it
  -- raises IntegrityError for a caller that the database does not know: the checks had then passed
  -- and the branches are those that merge_commit left, although the pull request stays open.
  pub merge_pull_request_error :
      (e : Error)
      → IsValid d
      → merge.0.0 ≡ err e
      → (merge.0.1.committed ≡ d)
        × ((merge.1 ≡ refs)
            ⊎ MovedOnly git now actor_id username refs d
                (prepare_merge repo number actor_permission (start d)).0
                e
                merge.1)
        × (has_user d.users actor_id ≡ true → merge.1 ≡ refs)
  merge_pull_request_error e v h =
      let (rows, moved) = error_cases e h in
      (
        rows,
        moved,
        λ known. elim moved [
          | inl same ↦ same
          | inr m ↦
              cc (merged_constraints now actor_id m.sha m.pr.id d known v.constraints, m.refused)
        ],
      )

  -- The facts about the pull request before and after a merge that returned one.
  pub record Success (after : PullRequest) : Type 0 where
    pub pr : PullRequest
    pub both : Sides
    pub sha : ℕ
    pub level : actor_permission ≡ write
    pub open_before : pr.state ≡ open_
    pub listed : In pr d.pull_requests
    pub numbered : pr.number ≡ number
    pub in_repository : pr.repository_id ≡ repo.id
    pub commit :
        merge_commit git refs both username merge_email (commit_msg pr) now ≡ (ok sha, merge.1)
    pub returned : after ≡ set_merged now actor_id sha pr
    pub stored : merge.0.1.committed ≡ update_pull pr.id (set_merged now actor_id sha) d
    pub accepted : satisfies_constraints (update_pull pr.id (set_merged now actor_id sha) d) ≡ true

  -- On valid rows, a merge that succeeds was asked for at the level WRITE, of an open pull request
  -- with the number, and ran as `merge_commit` with the refs that remain; the row that is returned
  -- and stored is the loaded one, marked as merged with the new commit.
  pub merge_pull_request-Success :
      (after : PullRequest) → IsValid d → merge.0.0 ≡ ok after → Success after
  unfolding merge_pull_request
  merge_pull_request-Success after v h =
      let prepared = (prepare_merge repo number actor_permission (start d)).0 in
      let same = prepare_merge_keeps repo number actor_permission (start d) in
      let m = execute_success git now actor_id username refs d prepared after (rw same at h) in
      let (l, o, f) =
        prepare_merge_source repo number actor_permission (start d) m.pr m.both m.passed in
      let (t, i) = select-In (has_number repo.id number) d.pull_requests (scalar_some _ f) in
      record {
        pr = m.pr;
        both = m.both;
        sha = m.sha;
        level = l;
        open_before = o;
        listed = i;
        numbered = unfold has_number in ground arith;
        in_repository = unfold has_number in ground arith;
        commit = rw same m.commit;
        returned = m.returned;
        stored = rw same m.stored;
        accepted = m.accepted;
      }

  ids_unique : IsValid d → unique same_id d.pull_requests ≡ true
  unfolding satisfies_constraints
  ids_unique v = ground (arith, v.constraints)

  merged-IsValid :
      (pr : PullRequest) (sha : ℕ)
      → IsValid d
      → In pr d.pull_requests
      → pr.state ≡ open_
      → satisfies_constraints (update_pull pr.id (set_merged now actor_id sha) d) ≡ true
      → IsValid (update_pull pr.id (set_merged now actor_id sha) d)
  merged-IsValid pr sha v i o accepted = record {
    constraints = accepted;
    closing_times =
        unfold update_pull set_merged in
        All-update_row HasClosingTime (λ x y. x.id == y.id) (set_merged now actor_id sha)
          d.pull_requests pr (λ a b. ground arith) (unfold same_id in ids_unique v) i
          (λ c. ground arith) v.closing_times;
  }

  -- A merge keeps valid rows valid, whether it succeeds or raises.
  pub merge_pull_request-IsValid : IsValid d → IsValid merge.0.1.committed
  merge_pull_request-IsValid v = elim (Result-cases merge.0.0) [
    | inl (after, h) ↦
        let s = merge_pull_request-Success after v h in
        subst IsValid (sym s.stored) (merged-IsValid s.pr s.sha v s.listed s.open_before s.accepted)
    | inr (e, h) ↦ subst IsValid (sym ((merge_pull_request_error e v h).0)) v
  ]
