-- ===== src/Issues/Create.antt =====
-- issue_service.py: `create_issue` for every payload.
use pandahub.Prelude.{
  ℕ, ◌≡◌, ◌↔◌, refl, sym, inl, inr, Bool, List, [], ◌∷◌, map, arith, any, ◌&&◌, All, All-snoc, ◌==◌,
  if◌then◌else◌, Bool-cases, ==_refl,
}
use pandahub.Exceptions.{Error.integrity, ok, err}
use pandahub.Session.{run}
use pandahub.Table.{select, scalar_one_or_none}
use pandahub.Table.Laws.{In, select_none, In-map, map-In, In-select, select-In, any-In, In-any}
use pandahub.Table.Keys.{select-append}
use pandahub.Issues.Store.{
  Issue, Label, IssueCreate, IssueStore, satisfies_constraints, has_number, assign_next_number,
  found_or_404, get_issue_or_404,
}
use pandahub.Issues.{new_issue, valid_labels, add_labels, add_assignees, add_issue, create_issue}
use pandahub.Issues.Valid.{HasClosingTime, IsValid, next_number_free}

-- The ids that are attached as labels are those of the payload that are labels of the repository:
-- an id from elsewhere is dropped without an error.
pub valid_labels_iff :
    (d : IssueStore) (repo_id : ℕ) (label_ids : List ℕ) (id : ℕ)
    → In id (valid_labels d repo_id label_ids) ↔ (
        (label : Label) × In label d.labels
        × (label.id ≡ id)
        × (label.repository_id ≡ repo_id)
        × In id label_ids)
unfolding valid_labels
valid_labels_iff d repo_id label_ids id = (listed, attached)
  where
    wanted : Label → Bool
    wanted l = any (λ i. i == l.id) label_ids && l.repository_id == repo_id

    listed :
        In id (map (λ l. l.id) (select wanted d.labels))
        → (label : Label) × In label d.labels
          × (label.id ≡ id)
          × (label.repository_id ≡ repo_id)
          × In id label_ids
    listed m =
        let (l, i, e) = map-In (λ (l : Label). l.id) _ m in
        let (t, j) = select-In wanted d.labels i in
        let (n, k, q) = any-In (λ i. i == l.id) label_ids (ground arith) in
        let same : n ≡ id = ground arith in (l, j, sym e, ground arith, rw same at k)

    attached :
        (label : Label) × In label d.labels
          × (label.id ≡ id)
          × (label.repository_id ≡ repo_id)
          × In id label_ids
        → In id (map (λ l. l.id) (select wanted d.labels))
    attached (l, j, e, r, k) =
        let asked = In-any (λ i. i == l.id) label_ids id k (ground arith) in
        rw (← e)
          (In-map (λ (l : Label). l.id) _ l (In-select wanted d.labels {x = l} (ground arith) j))

module _ (new_id now repo_id author_id : ℕ) (payload : IssueCreate) (d : IssueStore) where
  abbrev pub created : Issue
  created = new_issue new_id now repo_id author_id payload (assign_next_number repo_id d)

  -- The rows that the request leaves behind when it commits.
  abbrev pub with_created : IssueStore
  with_created =
      add_assignees new_id payload.assignee_ids
        (add_labels new_id repo_id payload.label_ids (add_issue created d))

  created_found :
      select (has_number repo_id (assign_next_number repo_id d)) with_created.issues ≡ created ∷ []
  unfolding add_assignees add_labels add_issue
  created_found = rw select-append (
      rw
        (select_none (has_number repo_id (assign_next_number repo_id d)) d.issues
          (next_number_free repo_id d d.issues (λ issue i. i)))
        (unfold has_number new_issue select in
          ground (arith, ==_refl repo_id, ==_refl (assign_next_number repo_id d))))

  -- The request stores the issue with the next number, its labels and its assignees and returns
  -- it, if the rows then meet the constraints; otherwise IntegrityError is raised and no row
  -- changes.
  pub create_issue_lem : run (create_issue new_id now repo_id author_id payload) d ≡ (
      if satisfies_constraints with_created then (ok created, with_created) else (err integrity, d))
  unfolding create_issue get_issue_or_404 scalar_one_or_none found_or_404
  create_issue_lem = elim (Bool-cases (satisfies_constraints with_created)) [
    | inl e ↦ rw e (rw created_found refl)
    | inr e ↦ rw e refl
  ]

  closing_times : IsValid d → All HasClosingTime with_created.issues
  unfolding add_assignees add_labels add_issue new_issue
  closing_times v = All-snoc HasClosingTime d.issues created v.closing_times refl

  -- Whatever the payload, the rows stay valid.
  pub create_issue-IsValid :
      IsValid d → IsValid (run (create_issue new_id now repo_id author_id payload) d).1
  create_issue-IsValid v =
      rw create_issue_lem (elim (Bool-cases (satisfies_constraints with_created)) [
        | inl e ↦ rw e (record { constraints = e; closing_times = closing_times v })
        | inr e ↦ rw e v
      ])
