-- ===== src/Issues/Lists.antt =====
-- issue_service.py: `list_issues` and `delete_issue`.
use pandahub.Prelude.{
  ◌≤◌, ℕ, ◌-◌, ◌*◌, ◌≤◌, ◌<◌, min, ◌≡◌, refl, ap, ◌∙◌, Bool, true, List, [], ◌∷◌, arith, ◌&&◌, All,
  length, ltb, ◌==◌, ==_refl,
}
use pandahub.Exceptions.{Error.not_found, Error.other_exception, ok, err}
use pandahub.Session.{run}
use pandahub.Table.{select, order_by, paginate, scalar_one_or_none}
use pandahub.Table.Laws.{
  In, In-select, select_none, select-All, All-order_by, All-paginate, All-implies, length-paginate,
  length-order_by,
}
use pandahub.Table.Keys.{unique_row}
use pandahub.Table.Deletes.{
  All-delete_where, delete_where_gone, unique-delete_where, all-delete_where,
}
use pandahub.Table.Pages.{no_bad_offset, In-paginate, In-order_by}
use pandahub.Issues.Store.{
  Issue, IssueStore, same_issue, same_issue_number, same_issue_label, same_assignee, has_user,
  has_milestone, issues_valid, links_valid, satisfies_constraints, has_number, found_or_404,
  get_issue_or_404,
}
use pandahub.Issues.{
  Filters, has_label, base_filter, filtered, list_issues, get_issue, remove_issue, delete_issue,
}
use pandahub.Issues.Valid.{HasClosingTime, IsValid, select-number, numbers_unique}

module _ (d : IssueStore) (repo_id : ℕ) (f : Filters) where
  -- The conditions that a listing with one label at most asks for.
  abbrev pub wanted : List ℕ → Issue → Bool
  wanted [] issue = base_filter d repo_id f issue
  wanted (label ∷ labels) issue = base_filter d repo_id f issue && has_label d label issue

  abbrev later : Issue → Issue → Bool
  later a b = ltb b.created_at a.created_at

  listed_rows :
      (labels : List ℕ)
      → length labels ≤ 1
      → filtered d repo_id f labels ≡ ok (select (wanted labels) d.issues)
  unfolding filtered
  listed_rows [] h = refl
  listed_rows (label ∷ []) h = refl
  listed_rows (label ∷ other ∷ more) h = absurd (omega arith)

  -- A listing that filters by one label at most holds on each page of a positive size only issues
  -- that meet all the filters, as many as fit of those that are left after the pages before, and
  -- counts all of them; each of them stands on some page. Pages are counted from 1.
  pub list_issues_lem :
      (per_page : ℕ)
      → 0 < per_page
      → length f.label_ids ≤ 1
      → (listed : (page : ℕ) → List Issue) × (total : ℕ) × ((page : ℕ)
          → 1 ≤ page
          → (run (list_issues repo_id f page per_page) d ≡ (ok (listed page, total), d))
            × All (λ issue. wanted f.label_ids issue ≡ true) (listed page)
            × (length (listed page) ≡ min per_page (total - (page - 1) * per_page)))
        × ((issue : Issue)
            → In issue d.issues
            → wanted f.label_ids issue ≡ true
            → (page : ℕ) × (1 ≤ page) × In issue (listed page))
  unfolding list_issues
  list_issues_lem per_page pos h =
      let base : List Issue = select (wanted f.label_ids) d.issues in
      (
        λ page. paginate page per_page (order_by later base),
        length base,
        λ page first. (
          rw (listed_rows f.label_ids h, no_bad_offset page per_page first) refl,
          All-paginate (λ issue. wanted f.label_ids issue ≡ true) page per_page _
              (All-order_by (λ issue. wanted f.label_ids issue ≡ true) later base
                (select-All (wanted f.label_ids) d.issues)),
          length-paginate page per_page (order_by later base)
              ∙ ap (λ n. min per_page (n - (page - 1) * per_page)) (length-order_by later base),
        ),
        λ issue i t. In-paginate per_page (order_by later base) issue pos (
            In-order_by later base issue (In-select (wanted f.label_ids) d.issues {x = issue} t i)),
      )

  -- A listing that filters by several labels fails: the query joins one table twice under one name.
  pub list_issues_labels :
      (page per_page first second : ℕ) (more : List ℕ)
      → f.label_ids ≡ first ∷ second ∷ more
      → run (list_issues repo_id f page per_page) d ≡ (err other_exception, d)
  unfolding list_issues filtered
  list_issues_labels page per_page first second more e = rw e refl

module _ (d : IssueStore) (v : IsValid d) (issue : Issue) (i : In issue d.issues) where
  constraints_after : satisfies_constraints (remove_issue issue.id d) ≡ true
  unfolding remove_issue satisfies_constraints issues_valid links_valid
  constraints_after = ground (
    arith,
    v.constraints,
    unique-delete_where same_issue (λ x. x.id == issue.id) d.issues,
    unique-delete_where same_issue_number (λ x. x.id == issue.id) d.issues,
    all-delete_where (has_milestone d.milestones) (λ x. x.id == issue.id) d.issues,
    unique-delete_where same_issue_label (λ l. l.issue_id == issue.id) d.issue_labels,
    unique-delete_where same_assignee (λ a. a.issue_id == issue.id) d.issue_assignees,
    all-delete_where (has_user d.user_ids) (λ a. a.issue_id == issue.id) d.issue_assignees,
  )

  gone : select (has_number issue.repository_id issue.number) (remove_issue issue.id d).issues ≡ []
  unfolding remove_issue
  gone = select_none (has_number issue.repository_id issue.number) _ (
      delete_where_gone (has_number issue.repository_id issue.number) (λ x. x.id == issue.id)
        d.issues
        (All-implies (λ x. same_issue_number x issue ≡ true → x ≡ issue)
          (λ x. has_number issue.repository_id issue.number x ≡ true → (x.id == issue.id) ≡ true)
          d.issues (λ x h t. rw (h (unfold same_issue_number has_number in t)) (==_refl issue.id))
          (unique_row same_issue_number d.issues issue
            (λ a b. unfold same_issue_number in ground arith) (numbers_unique d v.constraints) i)))

  -- On valid rows, a stored issue is deleted with its labels, assignees and comments: the rows
  -- stay valid, and the issue is not found any more.
  pub delete_issue_lem :
      (run (delete_issue issue.repository_id issue.number) d ≡ (ok tt, remove_issue issue.id d))
      × IsValid (remove_issue issue.id d)
      × (run (get_issue issue.repository_id issue.number) (remove_issue issue.id d)
          ≡ (err not_found, remove_issue issue.id d))
  unfolding delete_issue get_issue get_issue_or_404 found_or_404 scalar_one_or_none
  delete_issue_lem = (
    rw (select-number d issue v.constraints i) (rw constraints_after refl),
    record {
      constraints = constraints_after;
      closing_times =
          unfold remove_issue in
          All-delete_where HasClosingTime (λ x. x.id == issue.id) d.issues v.closing_times;
    },
    rw gone refl,
  )
