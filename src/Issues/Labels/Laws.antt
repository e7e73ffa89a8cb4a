-- ===== src/Issues/Labels/Laws.antt =====
-- issue_service.py: labels keep their names apart, and come and go without a trace.
use mathlib.Core.List.{append-nil}
use text.Mathlib.Text.{◌==◌ as str_eq}
use pandahub.Prelude.{
  ℕ, ◌≡◌, refl, ap, ◌∙◌, inl, inr, Bool, true, false, not, ◌&&◌, String, List, [], ◌∷◌, arith, any,
  ◌==◌, if◌then◌else◌, Bool-cases, ==_refl,
}
use pandahub.Exceptions.{Error.conflict, Error.integrity, ok, err}
use pandahub.Session.{run}
use pandahub.Table.{select, delete_where, scalar_one_or_none, unique}
use pandahub.Table.Laws.{select_none}
use pandahub.Table.Keys.{unique-snoc, unique-snoc_taken, select-append}
use pandahub.Table.Deletes.{unique-delete_where, delete_where_none, delete_where-append}
use pandahub.Issues.Store.{
  same_issue_label, Label, LabelCreate, LabelUpdate, IssueStore, same_label_name, issues_valid,
  links_valid, satisfies_constraints, found_or_404,
}
use pandahub.Issues.Labels.{
  new_label, add_label, create_label, find_label, set_label, change_label, update_label,
  remove_label, delete_label,
}
use pandahub.Issues.Valid.{IsValid}

-- A label of the repository has the name.
abbrev pub name_taken : (repo_id : ℕ) → (name : String) → IssueStore → Bool
name_taken repo_id name d = any (λ l. l.repository_id == repo_id && str_eq l.name name) d.labels

module _ (new_id repo_id : ℕ) (payload : LabelCreate) (d : IssueStore) (v : IsValid d) where
  same_name :
      (xs : List Label)
      → any (λ l. same_label_name l (new_label new_id repo_id payload)) xs
        ≡ any (λ l. l.repository_id == repo_id && str_eq l.name payload.name) xs
  unfolding same_label_name new_label
  same_name xs = refl

  accepted :
      satisfies_constraints (add_label (new_label new_id repo_id payload) d)
      ≡ not (name_taken repo_id payload.name d)
  unfolding satisfies_constraints issues_valid links_valid add_label
  accepted = ground (
    arith,
    v.constraints,
    same_name d.labels,
    unique-snoc same_label_name d.labels (new_label new_id repo_id payload),
    unique-snoc_taken same_label_name d.labels (new_label new_id repo_id payload),
  )

  -- A label is created unless its repository has one of the same name; then ConflictError is raised
  -- and no row changes.
  pub create_label_lem : run (create_label new_id repo_id payload) d ≡ (
      if name_taken repo_id payload.name d
      then (err conflict, d)
      else (ok (new_label new_id repo_id payload), add_label (new_label new_id repo_id payload) d))
  unfolding create_label
  create_label_lem = elim (Bool-cases (name_taken repo_id payload.name d)) [
    | inl e ↦ rw accepted (rw e refl)
    | inr e ↦ rw accepted (rw e refl)
  ]

  new_row :
      select
        (λ l. l.id == new_id && l.repository_id == repo_id)
        (new_label new_id repo_id payload ∷ [])
      ≡ new_label new_id repo_id payload ∷ []
  unfolding new_label select
  new_row = ground (arith, ==_refl new_id, ==_refl repo_id)

  new_row_gone : delete_where (λ l. l.id == new_id) (new_label new_id repo_id payload ∷ []) ≡ []
  unfolding new_label delete_where
  new_row_gone = ground (arith, ==_refl new_id)

  no_row :
      (xs : List Label)
      → any (λ l. l.id == new_id) xs ≡ false
      → any (λ l. l.id == new_id && l.repository_id == repo_id) xs ≡ false
  no_row [] h = refl
  no_row (x ∷ xs) h = ground (arith, no_row xs)

  removed : remove_label new_id (add_label (new_label new_id repo_id payload) d) ≡ (record d {
    labels = delete_where (λ l. l.id == new_id) d.labels;
    issue_labels = delete_where (λ l. l.label_id == new_id) d.issue_labels;
  })
  unfolding remove_label add_label
  removed =
      ap
        (λ labels. record d {
          labels = labels;
          issue_labels = delete_where (λ l. l.label_id == new_id) d.issue_labels;
        })
        (delete_where-append (λ l. l.id == new_id) d.labels (new_label new_id repo_id payload ∷ [])
          ∙ rw new_row_gone (append-nil (delete_where (λ l. l.id == new_id) d.labels)))

module _ (repo_id label_id : ℕ) (d : IssueStore) (label : Label)
    (found : select (λ l. l.id == label_id && l.repository_id == repo_id) d.labels
      ≡ label ∷ []) where
  still_valid : IsValid d → satisfies_constraints (remove_label label.id d) ≡ true
  unfolding satisfies_constraints issues_valid links_valid remove_label
  still_valid v = ground (
    arith,
    v.constraints,
    unique-delete_where same_issue_label (λ l. l.label_id == label.id) d.issue_labels,
    unique-delete_where same_label_name (λ l. l.id == label.id) d.labels,
  )

  names_decide :
      (change : Label → Label)
      → IsValid d
      → satisfies_constraints (change_label label.id change d)
        ≡ unique same_label_name (change_label label.id change d).labels
  unfolding satisfies_constraints issues_valid links_valid change_label
  names_decide change v = ground (arith, v.constraints)

  -- A label that the repository has under the id is deleted with its links to issues, and nothing
  -- else changes, the rows staying valid.
  pub delete_label_lem :
      IsValid d
      → (run (delete_label repo_id label_id) d ≡ (ok tt, remove_label label.id d))
        × IsValid (remove_label label.id d)
  unfolding delete_label find_label scalar_one_or_none found_or_404
  delete_label_lem v = (
    rw found (rw (still_valid v) refl),
    record { constraints = still_valid v; closing_times = unfold remove_label in v.closing_times },
  )

  -- A label that the repository has under the id is changed where the payload says so; a name that
  -- another label of the repository has is reported as an IntegrityError, and no row changes.
  pub update_label_lem :
      (payload : LabelUpdate)
      → IsValid d
      → run (update_label repo_id label_id payload) d ≡ (
          if unique same_label_name (change_label label.id (set_label payload) d).labels
          then (ok (set_label payload label), change_label label.id (set_label payload) d)
          else (err integrity, d))
  unfolding update_label find_label scalar_one_or_none found_or_404
  update_label_lem payload v =
      rw found
        (elim (Bool-cases
          (unique same_label_name (change_label label.id (set_label payload) d).labels)) [
            | inl e ↦ rw e (rw (names_decide (set_label payload) v ∙ e) refl)
            | inr e ↦ rw e (rw (names_decide (set_label payload) v ∙ e) refl)
          ])

module _ (new_id repo_id : ℕ) (payload : LabelCreate) (d : IssueStore) (v : IsValid d) where
  made_found :
      any (λ l. l.id == new_id) d.labels ≡ false
      → select
          (λ l. l.id == new_id && l.repository_id == repo_id)
          (add_label (new_label new_id repo_id payload) d).labels
        ≡ new_label new_id repo_id payload ∷ []
  unfolding add_label
  made_found fresh = rw select-append (
      rw
        (select_none (λ l. l.id == new_id && l.repository_id == repo_id) d.labels
          (no_row new_id repo_id payload d v d.labels fresh))
        (new_row new_id repo_id payload d v))

  made-IsValid :
      name_taken repo_id payload.name d ≡ false
      → IsValid (add_label (new_label new_id repo_id payload) d)
  made-IsValid free = record {
    constraints = accepted new_id repo_id payload d v ∙ ap not free;
    closing_times = unfold add_label in v.closing_times;
  }

  nothing_left :
      any (λ l. l.id == new_id) d.labels ≡ false
      → any (λ l. l.label_id == new_id) d.issue_labels ≡ false
      → remove_label
          (new_label new_id repo_id payload).id
          (add_label (new_label new_id repo_id payload) d)
        ≡ d
  unfolding new_label
  nothing_left fresh unused =
      removed new_id repo_id payload d v
      ∙ rw (delete_where_none (λ l. l.id == new_id) d.labels fresh)
          (rw (delete_where_none (λ l. l.label_id == new_id) d.issue_labels unused) refl)

  -- On valid rows, a label that was created under a new id and a free name is deleted again
  -- without a trace: the rows are those before it came.
  pub delete_label-create_label :
      name_taken repo_id payload.name d ≡ false
      → any (λ l. l.id == new_id) d.labels ≡ false
      → any (λ l. l.label_id == new_id) d.issue_labels ≡ false
      → run (delete_label repo_id new_id) (run (create_label new_id repo_id payload) d).1
        ≡ (ok tt, d)
  delete_label-create_label free fresh unused =
      rw (create_label_lem new_id repo_id payload d v, free)
        ((delete_label_lem repo_id new_id (add_label (new_label new_id repo_id payload) d)
            (new_label new_id repo_id payload) (made_found fresh) (made-IsValid free)).0
          ∙ rw (nothing_left fresh unused) refl)
