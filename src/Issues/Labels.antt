-- ===== src/Issues/Labels.antt =====
-- issue_service.py: the labels of a repository.
pub mod Laws
use mathlib.Core.Option.{get_or}
use pandahub.Prelude.{
  ℕ, Option, none, some, Bool, true, false, ◌&&◌, String, List, [], ◌∷◌, ◌++◌, map, ◌==◌,
  if◌then◌else◌,
}
use pandahub.Exceptions.{Error.conflict, Error.not_found, Result, ok, err}
use pandahub.Session.{
  Exec, pure, raise, lift, query, modify, commit, rollback, try_except, ◌>>=◌, ◌>>◌,
}
use pandahub.Table.{select, update_where, delete_where, scalar_one_or_none, order_by}
use pandahub.Issues.Store.{
  Label, IssueLabel, LabelCreate, LabelUpdate, IssueStore, satisfies_constraints, found_or_404,
}

-- ORDER BY name: the order of strings is the collation of the database.
unfoldable pub list_labels : (String → String → Bool) → (repo_id : ℕ) → Exec IssueStore (List Label)
list_labels collates repo_id = do
  rows ← query (λ d. select (λ l. l.repository_id == repo_id) d.labels)
  pure (order_by (λ a b. collates a.name b.name) rows)

unfoldable pub new_label : (new_id repo_id : ℕ) → LabelCreate → Label
new_label new_id repo_id payload = record {
  id = new_id;
  repository_id = repo_id;
  name = payload.name;
  color = payload.color;
  description = payload.description;
}

unfoldable pub add_label : Label → IssueStore → IssueStore
add_label label d = record d { labels = d.labels ++ label ∷ [] }

-- Whatever the commit raises becomes a ConflictError, after a rollback.
unfoldable pub create_label : (new_id repo_id : ℕ) → LabelCreate → Exec IssueStore Label
create_label new_id repo_id payload = do
  modify (add_label (new_label new_id repo_id payload))
  try_except (commit satisfies_constraints) (rollback >> raise conflict)
  pure (new_label new_id repo_id payload)

-- The label with the id in the repository.
unfoldable pub find_label : (repo_id label_id : ℕ) → Exec IssueStore Label
find_label repo_id label_id = do
  rows ← query (λ d. select (λ l. l.id == label_id && l.repository_id == repo_id) d.labels)
  found ← lift (scalar_one_or_none rows)
  found_or_404 found

unfoldable pub set_label : LabelUpdate → Label → Label
set_label payload label = record label {
  name = get_or payload.name label.name;
  color = get_or payload.color label.color;
  description = elim payload.description [ none ↦ label.description | some d ↦ some d ];
}

unfoldable pub change_label : ℕ → (Label → Label) → IssueStore → IssueStore
change_label id change d = record d { labels = update_where (λ l. l.id == id) change d.labels }

unfoldable pub update_label : (repo_id label_id : ℕ) → LabelUpdate → Exec IssueStore Label
update_label repo_id label_id payload = do
  label ← find_label repo_id label_id
  modify (change_label label.id (set_label payload))
  commit satisfies_constraints
  pure (set_label payload label)

-- The foreign key of `issue_labels` deletes with a label its links to issues.
unfoldable pub remove_label : ℕ → IssueStore → IssueStore
remove_label id d = record d {
  labels = delete_where (λ l. l.id == id) d.labels;
  issue_labels = delete_where (λ l. l.label_id == id) d.issue_labels;
}

unfoldable pub delete_label : (repo_id label_id : ℕ) → Exec IssueStore (Unit {0})
delete_label repo_id label_id = do
  label ← find_label repo_id label_id
  modify (remove_label label.id)
  commit satisfies_constraints
