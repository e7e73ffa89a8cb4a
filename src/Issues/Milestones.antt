-- ===== src/Issues/Milestones.antt =====
-- issue_service.py: the milestones of a repository.
pub mod Laws
use mathlib.Core.Option.{get_or}
use pandahub.Prelude.{
  ℕ, Option, none, some, Bool, true, false, ◌&&◌, ◌||◌, List, [], ◌∷◌, ◌++◌, map, ltb, is_some_of,
  ◌==◌, if◌then◌else◌,
}
use pandahub.Exceptions.{Error.not_found, Error.integrity, Result, ok, err}
use pandahub.Session.{Exec, pure, raise, lift, query, or_raise, modify, commit, ◌>>=◌, ◌>>◌}
use pandahub.Table.{select, update_where, delete_where, scalar_one_or_none, order_by}
use pandahub.Enums.{MilestoneState, is_milestone_state}
use pandahub.Issues.Store.{
  Issue, Milestone, MilestoneCreate, MilestoneUpdate, IssueStore, satisfies_constraints,
  found_or_404,
}

-- due_date.asc().nulls_last()
unfoldable pub due_before : Option ℕ → Option ℕ → Bool
due_before none b = false
due_before (some s) none = true
due_before (some s) (some t) = ltb s t

unfoldable pub list_milestones : (repo_id : ℕ) → MilestoneState → Exec IssueStore (List Milestone)
list_milestones repo_id state = do
  rows ← query (λ d.
      select (λ m. m.repository_id == repo_id && is_milestone_state m.state state) d.milestones)
  pure (order_by (λ a b. due_before a.due_date b.due_date) rows)

unfoldable pub new_milestone : (new_id repo_id : ℕ) → MilestoneCreate → Milestone
new_milestone new_id repo_id payload = record {
  id = new_id;
  repository_id = repo_id;
  title = payload.title;
  description = payload.description;
  due_date = payload.due_date;
  state = MilestoneState.open_;
}

unfoldable pub create_milestone : (new_id repo_id : ℕ) → MilestoneCreate → Exec IssueStore Milestone
create_milestone new_id repo_id payload = do
  modify (λ d. record d { milestones = d.milestones ++ new_milestone new_id repo_id payload ∷ [] })
  commit satisfies_constraints
  pure (new_milestone new_id repo_id payload)

-- The milestone with the id in the repository.
unfoldable pub find_milestone : (repo_id milestone_id : ℕ) → Exec IssueStore Milestone
find_milestone repo_id milestone_id = do
  rows ← query (λ d. select (λ m. m.id == milestone_id && m.repository_id == repo_id) d.milestones)
  found ← lift (scalar_one_or_none rows)
  found_or_404 found

-- A column that is NOT NULL would be set to null, which the flush of the commit refuses.
unfoldable pub is_null : {A : Type 0} → Option (Option A) → Bool
is_null (some none) = true
is_null _ = false

-- `setattr` for each field that was sent.
unfoldable pub set_fields : MilestoneUpdate → Milestone → Milestone
set_fields payload m = record m {
  title = get_or (get_or payload.title none) m.title;
  description = get_or payload.description m.description;
  due_date = get_or payload.due_date m.due_date;
  state = get_or (get_or payload.state none) m.state;
}

unfoldable pub change_milestone : ℕ → (Milestone → Milestone) → IssueStore → IssueStore
change_milestone id change d = record d {
  milestones = update_where (λ m. m.id == id) change d.milestones;
}

unfoldable pub update_milestone :
    (repo_id milestone_id : ℕ) → MilestoneUpdate → Exec IssueStore Milestone
update_milestone repo_id milestone_id payload = do
  m ← find_milestone repo_id milestone_id
  or_raise (is_null payload.title || is_null payload.state) integrity
  modify (change_milestone m.id (set_fields payload))
  commit satisfies_constraints
  pure (set_fields payload m)

-- ondelete="SET NULL"
unfoldable pub unset_milestone : Issue → Issue
unset_milestone issue = record issue { milestone_id = none }

unfoldable pub remove_milestone : ℕ → IssueStore → IssueStore
remove_milestone id d = record d {
  milestones = delete_where (λ m. m.id == id) d.milestones;
  issues = update_where (λ issue. is_some_of issue.milestone_id id) unset_milestone d.issues;
}

unfoldable pub delete_milestone : (repo_id milestone_id : ℕ) → Exec IssueStore (Unit {0})
delete_milestone repo_id milestone_id = do
  m ← find_milestone repo_id milestone_id
  modify (remove_milestone m.id)
  commit satisfies_constraints
