-- ===== src/Issues/Tests.antt =====
-- A repository with two issues, and the theorems on it.
use pandahub.Issues.Rights.{IsPermitted, update_issue-IsPermitted}
use pandahub.Prelude.{
  if◌then◌else◌, inr, ◌≡◌, refl, inl, Option, none, some, Bool, true, false, ◌&&◌, [], ◌∷◌, ◌==◌,
}
use pandahub.Exceptions.{Error.integrity, Error.permission_denied, ok, err}
use pandahub.Session.{run}
use pandahub.Enums.{IssueState, open_, closed, MilestoneState, read, level_less, level_at_least}
use pandahub.Table.{select, update_where, delete_where, unique, max_of}
use pandahub.Issues.Store.{
  Label, Milestone, Issue, IssueComment, LabelCreate, IssueCreate, IssueUpdate, IssueStore,
  same_issue, same_issue_number, same_label_name, same_issue_label, same_assignee, has_user,
  has_milestone, issues_valid, links_valid, satisfies_constraints, assign_next_number,
  in_repository,
}
use pandahub.Issues.{
  Filters, valid_labels, set_texts, changes_state, can_change_state, set_state, change_of_state,
  set_lock_and_milestone, update_issue, close_issue, reopen_issue,
}
use pandahub.Issues.Valid.{IsValid}
use pandahub.Issues.Update.{updated, with_updated, is_refused, update_issue-IsValid}
use pandahub.Issues.Close.{reopen_issue-close_issue}

abbrev bug : Label
bug = record { id = 1; repository_id = 7; name = "bug"; color = "#ff0000"; description = none }

abbrev foreign : Label
foreign = record bug { id = 2; repository_id = 8 }

abbrev release : Milestone
release = record {
  id = 5;
  repository_id = 7;
  title = "1.0";
  description = none;
  due_date = some 400;
  state = MilestoneState.open_;
}

abbrev crash : Issue
crash = record {
  id = 100;
  repository_id = 7;
  number = 1;
  title = "Crash";
  description = none;
  state = open_;
  author_id = some 20;
  milestone_id = some 5;
  is_locked = false;
  closed_at = none;
  created_at = 50;
}

abbrev typo : Issue
typo = record crash {
  id = 101;
  number = 2;
  title = "Typo";
  state = closed;
  milestone_id = none;
  closed_at = some 60;
}

abbrev remark : IssueComment
remark = record { id = 200; issue_id = 100; author_id = some 21; body = "Me too"; created_at = 52 }

abbrev store : IssueStore
store = record {
  issues = crash ∷ typo ∷ [];
  issue_labels = record { issue_id = 100; label_id = 1 } ∷ [];
  issue_assignees = record { issue_id = 100; user_id = 21 } ∷ [];
  comments = remark ∷ [];
  labels = bug ∷ foreign ∷ [];
  milestones = release ∷ [];
  user_ids = 20 ∷ 21 ∷ [];
}

abbrev payload : IssueCreate
payload = record {
  title = "Slow";
  description = some "Very";
  label_ids = 1 ∷ 2 ∷ [];
  assignee_ids = 21 ∷ [];
  milestone_id = some 5;
}

abbrev change : (state : Option IssueState) → (is_locked : Option Bool) → IssueUpdate
change state is_locked = record {
  title = some "Renamed";
  description = none;
  state = state;
  label_ids = some (2 ∷ []);
  assignee_ids = none;
  milestone_id = none;
  is_locked = is_locked;
}

abbrev all_open : Filters
all_open = record { state = open_; label_ids = 1 ∷ []; assignee_id = some 21; milestone_id = none }

abbrev wish : LabelCreate
wish = record { name = "wish"; color = "#00ff00"; description = none }

program : Unit {0}
unfolding select update_where delete_where unique max_of same_issue same_issue_number
    same_label_name same_issue_label same_assignee has_user has_milestone issues_valid links_valid
    satisfies_constraints assign_next_number in_repository valid_labels level_at_least level_less
    changes_state can_change_state set_state change_of_state set_texts set_lock_and_milestone
program = tt

store-IsValid : IsValid store
unfolding program
store-IsValid = record { constraints = refl; closing_times = (refl, (refl, tt)) }

only_bug : valid_labels store 7 (1 ∷ 2 ∷ []) ≡ 1 ∷ []
unfolding program
only_bug = refl

locked_by_reader : is_refused (change none (some true)) 20 read crash ≡ true
unfolding program
locked_by_reader = refl

closed_by_author : is_refused (change (some closed) none) 20 read crash ≡ false
unfolding program
closed_by_author = refl

release_found : select (λ m. m.id == 5 && m.repository_id == 7) store.milestones ≡ release ∷ []
unfolding program
release_found = refl

update_issue-IsPermitted_example :
    (IsPermitted (change none (some true)) 20 read crash
      → run (update_issue 80 7 1 (change none (some true)) 20 read) store ≡ (
          if satisfies_constraints (with_updated 80 (change none (some true)) 100 7 store)
          then (
            ok (updated 80 (change none (some true)) crash),
            with_updated 80 (change none (some true)) 100 7 store,
          )
          else (err integrity, store)))
    × (¬ IsPermitted (change none (some true)) 20 read crash
        → run (update_issue 80 7 1 (change none (some true)) 20 read) store
          ≡ (err permission_denied, store))
update_issue-IsPermitted_example =
    update_issue-IsPermitted 80 store store-IsValid crash (inl refl) (change none (some true)) 20
      read

-- A reader may not lock, and the author may close.
reader_refused : ¬ IsPermitted (change none (some true)) 20 read crash
reader_refused p = elim (p.lock (λ q. cc)) [ inl e ↦ cc | inr e ↦ cc ]

author_passes : IsPermitted (change (some closed) none) 20 read crash
author_passes = record { state = λ state e n. inl refl; lock = λ n. absurd (n refl) }

update_issue-IsValid_example :
    IsValid (run (update_issue 80 7 1 (change (some closed) none) 20 read) store).1
update_issue-IsValid_example =
    update_issue-IsValid 80 store (change (some closed) none) 20 read 7 1 store-IsValid

reopen_issue-close_issue_example :
    (closed_one : Issue) × ((run (close_issue 80 7 1 20 read) store).0 ≡ ok closed_one)
    × (closed_one.state ≡ closed)
    × (closed_one.closed_at ≡ some 80)
    × (run (reopen_issue 85 7 1 20 read) (run (close_issue 80 7 1 20 read) store).1
        ≡ (ok crash, store))
reopen_issue-close_issue_example =
    reopen_issue-close_issue 80 85 store store-IsValid crash (inl refl) 20 read refl refl
