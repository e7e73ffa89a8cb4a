-- ===== src/Enums.antt =====
-- backend/app/models/enums.py: the enumerations that the services test. Every class is a
-- `str` with `Enum`, so that members compare as the strings that they are.
mod Order
unfoldable pub use Order.{codes, str_less, str_at_least}
use pandahub.Prelude.{String, Bool, true, false, not}

pub data RepositoryVisibility : Type 0 where
  public private internal : RepositoryVisibility

pub data PermissionLevel : Type 0 where
  read triage write maintain admin : PermissionLevel

pub data OrganizationRole : Type 0 where
  owner admin member : OrganizationRole

pub data IssueState : Type 0 where
  open_ closed : IssueState

pub data PullRequestState : Type 0 where
  open_ closed merged : PullRequestState

pub data ReviewState : Type 0 where
  pending approved changes_requested commented : ReviewState

pub data MilestoneState : Type 0 where
  open_ closed : MilestoneState

-- PermissionLevel.value, which is also the string that a member is.
unfoldable pub level_value : PermissionLevel → String
level_value read = "read"
level_value triage = "triage"
level_value write = "write"
level_value maintain = "maintain"
level_value admin = "admin"

-- a < b and a >= b on members: the operators of `str`.
unfoldable pub level_less : PermissionLevel → PermissionLevel → Bool
unfolding level_value str_less
level_less a b = str_less (level_value a) (level_value b)

unfoldable pub level_at_least : PermissionLevel → PermissionLevel → Bool
unfolding level_value str_at_least
level_at_least a b = str_at_least (level_value a) (level_value b)

-- == between members
abbrev pub is_issue_state : IssueState → IssueState → Bool
is_issue_state open_ open_ = true
is_issue_state closed closed = true
is_issue_state _ _ = false

abbrev pub is_pull_request_state : PullRequestState → PullRequestState → Bool
is_pull_request_state open_ open_ = true
is_pull_request_state closed closed = true
is_pull_request_state merged merged = true
is_pull_request_state _ _ = false

abbrev pub is_milestone_state : MilestoneState → MilestoneState → Bool
is_milestone_state open_ open_ = true
is_milestone_state closed closed = true
is_milestone_state _ _ = false
