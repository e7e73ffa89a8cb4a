-- ===== src/Lib.antt =====
-- PandaHub: who may do what to a repository, and what pull requests, issues and the error log go
-- through.
--
-- PandaHub is a code hosting service: FastAPI routes call services, which read and write database
-- tables through SQLAlchemy and git repositories through pygit2. A route first asks the permission
-- resolver for the caller's level, then hands it to the service, which may compare it again. Errors
-- are exceptions that the handlers turn into answers and record in a log.
--
-- Shared:
--   Prelude             library names, Boolean tests, lists over native numbers, `str` of numbers
--   Exceptions          backend/app/core/exceptions.py: the error classes and their attributes;
--                       Log is the ring buffer, Handlers the exception handlers
--   Session             backend/app/db/session.py: a request's session. A request is a function from
--                       the session to a result and the session afterwards; an error keeps what was
--                       committed and drops the rest when the session closes. The commit checks the
--                       constraints of the database.
--   Table               SQLAlchemy's queries over tables as lists of rows: select, scalar_one_or_none,
--                       update, delete, order_by, offset and limit, max. Laws, Keys, Deletes, Pages and
--                       Sorted are lemmas on them.
-- Parts:
--   Enums               backend/app/models/enums.py, with Python's order of the texts of a str enum
--   Permissions         backend/app/permissions/resolver.py and the gate of api/dependencies.py
--                       (resolve_permission, assert_permission, require_repo_permission). Granted
--                       says which grants there are; Resolve, Greatest and Access compare the
--                       code with it.
--   Merger              backend/app/git_engine/merger.py (check_mergeability, get_pr_diff,
--                       merge_commit)
--   Pulls               backend/app/services/pr_service.py. Store has the rows and queries, Merging
--                       merge_pull_request and get_pull_request_diff; Valid is the invariant.
--   Sockets             backend/app/websockets/manager.py: the sockets of each process (connect,
--                       disconnect), and publish with the delivery in every process; Laws and
--                       Deliver say who is connected and who receives an event.
--   GitAuth             backend/app/git_engine/auth.py (authenticate_git_request), with the rows of
--                       models/user.py; Laws says who is let in, Token that a good token does it.
--                       Tokens makes and revokes the tokens.
--   Issues              backend/app/services/issue_service.py. Store has the rows and queries;
--                       Labels, Milestones and Comments the operations on these; Valid the invariant,
--                       Rights whom an update is open to.
--   Repos               backend/app/services/repo_service.py. Store has the rows of models/repo.py and
--                       their constraints, Disk what touches the disk (create_repository,
--                       fork_repository, delete_repository), Marks stars and watchers,
--                       Collaborators the grants, Routes the routes of api/v1/repos.py. Valid is the
--                       invariant, Steps the service as a step relation, Marks.Runs a run of star
--                       requests against the set that it stands for.
--   Organizations       backend/app/api/v1/orgs.py: organizations and their members; Teams has the
--                       routes for teams, Store the rows of models/organization.py, Owners who may
--                       change what, Members what a removal does.
--   Accounts            backend/app/services/auth_service.py. Store has the rows of models/user.py and
--                       the parameter Secrets, Sessions the refresh tokens, the password changes,
--                       the second factor and the login routes of api/v1/auth.py; Rotation, Passwords
--                       and Login have the theorems.
--   RateLimit           backend/app/core/rate_limit.py, over the parameter Redis.
--   Dependencies        backend/app/api/dependencies.py (get_current_user and its variants,
--                       get_repository, the check of require_repo_permission on a request);
--                       Challenge compares it with GitAuth.
--
-- The code's guards are in the order of the code. An id is a number, a time is a number, and the
-- database's new ids and the clock are arguments. The rows of the tables carry the columns that
-- the services read and write. pygit2 is the parameter Pygit of Merger: what its merge, its commit
-- ids and its diffs are; BareRepositories of Repos is what its calls, shutil.rmtree and pathlib's
-- mkdir do to the directories, also when they fail. The token library, base64 and SHA-256 are the
-- parameter Codecs of GitAuth, which Secrets of Accounts repeats with the password hashes, Fernet
-- and the one-time codes, and whether a socket still takes a text is a parameter of Sockets, where
-- Redis hands each event to every process. The refs of all repositories are the state that a merge
-- moves, which no rollback undoes. A commit fails where the constraints that the model names are
-- broken; a lost connection and the like are left out. A field of RepositoryUpdate can be sent as
-- null. An error is its class, and other_exception is every exception of Python that the model
-- does not name: the overrides that a single exception can pass to its constructor and the texts
-- of messages are left out. Numbers are unbounded, as Python's are, and no definition needs fuel
-- but `str`, which takes as many steps as the number, more than its digits.
--
-- Not modelled: the eager loading of related rows, which changes what is returned but not what is
-- stored; two requests at once; request validation, serialisation and the other routes; logins by
-- OAuth; the services for pages, startups and AI reviews, the scanners, the background jobs, the
-- command line client and the frontend.
pub mod Prelude
pub mod Exceptions
pub mod Session
pub mod Table
pub mod Enums
pub mod Permissions
pub mod Merger
pub mod Pulls
pub mod Issues
pub mod GitAuth
pub mod Sockets
pub mod Repos
pub mod Organizations
pub mod Dependencies
pub mod Accounts
pub mod RateLimit
