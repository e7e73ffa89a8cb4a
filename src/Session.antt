-- ===== src/Session.antt =====
-- backend/app/db/session.py: one request's view of the database.
-- A session holds what is committed and what the request has written. A request that raises
-- leaves its uncommitted writes behind: `get_db` only closes the session.
use pandahub.Prelude.{Bool, if◌then◌else◌}
use pandahub.Exceptions.{Error, Error.integrity, Result, ok, err}

pub record Session (D : Type 0) : Type 0 where
  pub committed : D
  pub current : D

abbrev pub Exec : Type 0 → Type 0 → Type 0
Exec D A = Session D → Result A × Session D

module _ {D A : Type 0} where
  abbrev pub pure : A → Exec D A
  pure a s = (ok a, s)

  abbrev pub raise : Error → Exec D A
  raise e s = (err e, s)

  abbrev pub lift : Result A → Exec D A
  lift r s = (r, s)

  -- A query over the rows that the session sees.
  abbrev pub query : (D → A) → Exec D A
  query f s = (ok (f s.current), s)

module _ {D : Type 0} where
  -- `raise e` if the test holds
  abbrev pub or_raise : Bool → Error → Exec D (Unit {0})
  or_raise b e s = if b then (err e, s) else (ok tt, s)

  -- Writes that the session holds until the next commit.
  abbrev pub modify : (D → D) → Exec D (Unit {0})
  modify f s = (ok tt, record s { current = f s.current })

  -- The commit flushes the writes; the database refuses rows that break a constraint.
  abbrev pub commit : (D → Bool) → Exec D (Unit {0})
  commit valid s =
      if valid s.current then (ok tt, record s { committed = s.current }) else (err integrity, s)

  -- The flush sends the writes, so that a broken constraint shows; nothing is committed yet.
  abbrev pub flush : (D → Bool) → Exec D (Unit {0})
  flush valid s = if valid s.current then (ok tt, s) else (err integrity, s)

  abbrev pub rollback : Exec D (Unit {0})
  rollback s = (ok tt, record s { current = s.committed })

module _ {D A B : Type 0} where
  abbrev pub continue : Result A → (A → Exec D B) → Exec D B
  continue (ok a) f s = f a s
  continue (err e) f s = (err e, s)

  infixl 10 ◌>>=◌ ◌>>◌
  abbrev pub ◌>>=◌ : Exec D A → (A → Exec D B) → Exec D B
  ◌>>=◌ m f s = let (r, s') = m s in continue r f s'

  abbrev pub ◌>>◌ : Exec D A → Exec D B → Exec D B
  m >> n = m >>= λ _. n

module _ {D A : Type 0} where
  -- `try: m except Exception: handler`
  abbrev pub handle_error : Result A → Exec D A → Exec D A
  handle_error (ok a) handler s = (ok a, s)
  handle_error (err e) handler s = handler s

  abbrev pub try_except : Exec D A → Exec D A → Exec D A
  try_except m handler s = let (r, s') = m s in handle_error r handler s'

  -- A request on a fresh session: its answer, and the database after the session is closed.
  abbrev pub run : Exec D A → D → Result A × D
  run m d = let (r, s) = m (record { committed = d; current = d }) in (r, s.committed)
