-- ===== src/Permissions/Text.antt =====
-- `>=` and `<` between members of `PermissionLevel`, as the services use them
-- (backend/app/services/issue_service.py and pr_service.py): `str` orders them alphabetically.
use pandahub.Prelude.{◌≡◌, ◌↔◌, ◌⊎◌, arith, true, false}
use pandahub.Enums.{PermissionLevel, read, triage, write, level_less, level_at_least}

-- `l >= PermissionLevel.TRIAGE` holds of TRIAGE and WRITE alone, and `l < PermissionLevel.WRITE` of
-- every level but WRITE: both tests turn MAINTAIN and ADMIN away.
pub level_at_least-triage :
    (l : PermissionLevel)
    → ((level_at_least l triage ≡ true) ↔ ((l ≡ triage) ⊎ (l ≡ write)))
      × ((level_less l write ≡ false) ↔ (l ≡ write))
unfolding level_at_least level_less
level_at_least-triage read = ground arith
level_at_least-triage _ = ground arith
