-- ===== src/Permissions/Rank.antt =====
-- resolver.py: the order of levels and the loop that keeps the highest.
use Prim.Native.Nat.{max}
use pandahub.Prelude.{ℕ, ◌≤◌, ◌≡◌, ap, ◌⊎◌, inl, inr, Option, none, some, List, [], ◌∷◌, arith}
use pandahub.Table.Laws.{In}
use pandahub.Enums.{PermissionLevel}
use pandahub.Permissions.{level_rank, max_level, highest}

-- No access ranks below every level.
abbrev pub option_rank : Option PermissionLevel → ℕ
option_rank none = 0
option_rank (some l) = level_rank l

pub level_rank_pos : (l : PermissionLevel) → 1 ≤ level_rank l
unfolding level_rank
level_rank_pos l = ground arith

pub level_rank_max : (l : PermissionLevel) → level_rank l ≤ 5
unfolding level_rank
level_rank_max l = ground arith

pub level_rank_inj : (a b : PermissionLevel) → level_rank a ≡ level_rank b → a ≡ b
unfolding level_rank
level_rank_inj a b h = ground arith

pub option_rank-max_level :
    (a b : Option PermissionLevel)
    → option_rank (max_level a b) ≡ max (option_rank a) (option_rank b)
unfolding max_level
option_rank-max_level none b = omega arith
option_rank-max_level (some a) none = omega arith
option_rank-max_level (some a) (some b) = ground arith

pub option_rank-highest :
    (start : Option PermissionLevel) (ls : List PermissionLevel)
    → option_rank start ≤ option_rank (highest start ls)
unfolding highest
option_rank-highest start [] = omega arith
option_rank-highest start (l ∷ ls) =
    omega (
      arith,
      option_rank-max_level start (some l),
      option_rank-highest (max_level start (some l)) ls,
    )

pub highest-In :
    (start : Option PermissionLevel) (ls : List PermissionLevel) (l : PermissionLevel)
    → In l ls
    → level_rank l ≤ option_rank (highest start ls)
unfolding highest
highest-In start [] l m = elim m [ ]
highest-In start (k ∷ ls) l (inl q) = omega (
  arith,
  ap level_rank q,
  option_rank-max_level start (some k),
  option_rank-highest (max_level start (some k)) ls,
)
highest-In start (k ∷ ls) l (inr m) = highest-In (max_level start (some k)) ls l m

max_level_choice :
    (a b : Option PermissionLevel) {l : PermissionLevel}
    → max_level a b ≡ some l
    → (a ≡ some l) ⊎ (b ≡ some l)
unfolding max_level
max_level_choice none b h = inr h
max_level_choice (some a) none h = inl h
max_level_choice (some a) (some b) h = ground arith

-- What the loop returns it was given.
pub highest_source :
    (start : Option PermissionLevel) (ls : List PermissionLevel) {l : PermissionLevel}
    → highest start ls ≡ some l
    → (start ≡ some l) ⊎ In l ls
unfolding highest
highest_source start [] h = inl h
highest_source start (k ∷ ls) {l} h = elim (highest_source (max_level start (some k)) ls h) [
  | inl e ↦ elim (max_level_choice start (some k) e) [ inl q ↦ inl q | inr q ↦ inr (inl (cc)) ]
  | inr m ↦ inr (inr m)
]
