-- ===== src/Entity.antt =====
-- entity.rs: what an entity is.
pub mod Live
use umwelt_rs.Base.{ℕ, Bool, ◌==◌, ◌||◌, not}

-- The number of an `EntityId` in its region, a `u32`.
abbrev pub EntityId : Type 0
EntityId = ℕ

-- A role byte, and the game's own tag, a `u16`.
pub record EntityKind : Type 0 where
  pub role : ℕ
  pub tag : ℕ

abbrev pub role_unattended : ℕ
role_unattended = 0

abbrev pub role_observer : ℕ
role_observer = 1

abbrev pub role_shadow : ℕ
role_shadow = 2

unfoldable pub unattended : ℕ → EntityKind
unattended tag = record { role = role_unattended; tag = tag }

unfoldable pub observer : ℕ → EntityKind
observer tag = record { role = role_observer; tag = tag }

unfoldable pub shadow : EntityKind
shadow = record { role = role_shadow; tag = 0 }

unfoldable pub observes : EntityKind → Bool
observes k = (k.role == role_observer) || (k.role == role_shadow)

unfoldable pub shown : EntityKind → Bool
shown k = not (k.role == role_shadow)

unfoldable pub is_shadow : EntityKind → Bool
is_shadow k = k.role == role_shadow
