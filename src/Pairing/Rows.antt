-- ===== src/Pairing/Rows.antt =====
-- The tables of hardware pairing (backend/prisma/schema.prisma), as far as the services read or
-- write them, and the selections that the unique indexes of backend/prisma/migrations are over.
use backend_bmo_blabs.Base.{ℕ, Bool, true, false, ◌&&◌, Option, List, ◌==◌}

pub data EnrollmentStatus : Type 0 where
  issued claimed expired revoked invalidated : EnrollmentStatus

pub record EnrollmentRow : Type 0 where
  pub id : ℕ
  pub hardware_id : ℕ
  pub token_hash : ℕ
  pub code_hash : ℕ
  pub status : EnrollmentStatus
  pub expires_at : ℕ
  pub claimed_at : Option ℕ
  pub claimed_user_id : Option ℕ
  pub claimed_device_id : Option ℕ
  pub created_at : ℕ

pub data DeviceStatus : Type 0 where
  pending active revoked : DeviceStatus

pub record DeviceRow : Type 0 where
  pub id : ℕ
  pub user_id : ℕ
  pub hardware_id : ℕ
  pub name : ℕ
  pub token_hash : ℕ
  pub status : DeviceStatus
  pub paired_at : Option ℕ

pub record DeviceSettingsRow : Type 0 where
  pub device_id : ℕ
  pub display_name : ℕ
  pub default_device : Bool

pub data AuditRow : Type 0 where
  -- the enrollment, its hardware and its end
  hardware_enrollment_issued : ℕ → ℕ → ℕ → AuditRow
  -- the device and its user
  hardware_enrollment_claimed : ℕ → ℕ → AuditRow

pub record Tables : Type 0 where
  pub enrollments : List EnrollmentRow
  pub devices : List DeviceRow
  pub settings : List DeviceSettingsRow
  pub audit : List AuditRow

abbrev pub is_issued : EnrollmentRow → Bool
is_issued e = elim e.status [ EnrollmentStatus.issued ↦ true | _ ↦ false ]

abbrev pub is_active : DeviceRow → Bool
is_active d = elim d.status [ DeviceStatus.active ↦ true | _ ↦ false ]

-- `status: { in: ["PENDING", "ACTIVE"] }`
abbrev pub is_bound : DeviceRow → Bool
is_bound d = elim d.status [ DeviceStatus.revoked ↦ false | _ ↦ true ]

abbrev pub is_issued_for : ℕ → EnrollmentRow → Bool
is_issued_for hardware e = e.hardware_id == hardware && is_issued e

abbrev pub is_issued_code : ℕ → EnrollmentRow → Bool
is_issued_code code_hash e = e.code_hash == code_hash && is_issued e

abbrev pub is_active_of : ℕ → DeviceRow → Bool
is_active_of user d = d.user_id == user && is_active d

abbrev pub is_bound_to : ℕ → DeviceRow → Bool
is_bound_to hardware d = d.hardware_id == hardware && is_bound d
