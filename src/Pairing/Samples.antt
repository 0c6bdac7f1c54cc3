-- ===== src/Pairing/Samples.antt =====
-- Sample tables and settings, for the runs.
use backend_bmo_blabs.Base.{ℕ, ◌+◌, none, List, [], ◌∷◌, some, arith}
use backend_bmo_blabs.Database.{list_database}
use backend_bmo_blabs.Pairing.{Services}
use backend_bmo_blabs.Pairing.Rows.{
  EnrollmentRow, EnrollmentStatus, DeviceRow, DeviceStatus, Tables,
}
use backend_bmo_blabs.Pairing.Invariant.{IsValid}

abbrev pub read_digits : List ℕ → ℕ
read_digits [] = 0
read_digits (x ∷ xs) = x + read_digits xs

abbrev pub services : Services
services = record {
  db = list_database;
  keyed_digest = λ code pepper. read_digits code + pepper;
  pepper = 1_000;
  ttl_seconds = 300;
  bmo = 66;
}

abbrev pub six_ones : List ℕ
six_ones = 49 ∷ 49 ∷ 49 ∷ 49 ∷ 49 ∷ 49 ∷ []

abbrev pub enrollment : EnrollmentRow
enrollment = record {
  id = 1;
  hardware_id = 5;
  token_hash = 9;
  code_hash = 1_294;
  status = EnrollmentStatus.issued;
  expires_at = 300_000;
  claimed_at = none;
  claimed_user_id = none;
  claimed_device_id = none;
  created_at = 0;
}

abbrev pub empty_tables : Tables
empty_tables = record { enrollments = []; devices = []; settings = []; audit = [] }

abbrev pub one_issued : Tables
one_issued = record empty_tables { enrollments = enrollment ∷ [] }

abbrev pub device : DeviceRow
device = record {
  id = 20;
  user_id = 7;
  hardware_id = 5;
  name = 66;
  token_hash = 9;
  status = DeviceStatus.active;
  paired_at = some 101;
}

pub empty-IsValid : IsValid empty_tables
empty-IsValid = record {
  one_code = λ c. omega arith;
  one_device = λ u. omega arith;
  one_holder = λ h. omega arith;
}

pub one_issued-IsValid : IsValid one_issued
one_issued-IsValid = record {
  one_code = λ c. ground arith;
  one_device = λ u. ground arith;
  one_holder = λ h. ground arith;
}
