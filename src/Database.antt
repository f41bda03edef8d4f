-- ===== src/Database.antt =====
-- The tables of backend/app/database/models.py. An identifier that `uuid4` draws is a number, the
-- count of those drawn before it, and an instant is a number of microseconds. A column that holds
-- the value of an enumeration holds its member.
pub mod Rows
pub mod Newest
use machine_deck.Base.{ℕ, Bool, String, Option, List}
use machine_deck.Json.{Fields}
use machine_deck.Status.{ApplicationStatus, ExecutionStatus}

pub record ApplicationRecord : Type 0 where
  pub id : String
  pub name : String
  pub description : String
  pub runtime_type : String
  pub config_yaml : String
  pub enabled : Bool
  pub created_at : ℕ
  pub updated_at : ℕ

pub record AuditEventRecord : Type 0 where
  pub id : ℕ
  pub actor : String
  pub action : String
  pub target_type : String
  pub target_id : String
  pub result : String
  pub details_json : Fields
  pub created_at : ℕ

pub record ApplicationInstanceRecord : Type 0 where
  pub id : ℕ
  pub application_id : String
  pub status : ApplicationStatus
  pub runtime_identifier : Option String
  pub started_at : Option ℕ
  pub stopped_at : Option ℕ
  pub exit_code : Option ℕ
  pub error_message : Option String
  pub metadata_json : Fields
  pub created_at : ℕ
  pub updated_at : ℕ

pub record ExecutionRecord : Type 0 where
  pub id : ℕ
  pub application_id : String
  pub action : String
  pub status : ExecutionStatus
  pub requested_by : String
  pub requested_at : ℕ
  pub started_at : Option ℕ
  pub finished_at : Option ℕ
  pub exit_code : Option ℕ
  pub error_code : Option String
  pub error_message : Option String

pub record AdministratorRecord : Type 0 where
  pub id : ℕ
  pub username : String
  pub password_hash : String

pub record AuthSessionRecord : Type 0 where
  pub id : ℕ
  pub administrator_id : ℕ
  pub token_digest : String
  pub csrf_digest : String
  pub created_at : ℕ
  pub expires_at : ℕ
  pub revoked_at : Option ℕ

pub record LoginFailureRecord : Type 0 where
  pub id : ℕ
  pub remote_digest : String
  pub attempted_at : ℕ

pub record Database : Type 0 where
  pub applications : List ApplicationRecord
  pub instances : List ApplicationInstanceRecord
  pub executions : List ExecutionRecord
  pub audit_events : List AuditEventRecord
  pub administrators : List AdministratorRecord
  pub auth_sessions : List AuthSessionRecord
  pub login_failures : List LoginFailureRecord
