-- ===== src/Models.antt =====
-- dashboard/app/models.py: the rows of the tables, with the columns that the modelled code reads or
-- writes, and the database as the session of one request sees it. Identifiers (UUIDs) are numbers,
-- times are microseconds of UTC.
use opnsense_hub.Base.{ℕ, ◌*◌, ◌^◌, String, Bool, Option, List, Text}

abbrev pub seconds : ℕ → ℕ
seconds n = n * 10 ^ 6

abbrev pub minutes : ℕ → ℕ
minutes n = seconds (n * 60)

abbrev pub hours : ℕ → ℕ
hours n = seconds (n * 3600)

abbrev pub days : ℕ → ℕ
days n = seconds (n * 86400)

pub record User : Type 0 where
  pub id : ℕ
  pub email : Text
  pub password_hash : String
  pub first_name : Option Text
  pub last_name : Option Text
  pub role : String
  pub auth_provider : Option Text
  pub mfa_enabled : Bool
  pub mfa_secret : Option String

pub record Company : Type 0 where
  pub id : ℕ
  pub name : String

pub record CompanyUser : Type 0 where
  pub company_id : ℕ
  pub user_id : ℕ
  pub role : String

pub record PendingMfaLogin : Type 0 where
  pub id : ℕ
  pub user_id : ℕ
  pub nonce_hash : String
  pub failed_attempts : ℕ
  pub expires_at : ℕ
  pub consumed_at : Option ℕ

pub record SessionToken : Type 0 where
  pub id : ℕ
  pub user_id : ℕ
  pub token_hash : String
  pub created_at : ℕ
  pub expires_at : ℕ
  pub revoked_at : Option ℕ

pub record DeviceProxySession : Type 0 where
  pub id : ℕ
  pub user_id : ℕ
  pub device_id : ℕ
  pub dashboard_session_id : Option ℕ
  pub token_hash : String
  pub phase : String
  pub created_at : ℕ
  pub expires_at : ℕ
  pub consumed_at : Option ℕ

pub record Device : Type 0 where
  pub id : ℕ
  pub company_id : ℕ
  pub hostname : Text
  pub wg_public_key : Text
  pub wg_tunnel_ip : Text
  pub license_type : Option Text
  pub license_expires_at : Option ℕ
  pub status : Text
  pub device_token_hash : String
  pub device_token_issued_at : ℕ
  pub device_token_expires_at : Option ℕ
  pub revoked_at : Option ℕ
  pub firmware_checked_at : Option ℕ
  pub firmware_check_requested_at : Option ℕ
  pub firmware_check_request_reason : Option String
  pub backup_enabled : Bool
  pub backup_retention_count : ℕ
  pub backup_interval_unit : Text
  pub backup_interval_value : ℕ
  pub backup_last_requested_at : Option ℕ
  pub backup_last_uploaded_at : Option ℕ

pub record EnrollmentCode : Type 0 where
  pub id : ℕ
  pub company_id : ℕ
  pub code_hash : String
  pub expires_at : ℕ
  pub used_at : Option ℕ

pub record DeviceEvent : Type 0 where
  pub device_id : ℕ
  pub event_type : String

pub record DeviceBackup : Type 0 where
  pub id : ℕ
  pub device_id : ℕ
  pub filename : Text
  pub backup_format : Text
  pub encrypted_payload : Text
  pub created_at : ℕ

pub record AuditLog : Type 0 where
  pub user_id : Option ℕ
  pub device_id : Option ℕ
  pub action : String
  pub created_at : ℕ

pub record Db : Type 0 where
  pub users : List User
  pub company_users : List CompanyUser
  pub devices : List Device
  pub session_tokens : List SessionToken
  pub pending_mfa_logins : List PendingMfaLogin
  pub proxy_sessions : List DeviceProxySession
  pub audit_logs : List AuditLog
  pub enrollment_codes : List EnrollmentCode
  pub device_events : List DeviceEvent
  pub device_backups : List DeviceBackup
