-- ===== src/Store/Rows.antt =====
-- The rows of the tables of internal/store/migrations, the database, and the structs of
-- internal/store that a row is scanned into. A DATETIME is the text that is stored; an INTEGER that
-- the program reads as int64 is a 64-bit pattern.
use claude_gate.Prelude.{ℕ, String, Bool, Option, List, [], eqb}

-- Table real_tokens.
pub record RealRow : Type 0 where
  pub id : String
  pub name : String
  pub access_token : String
  pub refresh_token : String
  pub is_active : ℕ
  pub failure_count : ℕ
  pub last_failure_at : Option String
  pub last_used_at : Option String
  pub total_input_tokens : ℕ
  pub total_output_tokens : ℕ
  pub created_at : String
  pub updated_at : String

-- Table gate_tokens.
pub record GateRow : Type 0 where
  pub id : String
  pub token : String
  pub name : String
  pub is_active : ℕ
  pub total_input_tokens : ℕ
  pub total_output_tokens : ℕ
  pub created_at : String
  pub updated_at : String

-- Table usage_logs, and the struct UsageLog.
pub record UsageLog : Type 0 where
  pub id : ℕ
  pub gate_token_id : String
  pub real_token_id : String
  pub model : String
  pub input_tokens : ℕ
  pub output_tokens : ℕ
  pub cache_creation_input_tokens : ℕ
  pub cache_read_input_tokens : ℕ
  pub request_path : String
  pub status_code : ℕ
  pub created_at : String

-- Table sticky_sessions.
pub record StickyRow : Type 0 where
  pub gate_token_id : String
  pub real_token_id : String
  pub expires_at : String

-- `next_log_id` is the AUTOINCREMENT sequence of usage_logs.
pub record Db : Type 0 where
  pub real_tokens : List RealRow
  pub gate_tokens : List GateRow
  pub usage_logs : List UsageLog
  pub sticky_sessions : List StickyRow
  pub next_log_id : ℕ

-- The struct RealToken. A time is held as the text that the driver reads it from.
pub record RealToken : Type 0 where
  pub id : String
  pub name : String
  pub access_token : String
  pub refresh_token : String
  pub is_active : Bool
  pub failure_count : ℕ
  pub last_failure_at : Option String
  pub last_used_at : Option String
  pub total_input_tokens : ℕ
  pub total_output_tokens : ℕ
  pub created_at : String
  pub updated_at : String

-- The struct GateToken.
pub record GateToken : Type 0 where
  pub id : String
  pub token : String
  pub name : String
  pub is_active : Bool
  pub total_input_tokens : ℕ
  pub total_output_tokens : ℕ
  pub created_at : String
  pub updated_at : String

-- The struct StickySession, its expiry an instant.
pub record StickySession : Type 0 where
  pub gate_token_id : String
  pub real_token_id : String
  pub expires_at : ℕ

unfoldable pub scan_real_token : RealRow → RealToken
scan_real_token r = record {
  id = r.id;
  name = r.name;
  access_token = r.access_token;
  refresh_token = r.refresh_token;
  is_active = eqb r.is_active 1;
  failure_count = r.failure_count;
  last_failure_at = r.last_failure_at;
  last_used_at = r.last_used_at;
  total_input_tokens = r.total_input_tokens;
  total_output_tokens = r.total_output_tokens;
  created_at = r.created_at;
  updated_at = r.updated_at;
}

unfoldable pub scan_gate_token : GateRow → GateToken
scan_gate_token r = record {
  id = r.id;
  token = r.token;
  name = r.name;
  is_active = eqb r.is_active 1;
  total_input_tokens = r.total_input_tokens;
  total_output_tokens = r.total_output_tokens;
  created_at = r.created_at;
  updated_at = r.updated_at;
}

-- The database after the migrations.
abbrev pub empty_db : Db
empty_db = record {
  real_tokens = [];
  gate_tokens = [];
  usage_logs = [];
  sticky_sessions = [];
  next_log_id = 1;
}
