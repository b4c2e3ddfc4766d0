-- ===== src/Models.antt =====
-- backend/app/models/db.py: the rows of the database. A uuid is a number, a timestamp a number of
-- seconds, and the JSON of an audit payload a tree of values. A score is an exact fraction: the
-- rounding of Python's floats is not modelled.
use pipe_line_gpt_backend.Prelude.{ℕ, String, Bool, Option, none, some, List, ◌*◌, ltb}

pub data Role : Type 0 where
  operator engineer admin : Role

pub data UserStatus : Type 0 where
  active pending suspended : UserStatus

pub data Decision : Type 0 where
  approve edit reject : Decision

pub data QueryStatus : Type 0 where
  pending processing under_review delivered rejected failed : QueryStatus

pub data DocumentStatus : Type 0 where
  pending processing completed failed : DocumentStatus

pub data RiskLevel : Type 0 where
  high medium low : RiskLevel

-- A value of a JSON object.
pub data Json : Type 0 where
  null : Json
  flag : Bool → Json
  number : ℕ → Json
  text : String → Json
  share : ℕ → ℕ → Json  -- a fraction
  changes : List (String × Option String × Option String) → Json  -- {field: {"from", "to"}}

abbrev pub Payload : Type 0
Payload = List (String × Json)

abbrev pub text_or_null : Option String → Json
text_or_null none = Json.null
text_or_null (some s) = Json.text s

-- A share between 0 and 1.
pub record Ratio : Type 0 where
  pub num : ℕ
  pub den : ℕ

abbrev pub ratio_lt : Ratio → Ratio → Bool
ratio_lt a b = ltb (a.num * b.den) (b.num * a.den)

pub record User : Type 0 where
  pub id : ℕ
  pub email : String
  pub hashed_password : String
  pub role : Role
  pub status : UserStatus
  pub preferred_lang : String
  pub mfa_enabled : Bool
  pub mfa_secret : Option String
  pub created_at : ℕ
  pub last_login : Option ℕ

pub record Invitation : Type 0 where
  pub id : ℕ
  pub email : String
  pub role : Role
  pub token : String
  pub invited_by_id : Option ℕ
  pub expires_at : ℕ
  pub accepted_at : Option ℕ
  pub created_at : ℕ

pub record Document : Type 0 where
  pub id : ℕ
  pub filename : String
  pub source_type : String
  pub sha256_hash : String
  pub ingest_date : ℕ
  pub operator_id : Option String
  pub segment_id : Option String
  pub commodity : Option String
  pub year_from : Option ℕ
  pub year_to : Option ℕ
  pub chunk_count : ℕ
  pub status : DocumentStatus
  pub insights_json : Option Payload

-- an embedding is the list of its coordinates, each by the number of its bits
pub record Chunk : Type 0 where
  pub document_id : ℕ
  pub chunk_index : ℕ
  pub text_content : String
  pub token_count : ℕ
  pub page_ref : Option String
  pub section_label : Option String
  pub embedding : Option (List ℕ)

pub record Citation : Type 0 where
  pub source_id : String
  pub document_id : ℕ
  pub filename : String
  pub chunk_index : ℕ
  pub page_ref : Option String
  pub section_label : Option String
  pub excerpt : String

pub record Query : Type 0 where
  pub id : ℕ
  pub session_id : String
  pub user_id : Option ℕ
  pub question_raw : String
  pub question_lang : String
  pub query_ts : ℕ
  pub hitl_required : Bool
  pub status : QueryStatus

pub record Response : Type 0 where
  pub id : ℕ
  pub query_id : ℕ
  pub answer_text : String
  pub citations_json : List Citation
  pub confidence_score : Ratio
  pub risk_level : Option RiskLevel
  pub model_version : String
  pub prompt_tokens : ℕ
  pub completion_tokens : ℕ

pub record Review : Type 0 where
  pub id : ℕ
  pub response_id : ℕ
  pub reviewer_id : Option ℕ
  pub decision : Option Decision
  pub original_text : String
  pub final_text : Option String
  pub reason : Option String
  pub reviewed_at : Option ℕ

-- `actor` and `target` are the texts of ids in the source; a number stands for the text of an id.
pub data Target : Type 0 where
  id_of : ℕ → Target
  named : String → Target

pub record AuditEvent : Type 0 where
  pub id : ℕ
  pub event_type : String
  pub actor_id : Option ℕ
  pub target_id : Option Target
  pub target_type : Option String
  pub payload_json : Payload
  pub ip_address : Option String
  pub created_at : ℕ

-- What a request brings from outside: the clock, the random ids drawn while it is served, and the
-- address of the client.
pub record Request : Type 0 where
  pub now : ℕ
  pub uuid : ℕ
  pub event_uuid : ℕ
  pub ip : Option String
