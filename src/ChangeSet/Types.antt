-- ===== src/ChangeSet/Types.antt =====
-- apps/local-server/src/change_set.rs: the protocol's types, the limits and the errors; and what the
-- server takes from other crates.
use synapsegit_lp_studio.Prelude.{List, Option, Result, ℕ}
use synapsegit_lp_studio.Prelude.Text.{Bytes, Text, codes}
use synapsegit_lp_studio.Prelude.Map.{BTreeMap}

-- What `url::Url` answers of a URL: `scheme`, `host_str`, `username` and the other parts, and the
-- origin in ASCII.
pub record Url : Type 0 where
  pub scheme : Text
  pub username : Text
  pub password : Option Text
  pub host_str : Option Text
  pub port : Option ℕ
  pub path : Text
  pub query : Option Text
  pub fragment : Option Text
  pub origin : Text

-- `unicode-normalization` (nfc), `unicase` (folded), `sha2` (digest), the Unicode tables behind
-- `str::to_lowercase`, which are asked only of texts that are not ASCII, and `Url::parse` with the
-- calls that change a URL and `Url::as_str`.
pub record Crates : Type 0 where
  pub nfc : Text → Text
  pub folded : Text → Text
  pub digest : Bytes → Bytes
  pub unicode_lowercase : Text → Text
  pub parse_url : Text → Option Url
  pub set_username : Text → Url → Option Url
  pub set_password : Option Text → Url → Option Url
  pub set_query : Option Text → Url → Url
  pub set_fragment : Option Text → Url → Url
  pub as_str : Url → Text

-- `validate_resulting_site` of static_syntax.rs, which parses the files with other crates. Its result
-- is the number of errors that the HTML parser recovered from.
pub record StaticAnalysis : Type 0 where
  pub validate_resulting_site : BTreeMap Bytes → Option ℕ

abbrev pub change_set_schema : Text
change_set_schema = codes "org.synapsegit-lp-studio.change-set"

abbrev pub change_set_version : ℕ
change_set_version = 1

abbrev pub redaction_placeholder : Text
redaction_placeholder = codes "LP_STUDIO_REDACTED"

abbrev pub max_operations : ℕ
max_operations = 32

abbrev pub max_path_bytes : ℕ
max_path_bytes = 512

abbrev pub max_path_depth : ℕ
max_path_depth = 16

abbrev pub max_summary_bytes : ℕ
max_summary_bytes = 2000

abbrev pub max_generated_file_bytes : ℕ
max_generated_file_bytes = 2097152

abbrev pub max_generated_total_bytes : ℕ
max_generated_total_bytes = 8388608

abbrev pub max_unified_diff_bytes : ℕ
max_unified_diff_bytes = 262144

abbrev pub usize_max : ℕ
usize_max = 18446744073709551615

pub data ChangeOperationV1 : Type 0 where
  create_text : (path media_type content : Text) → ChangeOperationV1
  replace_text : (path expected_sha256 media_type content : Text) → ChangeOperationV1
  rename : (from to expected_sha256 : Text) → ChangeOperationV1
  delete : (path expected_sha256 : Text) → ChangeOperationV1

pub record ChangeSetV1 : Type 0 where
  pub schema : Text
  pub version : ℕ
  pub base_revision_id : Text
  pub summary : Text
  pub operations : List ChangeOperationV1

-- `ChangeSetV1::new`
unfoldable pub new_change_set : Text → Text → List ChangeOperationV1 → ChangeSetV1
new_change_set base_revision_id summary operations = record {
  schema = change_set_schema;
  version = change_set_version;
  base_revision_id = base_revision_id;
  summary = summary;
  operations = operations;
}

pub data AppliedChangeKind : Type 0 where
  created modified renamed deleted : AppliedChangeKind

pub record AppliedFileChange : Type 0 where
  pub path : Text
  pub kind : AppliedChangeKind
  pub from_path : Option Text
  pub before_sha256 : Option Text
  pub after_sha256 : Option Text

pub data StaticCheckStatus : Type 0 where
  passed advisory_warning blocking_warning : StaticCheckStatus

pub record StaticCheck : Type 0 where
  pub id : Text
  pub status : StaticCheckStatus
  pub message : Text

pub record BlockingWarning : Type 0 where
  pub code : Text
  pub path : Text
  pub destination : Text
  pub message : Text

-- the files of a revision, by their paths
abbrev pub Files : Type 0
Files = BTreeMap Bytes

pub record AppliedChangeSet : Type 0 where
  pub change_set : ChangeSetV1
  pub files : Files
  pub changes : List AppliedFileChange
  pub unified_diff : Text
  pub checks : List StaticCheck
  pub blocking_warnings : List BlockingWarning

pub data ChangeSetError : Type 0 where
  invalid_protocol stale_base limit_exceeded unsafe_path reserved : ChangeSetError
  unsupported_media_type invalid_hash operation_conflict rename_cycle : ChangeSetError
  precondition_failed missing_entry_point invalid_syntax : ChangeSetError
  invalid_local_reference reserved_placeholder : ChangeSetError

unfoldable pub error_code : ChangeSetError → Text
error_code invalid_protocol = codes "change_set_invalid_protocol"
error_code stale_base = codes "change_set_stale_base"
error_code limit_exceeded = codes "change_set_limit_exceeded"
error_code unsafe_path = codes "change_set_unsafe_path"
error_code reserved = codes "change_set_reserved_path"
error_code unsupported_media_type = codes "change_set_unsupported_media_type"
error_code invalid_hash = codes "change_set_invalid_hash"
error_code operation_conflict = codes "change_set_operation_conflict"
error_code rename_cycle = codes "change_set_rename_cycle"
error_code precondition_failed = codes "change_set_precondition_failed"
error_code missing_entry_point = codes "change_set_missing_entry_point"
error_code invalid_syntax = codes "change_set_invalid_syntax"
error_code invalid_local_reference = codes "change_set_invalid_local_reference"
error_code reserved_placeholder = codes "change_set_reserved_placeholder"

abbrev pub Checked : Type 0 → Type 0
Checked = Result ChangeSetError
