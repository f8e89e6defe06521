-- ===== src/Daemon/State.antt =====
-- `struct daemon_state` of native/agentseatd.c and the records in it.
use agent_seat.Prelude.{ℕ, Bool, false, Option, List, [], CString}
use agent_seat.Prelude.Int.{ℤ, pos}
use agent_seat.Json.{JsonC}
use agent_seat.Ledger.{Ledger}
use agent_seat.Input.Platform.{Xkb, Doubles}
use agent_seat.Input.State.{Input}

abbrev pub max_leases : ℕ
max_leases = 256

abbrev pub max_messages : ℕ
max_messages = 64

abbrev pub max_operations : ℕ
max_operations = 16

abbrev pub max_type_bytes : ℕ
max_type_bytes = 32768

abbrev pub max_chat_bytes : ℕ
max_chat_bytes = 2048

abbrev pub max_activity_summary : ℕ
max_activity_summary = 512

abbrev pub max_type_duration_ms : ℕ
max_type_duration_ms = 180000

-- `struct as_semantic_status`.
pub record SemanticStatus : Type 0 where
  pub busy : Bool
  pub ready : Bool
  pub sent : Bool
  pub replied : Bool
  pub succeeded : Bool
  pub cancelled : Bool
  pub stage : CString
  pub error : CString

-- The semantic worker (native/agentseat-semantic.c), as the daemon calls it; a Moment is what
-- a submission finds, the processes and the time.
pub record Semantic : Type 1 where
  pub Worker : Type 0
  pub status : Worker → SemanticStatus
  pub cancel : Worker → Worker
  pub Moment : Type 0
  pub submit : Worker → Moment → Worker

-- `struct type_operation`.
pub record Operation : Type 0 where
  pub id : CString
  pub clipboard : Bool
  pub paste_keys_sent : Bool
  pub clipboard_transfers : ℕ
  pub clipboard_bytes : ℕ
  pub semantic : Bool
  pub semantic_sent : Bool
  pub semantic_replied : Bool
  pub semantic_succeeded : Bool
  pub cancel_requested : Bool
  pub semantic_kind : CString
  pub semantic_stage : CString
  pub semantic_error : CString
  pub semantic_geometry : ℕ
  pub window_action : ℕ
  pub window_id : ℕ
  pub action_token : ℕ
  pub action_first : ℤ
  pub action_second : ℤ
  pub codepoints : List ℕ
  pub count : ℕ
  pub submitted : ℕ
  pub next_msec : ℕ
  pub deadline_msec : ℕ
  pub epoch : ℕ
  pub interval_ms : ℕ
  pub active : Bool
  pub outcome : CString

-- The zeroed struct.
abbrev pub no_operation : Operation
no_operation = record {
  id = [];
  clipboard = false;
  paste_keys_sent = false;
  clipboard_transfers = 0;
  clipboard_bytes = 0;
  semantic = false;
  semantic_sent = false;
  semantic_replied = false;
  semantic_succeeded = false;
  cancel_requested = false;
  semantic_kind = [];
  semantic_stage = [];
  semantic_error = [];
  semantic_geometry = 0;
  window_action = 0;
  window_id = 0;
  action_token = 0;
  action_first = pos 0;
  action_second = pos 0;
  codepoints = [];
  count = 0;
  submitted = 0;
  next_msec = 0;
  deadline_msec = 0;
  epoch = 0;
  interval_ms = 0;
  active = false;
  outcome = [];
}

pub data Role : Type 0 where
  human agent : Role

-- `struct collaboration_message`.
pub record Message : Type 0 where
  pub id : ℕ
  pub created_msec : ℕ
  pub role : Role
  pub text : CString

-- The ring of messages: `messages`, `message_start`, `message_count` and `next_message_id`.
pub record Chat : Type 0 where
  pub messages : List Message
  pub start : ℕ
  pub count : ℕ
  pub next_id : ℕ

-- The write lease: `writer_id`, `writer_lease` and `writer_deadline`.
pub record Writer : Type 0 where
  pub id : CString
  pub lease : CString
  pub deadline : ℕ

module _ (X : Xkb) (D : Doubles) (J : JsonC) (S : Semantic) where
  -- `typing` is the index in `operations` that `state->typing` points at; `leases` and
  -- `denied_windows` hold the entries in use. The socket descriptors and the options that the
  -- command line sets once are left out, but for `session_id`.
  pub record Daemon : Type 0 where
    pub session_id : CString
    pub input : Input X D
    pub human_active_until_msec : ℕ
    pub human_held : Bool
    pub gate_allowed : Bool
    pub gate_epoch : ℕ
    pub activity_summary : CString
    pub activity_detail : CString
    pub chat : Chat
    pub created : Bool
    pub paused : Bool
    pub quit : Bool
    pub request_count : ℕ
    pub generation : ℕ
    pub control_epoch : ℕ
    pub next_operation : ℕ
    pub operations : List Operation
    pub typing : Option ℕ
    pub semantic : Option (S.Worker)
    pub semantic_operation_id : CString
    pub requests : Ledger (J.Json)
    pub writer : Writer
    pub next_lease : ℕ
    pub scene_version : ℕ
    pub output_width : ℤ
    pub output_height : ℤ
    pub denied_windows : List ℕ
    pub pointer_x : D.Double
    pub pointer_y : D.Double
    pub focused_window : CString
    pub leases : List CString
