-- ===== src/Worker/State.antt =====
-- `struct as_semantic` of native/agentseat-semantic.c, and the parts of the libraries it calls.
use agent_seat.Prelude.{
  ℕ, ◌==◌, Bool, false, ◌&&◌, Option, none, some, List, [], CString, cstr, if◌then◌else◌, length,
  take,
}
use agent_seat.Prelude.Int.{ℤ, pos, negsuc, leb_ℤ}
use agent_seat.Json.{JsonC, is_string, is_int}

-- What the code calls of json-c and GIO: `json_tokener_parse` on the bytes up to the first NUL, the
-- text of the request a11y.prepare made of the parameters, the method, the scope and the session,
-- `isfinite(json_object_get_double(value))`, `g_dbus_is_unique_name` and `g_variant_is_object_path`;
-- `uid` is `getuid()`.
pub record Libraries (J : JsonC) : Type 0 where
  pub parse : List ℕ → Option J.Json
  pub request_text : J.Json → CString → CString → CString → Option CString
  pub is_finite : J.Json → Bool
  pub is_unique_name : CString → Bool
  pub is_object_path : CString → Bool
  pub uid : ℕ

-- The strings of `stage`.
pub data Stage : Type 0 where
  idle preparing connecting_bus validating_bus validating_target prepared in_flight finished
        rejected cancelled_stage outcome_unknown :
      Stage

-- The calls of GIO that call back: the connection to the bridge, the request to it, its answer, the
-- connection to the bus, the two questions to the bus and the action.
pub data Pending : Type 0 where
  connecting writing reading opening asking_bus asking_target acting : Pending

-- `arguments`; `double` stands for the number in a JSON value.
pub data Arguments (J : JsonC) : Type 0 where
  index : ℤ → Arguments J
  text : CString → Arguments J
  double : J.Json → Arguments J
  nothing : Arguments J
  anywhere : Arguments J

-- A call of a method that is sent to the application.
pub record Call (J : JsonC) : Type 0 where
  pub owner : Option CString
  pub path : Option CString
  pub interface : Option CString
  pub member : CString
  pub arguments : Option (Arguments J)
  pub timeout : ℕ

-- `struct as_semantic`. `cancel_called` says that `g_cancellable_cancel` was called on `cancel`. The
-- last two fields are what GIO holds: the calls that have yet to call back, and the actions that were
-- sent, the latest first. The times are in microseconds.
pub record Worker (J : JsonC) : Type 0 where
  pub session_id : CString
  pub scope_id : Option CString
  pub microhost_pid : ℤ
  pub bridge_pid : ℤ
  pub cancel_called : Bool
  pub socket : Bool
  pub bus : Bool
  pub incoming : List ℕ
  pub outgoing : Option CString
  pub packet : Option J.Json
  pub arguments : Option (Arguments J)
  pub interface : Option CString
  pub member : CString
  pub stage : Stage
  pub error : CString
  pub busy : Bool
  pub ready : Bool
  pub sent : Bool
  pub replied : Bool
  pub succeeded : Bool
  pub cancelled : Bool
  pub deadline : ℕ
  pub call_timeout : ℕ
  pub pending : List Pending
  pub calls : List (Call J)

-- `as_semantic_new`.
unfoldable pub as_semantic_new : {J : JsonC} → CString → ℤ → Worker J
as_semantic_new session microhost = record {
  session_id = session;
  scope_id = none;
  microhost_pid = microhost;
  bridge_pid = pos 0;
  cancel_called = false;
  socket = false;
  bus = false;
  incoming = [];
  outgoing = none;
  packet = none;
  arguments = none;
  interface = none;
  member = [];
  stage = idle;
  error = [];
  busy = false;
  ready = false;
  sent = false;
  replied = false;
  succeeded = false;
  cancelled = false;
  deadline = 0;
  call_timeout = 0;
  pending = [];
  calls = [];
}

module _ (J : JsonC) where
  open J use {Json, type_of, object_get, get_string, get_string_len, get_int64}

  abbrev pub field : Option Json → CString → Option Json
  field none name = none
  field (some object) name = object_get object name

  abbrev text_of : Option Json → Option CString
  text_of none = none
  text_of (some value) =
      if is_string (type_of value) && (length (get_string value) == get_string_len value)
      then some (get_string value)
      else none

  -- `str`.
  unfoldable pub str : Option Json → CString → Option CString
  str object name = text_of (field object name)

  abbrev int_of : Option Json → ℤ
  int_of none = negsuc 0
  int_of (some value) =
      let n = get_int64 value in
      if is_int (type_of value) && leb_ℤ (pos 0) n && leb_ℤ n (pos 2147483647) then n else negsuc 0

  -- `number`.
  unfoldable pub number : Option Json → CString → ℤ
  number object name = int_of (field object name)

module _ {J : JsonC} where
  -- `fail`; `error` has 128 bytes.
  unfoldable pub fail : Worker J → CString → Worker J
  fail w e = record w {
    error = take 127 e;
    stage = if w.sent then outcome_unknown else if w.cancelled then cancelled_stage else rejected;
    busy = false;
    ready = false;
  }

  -- `io_error`.
  unfoldable pub io_error : Worker J → CString → Worker J
  io_error w fallback = fail w (if w.cancelled then cstr "OPERATION_CANCELLED" else fallback)
