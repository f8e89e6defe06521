-- ===== src/Worker/Callbacks.antt =====
-- native/agentseat-semantic.c: the functions that GIO calls back, from the connection to the bridge on
-- to the reply of the application.
use agent_seat.Prelude.{
  ℕ, ◌+◌, Bool, true, false, ◌&&◌, ◌||◌, not, Option, none, some, List, [], ◌∷◌, ◌++◌, CString,
  cstr, if◌then◌else◌, length, ltb, ◌==◌, str_eq, take,
}
use agent_seat.Prelude.Int.{ℤ, eq_ℤ, int_of_u32}
use agent_seat.Json.{JsonC, JsonType}
use agent_seat.Worker.Process.{Processes, identity}
use agent_seat.Worker.State.{
  Libraries, Worker, Pending, writing, reading, opening, asking_bus, asking_target, str, number,
  field, fail, io_error, connecting_bus, validating_bus, validating_target, prepared, finished,
  rejected, outcome_unknown,
}
use agent_seat.Worker.Prepare.{prepare_arguments}

-- `struct ucred`, if `getsockopt` gives it.
pub record Credentials : Type 0 where
  pub pid : ℤ
  pub uid : ℕ

-- What opening the bus gives: none, one that is no Unix socket, or one with a peer.
pub data Bus : Type 0 where
  no_bus : Bus
  not_unix : Bus
  bus_of : Option Credentials → Bus

-- The reply of the application: an error with its remote name, a Boolean, nothing, or something else.
pub data Reply : Type 0 where
  failed : Option CString → Reply
  boolean : Bool → Reply
  unit : Reply
  other : Reply

-- `g_str_has_prefix`.
unfoldable pub has_prefix : CString → CString → Bool
has_prefix s [] = true
has_prefix [] (p ∷ ps) = false
has_prefix (c ∷ cs) (p ∷ ps) = (c == p) && has_prefix cs ps

-- `memchr(bytes, '\n', …)`.
unfoldable pub has_newline : List ℕ → Bool
has_newline [] = false
has_newline (b ∷ bs) = (b == 10) || has_newline bs

-- The remote errors that are sent before a method runs.
unfoldable pub refuses : Option CString → Bool
refuses none = false
refuses (some remote) =
    str_eq remote (cstr "org.freedesktop.DBus.Error.NotSupported")
    || str_eq remote (cstr "org.freedesktop.DBus.Error.UnknownMethod")
    || str_eq remote (cstr "org.freedesktop.DBus.Error.UnknownInterface")
    || str_eq remote (cstr "org.freedesktop.DBus.Error.UnknownObject")

abbrev pub or_text : Option CString → CString → CString
or_text none fallback = fallback
or_text (some t) fallback = t

abbrev is_null : JsonType → Bool
is_null JsonType.null = true
is_null _ = false

abbrev pub peer_is : ℕ → ℤ → Option Credentials → Bool
peer_is uid pid none = false
peer_is uid pid (some c) = (c.uid == uid) && eq_ℤ c.pid pid

abbrev pub same_scope : Option CString → Option CString → Bool
same_scope (some a) (some b) = str_eq a b
same_scope _ _ = false

abbrev pub text_passes : (CString → Bool) → Option CString → Bool
text_passes test none = false
text_passes test (some t) = test t

abbrev pub has_colon : CString → Bool
has_colon [] = false
has_colon (c ∷ cs) = c == 58

-- A JSON null is a pointer that is NULL.
abbrev pub non_null : (J : JsonC) → Option (J.Json) → Option (J.Json)
non_null J none = none
non_null J (some v) = if is_null (J.type_of v) then none else some v

module _ {J : JsonC} where
  -- A call is handed to GIO.
  abbrev pub call_later : Pending → Worker J → Worker J
  call_later p w = record w { pending = p ∷ w.pending }

  -- `connected`.
  abbrev pub connected_to : Libraries J → Worker J → Option Credentials → Worker J
  connected_to lib w peer =
      if peer_is lib.uid w.bridge_pid peer
      then call_later writing w
      else fail w (cstr "BRIDGE_PEER_MISMATCH")

  unfoldable pub connected : Libraries J → Worker J → Option (Option Credentials) → Worker J
  connected lib w none = io_error (record w { socket = false }) (cstr "A11Y_UNAVAILABLE")
  connected lib w (some peer) = connected_to lib (record w { socket = true }) peer

  -- `written`.
  unfoldable pub written : Worker J → Bool → Worker J
  written w true = call_later reading w
  written w false = io_error w (cstr "BRIDGE_WRITE_FAILED")

  -- The tests of `read_ready` on a packet.
  unfoldable pub accepts : Libraries J → Option CString → Option (J.Json) → Bool
  accepts lib scope packet =
      same_scope (str J packet (cstr "scope_id")) scope
      && text_passes (λ a. has_prefix a (cstr "unix:")) (str J packet (cstr "bus_address"))
      && text_passes (λ o. has_colon o && lib.is_unique_name o) (str J packet (cstr "owner"))
      && text_passes lib.is_object_path (str J packet (cstr "path"))

  -- The part of `read_ready` on a packet: with one that is accepted, it connects to the bus.
  abbrev pub with_packet : Libraries J → Worker J → Option (J.Json) → Worker J
  with_packet lib w packet =
      if accepts lib w.scope_id packet
      then (let received : Worker J = record w { packet = packet; socket = false } in
          if w.busy
          then call_later opening (record received { stage = connecting_bus })
          else received)
      else record (fail w (cstr "BRIDGE_RESPONSE_INVALID")) { socket = false }

  abbrev pub with_failure : Libraries J → Worker J → Option (J.Json) → Option (J.Json) → Worker J
  with_failure lib w response none = with_packet lib w (field J response (cstr "result"))
  with_failure lib w response (some failure) =
      record (fail w
        (or_text (str J (some failure) (cstr "kind")) (cstr "BRIDGE_PREPARE_FAILED"))) {
          socket = false;
        }

  -- The part of `read_ready` on the whole answer.
  abbrev pub with_response : Libraries J → Worker J → Option (J.Json) → Worker J
  with_response lib w response =
      with_failure lib w response (non_null J (field J response (cstr "error")))

  -- `read_ready`; 65536 bytes are the most that it collects.
  unfoldable pub read_ready : Libraries J → Worker J → Option (List ℕ) → Worker J
  read_ready lib w none = io_error w (cstr "BRIDGE_READ_FAILED")
  read_ready lib w (some bytes) =
      let incoming = w.incoming ++ bytes in
      if (length bytes == 0) || ltb 65536 (length w.incoming + length bytes)
      then fail w (cstr "BRIDGE_RESPONSE_INVALID")
      else if not (has_newline incoming)
      then call_later reading (record w { incoming = incoming })
      else with_response lib (record w { incoming = incoming ++ (0 ∷ []) })
          (lib.parse (incoming ++ (0 ∷ [])))

  -- The test of `bus_ready` on the peer of the bus.
  abbrev pub bus_peer : Libraries J → Processes → Worker J → Option Credentials → Bool
  bus_peer lib proc w none = false
  bus_peer lib proc w (some c) =
      (c.uid == lib.uid)
      && eq_ℤ c.pid (number J w.packet (cstr "bus_peer_pid"))
      && identity proc c.pid (str J w.packet (cstr "bus_peer_start")) w.bridge_pid

  -- `bus_ready`.
  unfoldable pub bus_ready : Libraries J → Processes → Worker J → Bus → Worker J
  bus_ready lib proc w no_bus = io_error (record w { bus = false }) (cstr "PRIVATE_BUS_UNAVAILABLE")
  bus_ready lib proc w not_unix = fail (record w { bus = true }) (cstr "PRIVATE_BUS_NOT_UNIX")
  bus_ready lib proc w (bus_of peer) =
      if not (bus_peer lib proc w peer)
      then fail (record w { bus = true }) (cstr "PRIVATE_BUS_IDENTITY_MISMATCH")
      else if w.cancelled
      then fail (record w { bus = true }) (cstr "OPERATION_CANCELLED")
      else call_later asking_bus (record w { bus = true; stage = validating_bus })

  -- `bus_identity_ready`.
  unfoldable pub bus_identity_ready : Processes → Worker J → Option ℕ → Worker J
  bus_identity_ready proc w none = io_error w (cstr "PRIVATE_BUS_UNAVAILABLE")
  bus_identity_ready proc w (some pid) =
      if not (
        eq_ℤ (int_of_u32 pid) (number J w.packet (cstr "bus_pid"))
        && identity proc (int_of_u32 pid) (str J w.packet (cstr "bus_start")) w.bridge_pid)
      then fail w (cstr "PRIVATE_BUS_IDENTITY_MISMATCH")
      else if w.cancelled
      then fail w (cstr "OPERATION_CANCELLED")
      else call_later asking_target (record w { stage = validating_target })

  -- The tests of `target_pid_ready` on the process that owns the name, and on the application: /proc
  -- is read for the one and, later, for the other.
  unfoldable pub target_ok : Processes → Processes → Worker J → ℤ → Bool
  target_ok proc later w pid =
      eq_ℤ pid (number J w.packet (cstr "pid"))
      && identity proc pid (str J w.packet (cstr "process_start"))
          (number J w.packet (cstr "app_pid"))
      && identity later (number J w.packet (cstr "app_pid")) (str J w.packet (cstr "app_start"))
          w.bridge_pid

  abbrev pub get_ready : Worker J → Option CString → Worker J
  get_ready w none = w
  get_ready w (some i) = record w { ready = true; stage = prepared }

  abbrev pub after_arguments : Worker J → Worker J
  after_arguments w = get_ready w w.interface

  -- `target_pid_ready`.
  unfoldable pub target_pid_ready :
      Libraries J → Processes → Processes → Worker J → Option ℕ → Worker J
  target_pid_ready lib proc later w none = io_error w (cstr "TARGET_UNAVAILABLE")
  target_pid_ready lib proc later w (some pid) =
      if w.cancelled
      then fail w (cstr "OPERATION_CANCELLED")
      else if not (target_ok proc later w (int_of_u32 pid))
      then fail w (cstr "TARGET_IDENTITY_CHANGED")
      else after_arguments (prepare_arguments lib w)

  -- `action_replied`.
  unfoldable pub action_replied : Worker J → Reply → Worker J
  action_replied w (failed remote) = record w {
    ready = false;
    busy = false;
    error = take 127 (or_text remote (cstr "SEMANTIC_REPLY_UNCONFIRMED"));
    replied = refuses remote;
    stage = if refuses remote then rejected else outcome_unknown;
  }
  action_replied w (boolean b) = record w {
    ready = false;
    busy = false;
    replied = true;
    succeeded = b;
    stage = if b then finished else rejected;
    error = if b then w.error else cstr "APPLICATION_REJECTED_ACTION";
  }
  action_replied w unit = record w {
    ready = false;
    busy = false;
    replied = true;
    succeeded = true;
    stage = finished;
  }
  action_replied w other = record w {
    ready = false;
    busy = false;
    replied = true;
    succeeded = false;
    stage = rejected;
    error = cstr "APPLICATION_REJECTED_ACTION";
  }
