-- ===== src/Daemon/Params.antt =====
-- The parameters and the errors of a request in native/agentseatd.c.
use agent_seat.Prelude.{
  ℕ, Bool, not, ◌&&◌, ◌||◌, Option, none, some, CString, if◌then◌else◌, length, ◌==◌,
}
use agent_seat.Prelude.Int.{ℤ, pos, pos_part, ltb_ℤ}
use agent_seat.Json.{JsonC, is_string, is_int}

-- The codes of the errors that the modelled methods set. `input_failed` stands for those that
-- report a failure of the input connection.
pub data Code : Type 0 where
  invalid_params seat_not_created seat_paused human_active no_focus no_write_lease write_lease_busy
        busy stale_geometry stale_control text_too_large unsupported_character input_failed
        resource_limit window_not_found lease_required unsupported operation_not_found
        semantic_scope_incomplete compositor_identity_unavailable semantic_busy :
      Code

-- The answer of a step that may set an error.
pub data Result {ℓ} (A : Type ℓ) : Type ℓ where
  done : A → Result A
  error : Code → Result A

-- A request goes on where a check passes; otherwise it ends with the check's code.
abbrev pub guarded {ℓ} : {A : Type ℓ} → Option Code → A → A × Option Code → A × Option Code
guarded none s r = r
guarded (some e) s r = (s, some e)

module _ (J : JsonC) where
  open J use {Json, type_of, object_get, get_string, get_int64}

  abbrev string_value : Option Json → Bool → Result CString
  string_value none allow_empty = error invalid_params
  string_value (some v) allow_empty =
      if not (is_string (type_of v))
      then error invalid_params
      else if not allow_empty && (length (get_string v) == 0)
      then error invalid_params
      else done (get_string v)

  -- `string_param`.
  unfoldable pub string_param : Json → CString → Bool → Result CString
  string_param params key allow_empty = string_value (object_get params key) allow_empty

  abbrev bounded : ℤ → ℕ → ℕ → Result ℕ
  bounded n lo hi =
      if ltb_ℤ n (pos lo) || ltb_ℤ (pos hi) n then error invalid_params else done (pos_part n)

  abbrev bounded_value : Option Json → ℕ → ℕ → ℕ → Result ℕ
  bounded_value none fallback lo hi = done fallback
  bounded_value (some v) fallback lo hi =
      if is_int (type_of v) then bounded (get_int64 v) lo hi else error invalid_params

  -- The optional numbers ttl_ms, hold_ms and interval_ms: a value in its range, or the default.
  unfoldable pub bounded_param : Json → CString → ℕ → ℕ → ℕ → Result ℕ
  bounded_param params key fallback lo hi = bounded_value (object_get params key) fallback lo hi
