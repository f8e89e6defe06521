-- ===== src/Input/Commands.antt =====
-- The other requests of native/agentseat-input.c: scrolling, typing, the gate's tokens, window
-- actions and the private clipboard.
use agent_seat.Prelude.{
  ℕ, zero, suc, ◌-◌, ◌/◌, ◌^◌, Bool, true, false, not, Option, none, some, List, [], ◌∷◌, ◌++◌,
  CString, if◌then◌else◌, ltb, ◌==◌, length, sub_u32,
}
use agent_seat.Prelude.Int.{ℤ, pos, negsuc}
use agent_seat.Input.Platform.{
  Xkb, Doubles, Wire, revoke, hold_timeout, window_action, clipboard_offer, sync, axis_source,
  axis_discrete, frame,
}
use agent_seat.Input.State.{Input, send, acquire_gate}
use agent_seat.Input.Keymap.{type_codepoint, prepare}
use agent_seat.Input.Utf8.{decode}
use agent_seat.Input.Seat.{
  Status, ok, failed, unsupported_text, key_unavailable, keys_held, no_clipboard, not_utf8,
  no_payload, require_input_active, after_check, flush, release_all, is_some,
}

-- `value120 / 120`, which C rounds towards zero, and at least one step for a value that is not 0.
pub discrete_steps : ℤ → ℤ
discrete_steps (pos zero) = pos 0
discrete_steps (pos (suc n)) = if suc n / 120 == 0 then pos 1 else pos (suc n / 120)
discrete_steps (negsuc n) = if suc n / 120 == 0 then negsuc 0 else negsuc (suc n / 120 - 1)

-- The scan of `agentseat_input_paste_offer` for a held key.
pub any_held : List Bool → Bool
any_held [] = false
any_held (k ∷ ks) = if k then true else any_held ks

-- `remaining > 0 ? remaining : 0` of a difference read as an int32_t.
pub positive_part : ℕ → ℕ
positive_part d = if ltb d (2 ^ 31) then d else 0

-- The scan of `agentseat_input_paste_offer` over its text.
pub is_text : CString → Bool
is_text text = elim (decode (length text) text) [ none ↦ false | some cs ↦ true ]

module _ {X : Xkb} {D : Doubles} where
  -- `agentseat_input_scroll`.
  unfoldable pub scroll : Bool → Input X D → Bool → ℤ → Input X D × Status
  scroll flushed s horizontal value120 = after_check s (require_input_active s) (
      let s' = acquire_gate X D s in
      flush flushed (record s' {
        log =
            frame
            ∷ axis_discrete horizontal (D.twelfth value120) (discrete_steps value120)
            ∷ axis_source
            ∷ s'.log;
      }))

  abbrev pub after_typing : Input X D → Option (List Wire × X.State) → Option (Input X D)
  after_typing s none = none
  after_typing s (some (sent, st)) = some (record s { xkb_state = some st; log = sent ++ s.log })

  abbrev pub typed_in : Input X D → ℕ → Option X.State → Option (Input X D)
  typed_in s c none = none
  typed_in s c (some st) = after_typing s (type_codepoint X st c)

  -- `type_codepoint` on the seat's keymap. Without a keymap there is no seat, and nothing to type.
  unfoldable pub typed_on : Input X D → ℕ → Option (Input X D)
  typed_on s c = typed_in s c s.xkb_state

  abbrev pub after_typed : Bool → Input X D → Option (Input X D) → Input X D × Status
  after_typed flushed s none = (s, failed key_unavailable)
  after_typed flushed s (some r) = flush flushed r

  -- `agentseat_input_type_codepoint`.
  unfoldable pub type_event : Bool → Input X D → ℕ → Input X D × Status
  type_event flushed s c =
      after_check s (require_input_active s)
        (let s' = acquire_gate X D s in after_typed flushed s' (typed_on s' c))

  -- `agentseat_input_prepare_text`.
  unfoldable pub prepare_text : Input X D → CString → Option (List ℕ) × Status
  prepare_text s text = elim (require_input_active s) [
    | failed f ↦ (none, failed f)
    | ok ↦ elim s.xkb_state [
      | none ↦ (none, failed unsupported_text)
      | some st ↦ elim (prepare X st text) [
        | none ↦ (none, failed unsupported_text)
        | some cs ↦ (some cs, ok)
      ]
    ]
  ]

  -- `agentseat_input_arm`, `_geometry`, `_hold_timeout` and `_revoke`.
  unfoldable pub arm : Input X D → ℕ → Input X D
  arm s epoch = record s { submit_epoch = epoch }

  unfoldable pub geometry : Input X D → ℕ → Input X D
  geometry s version = record s { submit_geometry = version }

  unfoldable pub set_hold_timeout : Input X D → ℕ → Input X D
  set_hold_timeout s ms = if is_some s.control then send X D s (hold_timeout ms) else s

  unfoldable pub revoke_seat : Input X D → Input X D
  revoke_seat s = if is_some s.control then release_all (send X D s revoke) else s

  -- `agentseat_input_window_action`.
  unfoldable pub request_window_action : Input X D → ℕ → ℕ → ℕ → ℤ → ℤ → Input X D
  request_window_action s token window action a b =
      let s' = acquire_gate X D s in
      send X D s' (window_action s'.submit_epoch token window action a b)

  -- `agentseat_input_check_authority` and the callback `authority_done`.
  unfoldable pub check_authority : Input X D → ℕ → Input X D
  check_authority s token =
      let s' = acquire_gate X D (record s { authorization_requested = token }) in
      record (send X D s' sync) { authorization = true }

  unfoldable pub authority_done : Input X D → Input X D
  authority_done s = record s {
    authorization_token = s.authorization_requested;
    authorization_epoch = s.control_epoch;
    authorization_allowed = s.gate_allowed;
    authorization = false;
  }

  abbrev pub control_version : Input X D → ℕ
  control_version s = elim s.control [ none ↦ 0 | some v ↦ v ]

  -- `agentseat_input_paste_offer`; `sealed` is whether the payload's memfd could be made.
  unfoldable pub paste_offer : Bool → Input X D → ℕ → CString → Input X D × Status
  paste_offer sealed s token text = after_check s (require_input_active s) (
      if any_held s.pressed_keys
      then (s, failed keys_held)
      else if ltb (control_version s) 3
      then (s, failed no_clipboard)
      else if not (is_text text)
      then (s, failed not_utf8)
      else if not sealed
      then (s, failed no_payload)
      else (let s' = acquire_gate X D (record s {
        clipboard_token = 0;
        clipboard_status = 0;
        clipboard_transfers = 0;
        clipboard_bytes = 0;
      }) in
          (send X D s' (clipboard_offer s'.submit_epoch token text), ok)))

  -- The parts of `agentseat_input_status` that are computed.
  pub human_quiet_ms : Input X D → ℕ → ℕ
  human_quiet_ms s now = positive_part (sub_u32 s.human_until_ms now)

  pub content_age_ms : Input X D → ℕ → ℕ
  content_age_ms s now = if s.content_msec == 0 then 0 else sub_u32 now s.content_msec
