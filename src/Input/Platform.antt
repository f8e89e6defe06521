-- ===== src/Input/Platform.antt =====
-- What native/agentseat-input.c uses and does not implement: libxkbcommon, doubles, and the
-- requests of the Wayland protocols.
use agent_seat.Prelude.{ℕ, Bool, List, CString}
use agent_seat.Prelude.Int.{ℤ}

-- A compiled keymap and the states over it; the fields are named after libxkbcommon's functions.
pub record Xkb : Type 1 where
  pub State : Type 0
  pub state_new : State
  pub num_layouts : ℕ
  pub min_keycode : ℕ
  pub max_keycode : ℕ
  pub num_levels_for_key : ℕ → ℕ → ℕ
  pub get_syms_by_level : ℕ → ℕ → ℕ → List ℕ
  pub get_mods_for_level : ℕ → ℕ → ℕ → List ℕ
  pub utf32_to_keysym : ℕ → ℕ
  pub layout_index_is_active : State → ℕ → Bool
  pub depressed : State → ℕ
  pub latched : State → ℕ
  pub locked : State → ℕ
  pub update_key : State → ℕ → Bool → State
  -- Depressed, latched and locked modifiers, and the locked layout.
  pub update_mask : State → ℕ → ℕ → ℕ → ℕ → State

-- The doubles of a pointer position.
pub record Doubles : Type 1 where
  pub Double : Type 0
  pub isfinite : Double → Bool
  pub le : Double → Double → Bool
  pub zero : Double
  pub half : Double
  pub one : Double
  -- `(uint32_t)(x * ABS_EXTENT)`, and `wl_fixed_from_double((double)value120 / 12.0)`.
  pub to_extent : Double → ℕ
  pub twelfth : ℤ → ℤ

-- `struct saved_mods`, and the arguments of `zwp_virtual_keyboard_v1_modifiers`.
pub record Mods : Type 0 where
  pub depressed : ℕ
  pub latched : ℕ
  pub locked : ℕ
  pub group : ℕ

-- A request on the connection. The time stamps are left out.
pub data Wire : Type 0 where
  acquire : ℕ → Wire
  acquire_geometry : ℕ → ℕ → Wire
  revoke : Wire
  hold_timeout : ℕ → Wire
  window_action : ℕ → ℕ → ℕ → ℕ → ℤ → ℤ → Wire
  clipboard_offer : ℕ → ℕ → CString → Wire
  sync : Wire
  create_keyboard : Wire
  create_pointer : Wire
  create_pointer_with_output : Wire
  destroy_keyboard : Wire
  destroy_pointer : Wire
  release_seat : Wire
  keymap : Wire
  modifiers : Mods → Wire
  key : ℕ → Bool → Wire
  button : ℕ → Bool → Wire
  motion_absolute : ℕ → ℕ → Wire
  axis_source : Wire
  axis_discrete : Bool → ℤ → ℤ → Wire
  frame : Wire
