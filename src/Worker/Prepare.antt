-- ===== src/Worker/Prepare.antt =====
-- native/agentseat-semantic.c: the receipt of the bridge, and the method that an action stands for.
use agent_seat.Prelude.{
  ℕ, Bool, true, false, ◌&&◌, ◌||◌, Option, none, some, List, CString, cstr, if◌then◌else◌, length,
  ltb, leb, ◌==◌, str_eq,
}
use agent_seat.Prelude.Int.{pos, leb_ℤ}
use agent_seat.Json.{JsonC, JsonType, is_int}
use agent_seat.Worker.State.{
  Libraries, Worker, Arguments, index, text, double, nothing, anywhere, str, number, field, fail,
}

-- What `fstat` and `read` say of the file a11y.json, when it can be opened.
pub record File : Type 0 where
  pub regular : Bool
  pub owner : ℕ
  pub size : ℕ
  pub bytes : Option (List ℕ)

abbrev is_double : JsonType → Bool
is_double JsonType.double = true
is_double _ = false

-- `prepare_arguments` on a method.
pub record Method (J : JsonC) : Type 0 where
  pub interface : CString
  pub member : CString
  pub arguments : Arguments J

module _ {J : JsonC} where
  open J use {Json, type_of}

  abbrev pub whole : Libraries J → ℕ → Option (List ℕ) → Option Json
  whole lib size none = none
  whole lib size (some read) = if length read == size then lib.parse read else none

  -- `receipt_file`.
  unfoldable pub receipt_file : Libraries J → Option File → Option Json
  receipt_file lib none = none
  receipt_file lib (some f) =
      if f.regular && (f.owner == lib.uid) && ltb 0 f.size && leb f.size 16384
      then whole lib f.size f.bytes
      else none

  abbrev short_text : Option CString → Option (Method J)
  short_text none = none
  short_text (some t) =
      if leb (length t) 32768
      then some (record {
        interface = cstr "org.a11y.atspi.EditableText";
        member = cstr "SetTextContents";
        arguments = text t;
      })
      else none

  abbrev finite_value : Libraries J → Option Json → Option (Method J)
  finite_value lib none = none
  finite_value lib (some value) =
      if (is_int (type_of value) || is_double (type_of value)) && lib.is_finite value
      then some (record {
        interface = cstr "org.freedesktop.DBus.Properties";
        member = cstr "Set";
        arguments = double value;
      })
      else none

  -- The chain of tests in `prepare_arguments`.
  unfoldable pub method_of : Libraries J → Option Json → CString → Option (Method J)
  method_of lib action kind =
      if str_eq kind (cstr "a11y.perform") && leb_ℤ (pos 0) (number J action (cstr "action_index"))
      then some (record {
        interface = cstr "org.a11y.atspi.Action";
        member = cstr "DoAction";
        arguments = index (number J action (cstr "action_index"));
      })
      else if str_eq kind (cstr "a11y.set_text")
      then short_text (str J action (cstr "text"))
      else if str_eq kind (cstr "a11y.set_value")
      then finite_value lib (field J action (cstr "value"))
      else if str_eq kind (cstr "a11y.focus")
      then some (record {
        interface = cstr "org.a11y.atspi.Component";
        member = cstr "GrabFocus";
        arguments = nothing;
      })
      else if str_eq kind (cstr "a11y.select") && leb_ℤ (pos 0) (number J action (cstr "index"))
      then some (record {
        interface = cstr "org.a11y.atspi.Selection";
        member = cstr "SelectChild";
        arguments = index (number J action (cstr "index"));
      })
      else if str_eq kind (cstr "a11y.scroll_to")
      then some (record {
        interface = cstr "org.a11y.atspi.Component";
        member = cstr "ScrollTo";
        arguments = anywhere;
      })
      else none

  abbrev pub with_method : Worker J → Option (Method J) → Worker J
  with_method w none = fail (record w { interface = none }) (cstr "INVALID_PREPARED_ACTION")
  with_method w (some m) = record w {
    interface = some m.interface;
    member = m.member;
    arguments = some m.arguments;
  }

  abbrev pub with_kind : Libraries J → Worker J → Option Json → Option CString → Worker J
  with_kind lib w action none = fail w (cstr "INVALID_PREPARED_ACTION")
  with_kind lib w action (some kind) = with_method w (method_of lib action kind)

  -- `prepare_arguments`.
  unfoldable pub prepare_arguments : Libraries J → Worker J → Worker J
  prepare_arguments lib w =
      let action = field J w.packet (cstr "action") in
      with_kind lib w action (str J action (cstr "kind"))
