-- ===== src/Input/Texts.antt =====
-- Which texts `agentseat_input_prepare_text` of native/agentseat-input.c accepts.
use agent_seat.Prelude.{ℕ, ◌≡◌, true, false, some, List, arith, Option-cases, inl, inr, ◌↔◌}
use agent_seat.Input.Platform.{Xkb, Doubles}
use agent_seat.Input.State.{Input}
use agent_seat.Input.Utf8.{AllBytes, AllScalars, encode_all}
use agent_seat.Input.Keymap.{prepare}
use agent_seat.Input.Keymap.Texts.{all_supported, prepare_iff}
use agent_seat.Input.Seat.{ok, require_input_active}
use agent_seat.Input.Commands.{prepare_text}

module _ {X : Xkb} {D : Doubles} where
  -- The seat takes input, and its keymap supports every character of the text that `cs` encodes.
  pub record Typeable (s : Input X D) (text cs : List ℕ) : Type 0 where
    pub created : s.created ≡ true
    pub active : s.paused ≡ false
    pub state : X.State
    pub state_eq : s.xkb_state ≡ some state
    pub scalars : AllScalars cs
    pub encoded : text ≡ encode_all cs
    pub supported : all_supported X state cs ≡ true

  -- `agentseat_input_prepare_text` succeeds and gives the code points `cs` for a text of bytes exactly
  -- when the seat is created and not paused and has a keyboard state, the text is the UTF-8 encoding of
  -- `cs`, these are scalar values, and the keymap supports each of them in that state, although the
  -- function looks up a repeated ASCII character only once.
  pub prepare_text_iff :
      (s : Input X D) (text cs : List ℕ)
      → AllBytes text
      → (prepare_text s text ≡ (some cs, ok)) ↔ Typeable s text cs
  unfolding prepare_text require_input_active
  prepare_text_iff s text cs v = (to, from)
    where
      to : prepare_text s text ≡ (some cs, ok) → Typeable s text cs
      to h = elim (Option-cases s.xkb_state) [
        | inl e ↦ absurd (ground (arith, e, h))
        | inr (st, e) ↦
            let loop : prepare X st text ≡ some cs = ground (arith, e, h) in
            let (scalars, encoded, supported) = (prepare_iff X st text cs v).0 loop in
            record {
              created = ground (arith, h);
              active = ground (arith, h);
              state = st;
              state_eq = e;
              scalars = scalars;
              encoded = encoded;
              supported = supported;
            }
      ]

      from : Typeable s text cs → prepare_text s text ≡ (some cs, ok)
      from t =
          let loop = (prepare_iff X t.state text cs v).1 (t.scalars, t.encoded, t.supported) in
          ground (arith, t.created, t.active, t.state_eq, loop)
