-- ===== src/Input/Keymap.antt =====
-- Typing through the keymap: native/agentseat-input.c from `current_group` to `type_codepoint`, and
-- the text that `agentseat_input_prepare_text` accepts.
pub mod Symbols
pub mod Texts
use agent_seat.Prelude.{
  ℕ, zero, suc, ◌+◌, ◌-◌, ◌%◌, Bool, true, false, not, ◌&&◌, ◌||◌, Option, none, some, List, [],
  ◌∷◌, if◌then◌else◌, ltb, leb, ◌==◌, first, length, get_or, set, replicate,
}
use agent_seat.Input.Platform.{Xkb, Doubles, Mods, Wire, modifiers, key}
use agent_seat.Input.State.{Input, send}
use agent_seat.Input.Utf8.{utf8_next}

abbrev pub return_if : Bool → ℕ → Option ℕ
return_if true i = some i
return_if false i = none

-- The innermost loop of `find_symbol`.
unfoldable pub has_symbol : List ℕ → ℕ → Bool
has_symbol [] symbol = false
has_symbol (x ∷ xs) symbol = if x == symbol then true else has_symbol xs symbol

-- A key, a group and a level.
abbrev pub Place : Type 0
Place = ℕ × ℕ × ℕ

abbrev pub place_if : Bool → Place → Option Place
place_if true p = some p
place_if false p = none

abbrev pub first_mods : List ℕ → ℕ
first_mods [] = 0
first_mods (m ∷ ms) = m

-- `uint32_t evdev_code = code >= 8 ? code - 8 : code`.
abbrev pub evdev : ℕ → ℕ
evdev code = if leb 8 code then code - 8 else code

abbrev pub cached : List Bool → ℕ → Bool
cached cache c = ltb c 128 && get_or cache c false

abbrev pub remember : List Bool → ℕ → List Bool
remember cache c = if ltb c 128 then set cache c true else cache

module _ (X : Xkb) where
  open X use {State}

  -- `current_group`.
  unfoldable pub current_group : State → ℕ
  current_group st =
      elim (first X.num_layouts 0 (λ i. return_if (X.layout_index_is_active st i) i)) [
        | none ↦ 0
        | some i ↦ i
      ]

  -- `save_mods`, and the arguments that `send_modifiers_to` sends.
  unfoldable pub save_mods : State → Mods
  save_mods st = record {
    depressed = X.depressed st;
    latched = X.latched st;
    locked = X.locked st;
    group = current_group st;
  }

  unfoldable pub find_level : ℕ → ℕ → ℕ → Option Place
  find_level symbol g k =
      first (X.num_levels_for_key k g) 0
        (λ l. place_if (has_symbol (X.get_syms_by_level k g l) symbol) (k, g, l))

  unfoldable pub find_key : ℕ → ℕ → Option Place
  find_key symbol g =
      first (X.max_keycode + 1 - X.min_keycode) X.min_keycode (λ k. find_level symbol g k)

  -- `find_symbol`.
  unfoldable pub find_symbol : State → ℕ → Option Place
  find_symbol st symbol =
      first X.num_layouts 0
        (λ offset. find_key symbol ((current_group st + offset) % X.num_layouts))

  -- The keysym of a code point: XKB_KEY_Return, XKB_KEY_Tab, or the library's.
  unfoldable pub symbol_of : ℕ → ℕ
  symbol_of c = if c == 10 then 0xff0d else if c == 9 then 0xff09 else X.utf32_to_keysym c

  -- The place of a code point's symbol; XKB_KEY_NoSymbol is 0.
  unfoldable pub place_of : State → ℕ → Option Place
  place_of st c = if symbol_of c == 0 then none else find_symbol st (symbol_of c)

  -- `supported_codepoint`.
  unfoldable pub supported_codepoint : State → ℕ → Bool
  supported_codepoint st c = elim (place_of st c) [ none ↦ false | some p ↦ true ]

  -- The state while the key is down, and the state after it.
  unfoldable pub typing_state : State → Place → State
  typing_state st (k, g, l) = X.update_mask st (first_mods (X.get_mods_for_level k g l)) 0 0 g

  unfoldable pub restored_state : State → State → State
  restored_state saved st =
      let m = save_mods saved in X.update_mask st m.depressed m.latched m.locked m.group

  -- What typing at a place sends, the newest first, and the keymap's state after it.
  abbrev pub typed : State → Place → List Wire × State
  typed st (k, g, l) =
      let down = typing_state st (k, g, l) in
      let up = restored_state st down in
      (
        modifiers (save_mods up)
            ∷ key (evdev k) false
            ∷ key (evdev k) true
            ∷ modifiers (save_mods down)
            ∷ [],
        up,
      )

  -- `type_codepoint`; `none` where the character has no key.
  unfoldable pub type_codepoint : State → ℕ → Option (List Wire × State)
  type_codepoint st c = elim (place_of st c) [ none ↦ none | some p ↦ some (typed st p) ]

  -- The loop of `agentseat_input_prepare_text`, on fuel; `cache` is `supported_ascii`, and `none`
  -- stands for invalid UTF-8 and for a character that the keymap lacks.
  pub prepare_from : ℕ → State → List Bool → List ℕ → Option (List ℕ)
  prepare_from fuel st cache [] = some []
  prepare_from zero st cache (b ∷ bs) = none
  prepare_from (suc fuel) st cache (b ∷ bs) = elim (utf8_next (b ∷ bs)) [
    | none ↦ none
    | some (c, rest) ↦
        let tail = prepare_from fuel st (remember cache c) rest in
        elim (cached cache c || supported_codepoint st c) [
          | false ↦ none
          | true ↦ elim tail [ none ↦ none | some cs ↦ some (c ∷ cs) ]
        ]
  ]

  pub prepare : State → List ℕ → Option (List ℕ)
  prepare st text = prepare_from (length text) st (replicate 128 false) text
