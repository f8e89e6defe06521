-- ===== src/Input/Keymap/Symbols.antt =====
-- What `find_symbol` finds, and that support for a character does not depend on the current group.
use agent_seat.Prelude.{
  ℕ, ◌+◌, ◌-◌, ◌%◌, ◌≤◌, ◌<◌, ◌≡◌, ◌≢◌, true, Option, none, some, List, arith, first, first-some,
  first-none, Option-cases, inl, inr, ap,
}
use native.Mathlib.Nat.{mod-lt, mod-eq_of_lt, mod-eq-sub-mod}
use native.Mathlib.Decide.{dec_lt}
use agent_seat.Input.Platform.{Xkb, Wire}
use agent_seat.Input.Keymap.{
  current_group, has_symbol, return_if, Place, find_level, find_key, find_symbol, symbol_of,
  place_of, supported_codepoint, type_codepoint, typed,
}

module _ (X : Xkb) where
  open X use {State}

  -- The keymap has the symbol at a place.
  pub record Holds (symbol k g l : ℕ) : Type 0 where
    pub low : X.min_keycode ≤ k
    pub high : k ≤ X.max_keycode
    pub group : g < X.num_layouts
    pub level : l < X.num_levels_for_key k g
    pub bears : has_symbol (X.get_syms_by_level k g l) symbol ≡ true

  current_group-lt : (st : State) → 0 < X.num_layouts → current_group X st < X.num_layouts
  unfolding current_group
  current_group-lt st h = elim (Option-cases found) [
    | inl e ↦ rw (e, current_group) h
    | inr (i, e) ↦
        let (j, lo, hi, f) = first-some X.num_layouts 0 _ i e in
        rw (e, current_group) (ground (arith, hi, f))
  ]
    where
      found : Option ℕ
      found = first X.num_layouts 0 (λ i. return_if (X.layout_index_is_active st i) i)

  find_level-some :
      (symbol g k : ℕ) (p : Place)
      → find_level X symbol g k ≡ some p
      → (l : ℕ) × (p ≡ (k, g, l))
        × (l < X.num_levels_for_key k g)
        × (has_symbol (X.get_syms_by_level k g l) symbol ≡ true)
  unfolding find_level
  find_level-some symbol g k p h =
      let (l, lo, hi, e) = first-some (X.num_levels_for_key k g) 0 _ p h in
      (l, ground arith, omega arith, ground arith)

  find_key-some :
      (symbol g : ℕ) (k g' l : ℕ)
      → g < X.num_layouts
      → find_key X symbol g ≡ some (k, g', l)
      → (g' ≡ g) × Holds symbol k g l
  unfolding find_key
  find_key-some symbol g k g' l hg h =
      let (j, lo, hi, e) = first-some (X.max_keycode + 1 - X.min_keycode) X.min_keycode _ _ h in
      let (m, eq, lt, b) = find_level-some symbol g j (k, g', l) e in
      let k_eq : k ≡ j = ap (λ p. p.0) eq in
      let g_eq : g' ≡ g = ap (λ p. p.1) eq in
      let l_eq : l ≡ m = ap (λ p. p.2) eq in
      (
        g_eq,
        rw (k_eq, l_eq)
            (record { low = lo; high = omega arith; group = hg; level = lt; bears = b }),
      )

  -- A place that `find_symbol` returns is one of the keymap, and bears the symbol.
  pub find_symbol-Holds :
      (st : State) (symbol k g l : ℕ)
      → find_symbol X st symbol ≡ some (k, g, l)
      → Holds symbol k g l
  unfolding find_symbol
  find_symbol-Holds st symbol k g l h =
      let (j, lo, hi, e) = first-some X.num_layouts 0 _ _ h in
      let at = (current_group X st + j) % X.num_layouts in
      let (g_eq, held) = find_key-some symbol at k g l (mod-lt _ (omega arith)) e in rw g_eq held

  find_key-none : (symbol k g l : ℕ) → find_key X symbol g ≡ none → Holds symbol k g l → ⊥
  unfolding find_key find_level
  find_key-none symbol k g l h held =
      let no_level =
        first-none (X.max_keycode + 1 - X.min_keycode) X.min_keycode _ h k held.low
          (omega (arith, held.low, held.high)) in
      let no_symbol =
        first-none (X.num_levels_for_key k g) 0 _ no_level l (omega arith)
          (omega (arith, held.level)) in
      ground (arith, no_symbol, held.bears)

  -- The groups that the loop tries, from the current one round, are all groups.
  group_tried :
      (start g n : ℕ) → start < n → g < n → (offset : ℕ) × (offset < n) × ((start + offset) % n ≡ g)
  group_tried start g n hs hg = elim (dec_lt g start) [
    | yes p ↦ (
      g + n - start,
      omega arith,
      omega (
        arith,
        mod-eq-sub-mod {n = start + (g + n - start)} {m = n} (omega arith),
        mod-eq_of_lt {n = start + (g + n - start) - n} {m = n} (omega arith),
      ),
    )
    | no p ↦ (
      g - start,
      omega arith,
      omega (arith, mod-eq_of_lt {n = start + (g - start)} {m = n} (omega arith)),
    )
  ]

  find_symbol-none :
      (st : State) (symbol k g l : ℕ) → find_symbol X st symbol ≡ none → Holds symbol k g l → ⊥
  unfolding find_symbol
  find_symbol-none st symbol k g l h held =
      let (offset, lt, eq) =
        group_tried (current_group X st) g X.num_layouts
          (current_group-lt st (omega (arith, held.group))) held.group in
      let tried = first-none X.num_layouts 0 _ h offset (omega arith) (omega arith) in
      find_key-none symbol k g l (rw eq at tried) held

  -- `find_symbol` returns a place that bears the symbol whenever the keymap has one, in whichever
  -- group the keyboard is.
  pub find_symbol-total :
      (st : State) (symbol k g l : ℕ)
      → Holds symbol k g l
      → (k' : ℕ) × (g' : ℕ) × (l' : ℕ) × (find_symbol X st symbol ≡ some (k', g', l'))
        × Holds symbol k' g' l'
  find_symbol-total st symbol k g l held = elim (Option-cases (find_symbol X st symbol)) [
    | inl e ↦ absurd (find_symbol-none st symbol k g l e held)
    | inr ((k', g', l'), e) ↦ (k', g', l', e, find_symbol-Holds st symbol k' g' l' e)
  ]

  place_of-cases :
      (st : State) (c : ℕ)
      → supported_codepoint X st c ≡ true
      → (k : ℕ) × (g : ℕ) × (l : ℕ) × (symbol_of X c ≢ 0) × Holds (symbol_of X c) k g l
  unfolding supported_codepoint place_of
  place_of-cases st c h = elim (Option-cases (find_symbol X st (symbol_of X c))) [
    | inl e ↦ absurd (ground (arith, e))
    | inr ((k, g, l), e) ↦
        (k, g, l, ground (arith, e), find_symbol-Holds st (symbol_of X c) k g l e)
  ]

  -- A character that the keymap supports in one state of the keyboard can be typed in every other:
  -- `agentseat_input_type_codepoint` finds a key for each character that was checked beforehand,
  -- whatever group and modifiers have been set in between.
  pub type_codepoint-supported :
      (st st' : State) (c : ℕ)
      → supported_codepoint X st c ≡ true
      → (r : List Wire × State) × (type_codepoint X st' c ≡ some r)
  unfolding type_codepoint place_of
  type_codepoint-supported st st' c h =
      let (k, g, l, real, held) = place_of-cases st c h in
      let (k', g', l', e, _) = find_symbol-total st' (symbol_of X c) k g l held in
      (typed X st' (k', g', l'), ground (arith, e, real))

  -- What typing sends: the key of some place, between its modifiers and the restored ones.
  pub type_codepoint-typed :
      (st : State) (c : ℕ) (r : List Wire × State)
      → type_codepoint X st c ≡ some r
      → (p : Place) × (r ≡ typed X st p)
  unfolding type_codepoint
  type_codepoint-typed st c r h = elim (Option-cases (place_of X st c)) [
    | inl e ↦ absurd (ground (arith, e))
    | inr (p, e) ↦ (p, ground (arith, e))
  ]
