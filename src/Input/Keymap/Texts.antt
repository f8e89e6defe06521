-- ===== src/Input/Keymap/Texts.antt =====
-- The cache of `agentseat_input_prepare_text` does not change which texts it accepts.
use agent_seat.Prelude.{
  ℕ, zero, suc, ◌≡◌, ◌∙◌, refl, Bool, true, false, ◌&&◌, ◌||◌, Option, none, some, List, [], ◌∷◌,
  arith, Option-cases, Bool-cases, inl, inr, if◌then◌else◌, ◌==◌, ==→eq, get_or, get_or-set_ne,
  replicate, get_or-replicate, length, ap, ◌↔◌,
}
use agent_seat.Input.Platform.{Xkb}
use agent_seat.Input.Utf8.{
  utf8_next, decode, decode-utf8_next, with_head, decode_iff, AllBytes, AllScalars, encode_all,
}
use agent_seat.Input.Keymap.{supported_codepoint, cached, remember, prepare_from, prepare}

module _ (X : Xkb) (st : X.State) where
  pub all_supported : List ℕ → Bool
  all_supported [] = true
  all_supported (c ∷ cs) = supported_codepoint X st c && all_supported cs

  abbrev restrict : Option (List ℕ) → Option (List ℕ)
  restrict none = none
  restrict (some cs) = if all_supported cs then some cs else none

  -- A character is remembered only once it was found to be supported.
  IsSound : List Bool → Type 0
  IsSound cache = (c : ℕ) → get_or cache c false ≡ true → supported_codepoint X st c ≡ true

  remember-IsSound :
      (cache : List Bool) (c : ℕ)
      → supported_codepoint X st c ≡ true
      → IsSound cache
      → IsSound (remember cache c)
  unfolding IsSound
  remember-IsSound cache c h sound d hit = elim (Bool-cases (c == d)) [
    | inl e ↦ rw (← ==→eq c d e) h
    | inr e ↦ ground (arith, get_or-set_ne cache c d true false (λ p. ground arith), sound d)
  ]

  cached-or :
      (cache : List Bool) (c : ℕ)
      → IsSound cache
      → (cached cache c || supported_codepoint X st c) ≡ supported_codepoint X st c
  unfolding IsSound
  cached-or cache c sound = ground (arith, sound c)

  prepare_from-utf8_next :
      (fuel : ℕ) (cache : List Bool) (b : ℕ) (bs : List ℕ) (c : ℕ) (rest : List ℕ)
      → IsSound cache
      → utf8_next (b ∷ bs) ≡ some (c, rest)
      → prepare_from X (suc fuel) st cache (b ∷ bs) ≡ (
          if supported_codepoint X st c
          then with_head c (prepare_from X fuel st (remember cache c) rest)
          else none)
  unfolding prepare_from
  prepare_from-utf8_next fuel cache b bs c rest sound e =
      rw (e, prepare_from, cached-or cache c sound) (ground arith)

  restrict-with_head :
      (c : ℕ) (o : Option (List ℕ))
      → restrict (with_head c o)
        ≡ (if supported_codepoint X st c then with_head c (restrict o) else none)
  unfolding all_supported
  restrict-with_head c none = ground arith
  restrict-with_head c (some cs) = ground arith

  prepare_from-decode :
      (fuel : ℕ) (cache : List Bool) (bs : List ℕ)
      → IsSound cache
      → prepare_from X fuel st cache bs ≡ restrict (decode fuel bs)
  unfolding prepare_from decode all_supported
  prepare_from-decode zero cache [] sound = refl
  prepare_from-decode (suc fuel) cache [] sound = refl
  prepare_from-decode zero cache (b ∷ bs) sound = refl
  prepare_from-decode (suc fuel) cache (b ∷ bs) sound = elim (Option-cases (utf8_next (b ∷ bs))) [
    | inl e ↦ rw (e, prepare_from, decode) refl
    | inr ((c, rest), e) ↦
        rw
          (
            prepare_from-utf8_next fuel cache b bs c rest sound e,
            decode-utf8_next fuel (b ∷ bs) c rest e,
            restrict-with_head c (decode fuel rest),
          )
          (elim (Bool-cases (supported_codepoint X st c)) [
            | inl supported ↦ rw supported (
                ap (with_head c) (
                  prepare_from-decode fuel (remember cache c) rest
                    (remember-IsSound cache c supported sound)))
            | inr unsupported ↦ rw unsupported refl
          ])
  ]

  prepare-decode : (text : List ℕ) → prepare X st text ≡ restrict (decode (length text) text)
  unfolding prepare IsSound
  prepare-decode text =
      prepare_from-decode (length text) (replicate 128 false) text
        (λ c h. ground (arith, get_or-replicate 128 c false))

  -- The loop of `agentseat_input_prepare_text` gives the code points `cs` for a text exactly when the
  -- text is the UTF-8 encoding of `cs`, these are scalar values, and the keymap supports each.
  pub prepare_iff :
      (text cs : List ℕ)
      → AllBytes text
      → (prepare X st text ≡ some cs)
        ↔ (AllScalars cs × (text ≡ encode_all cs) × (all_supported cs ≡ true))
  prepare_iff text cs v = (to, from)
    where
      to :
          prepare X st text ≡ some cs
          → AllScalars cs × (text ≡ encode_all cs) × (all_supported cs ≡ true)
      to h = elim (Option-cases (decode (length text) text)) [
        | inl e ↦ absurd (ground (arith, prepare-decode text, e))
        | inr (ds, e) ↦
            let same : ds ≡ cs = ground (arith, prepare-decode text, e) in
            let all : all_supported cs ≡ true =
              rw (← same) (ground (arith, prepare-decode text, e)) in
            let (scalars, eq) = (decode_iff text cs v).0 (e ∙ ap some same) in (scalars, eq, all)
      ]

      from :
          AllScalars cs × (text ≡ encode_all cs) × (all_supported cs ≡ true)
          → prepare X st text ≡ some cs
      from h =
          let decoded = (decode_iff text cs v).1 (h.0, h.1) in
          prepare-decode text ∙ rw (decoded, h.2) refl
