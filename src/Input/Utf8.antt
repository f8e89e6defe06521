-- ===== src/Input/Utf8.antt =====
-- The UTF-8 decoder of native/agentseat-input.c, which checks the text to type or to paste.
use agent_seat.Prelude.{
  ℕ, zero, suc, ◌+◌, ◌*◌, ◌/◌, ◌%◌, ◌≤◌, ◌<◌, ◌≡◌, ◌↔◌, ◌∙◌, ap, subst, ◌⊎◌, inl, inr, refl, Bool,
  ◌&&◌, ◌||◌, Option, none, some, List, [], ◌∷◌, if◌then◌else◌, ltb, leb, ◌==◌, length, arith,
  Option-cases,
}

-- The bytes that follow a first byte of 0x80 or more, and the bits of it that count: the masks 0xe0,
-- 0xf0 and 0xf8 keep the upper three, four and five bits of a byte.
pub lead : ℕ → Option (ℕ × ℕ)
lead first =
    if first / 32 == 6
    then some (1, first % 32)
    else if first / 16 == 14
    then some (2, first % 16)
    else if first / 8 == 30
    then some (3, first % 8)
    else none

-- The `for` loop over the bytes that follow. The lower six bits of `value << 6` are clear, so that
-- `|` adds the lower six bits of the byte.
pub follow : ℕ → ℕ → List ℕ → Option (ℕ × List ℕ)
follow zero value bs = some (value, bs)
follow (suc needed) value [] = none
follow (suc needed) value (b ∷ bs) =
    if b / 64 == 2 then follow needed (value * 64 + b % 64) bs else none

-- The last test: overlong forms, values past the last code point, and surrogates.
pub rejected : ℕ → ℕ → Bool
rejected needed value =
    (needed == 1) && ltb value 0x80
    || (needed == 2) && ltb value 0x800
    || (needed == 3) && ltb value 0x10000
    || ltb 0x10ffff value
    || leb 0xd800 value && leb value 0xdfff

abbrev checked : ℕ → Option (ℕ × List ℕ) → Option (ℕ × List ℕ)
checked needed none = none
checked needed (some (value, rest)) = if rejected needed value then none else some (value, rest)

-- `utf8_next` on the bytes from `*offset` on: the code point and what is left.
pub utf8_next : List ℕ → Option (ℕ × List ℕ)
utf8_next [] = none
utf8_next (first ∷ rest) = if ltb first 0x80 then some (first, rest) else elim (lead first) [
  | none ↦ none
  | some (needed, value) ↦
      if ltb (length rest) needed then none else checked needed (follow needed value rest)
]

-- The `while` loops of `agentseat_input_prepare_text` and `agentseat_input_paste_offer`, on fuel:
-- the code points of a text, and `none` for one that is not UTF-8.
unfoldable pub decode : ℕ → List ℕ → Option (List ℕ)
decode fuel [] = some []
decode zero (b ∷ bs) = none
decode (suc fuel) (b ∷ bs) = elim (utf8_next (b ∷ bs)) [
  | none ↦ none
  | some (c, rest) ↦ elim (decode fuel rest) [ none ↦ none | some cs ↦ some (c ∷ cs) ]
]

-- A Unicode scalar value.
abbrev pub IsScalar : ℕ → Type 0
IsScalar c = (c ≤ 0x10ffff) × ((c < 0xd800) ⊎ (0xdfff < c))

-- The UTF-8 bytes of a code point, in front of others.
pub encode_onto : ℕ → List ℕ → List ℕ
encode_onto c rest =
    if ltb c 0x80
    then c ∷ rest
    else if ltb c 0x800
    then (192 + c / 64) ∷ (128 + c % 64) ∷ rest
    else if ltb c 0x10000
    then (224 + c / 4096) ∷ (128 + c / 64 % 64) ∷ (128 + c % 64) ∷ rest
    else (240 + c / 262144) ∷ (128 + c / 4096 % 64) ∷ (128 + c / 64 % 64) ∷ (128 + c % 64) ∷ rest

-- Every code point is read back from its encoding.
pub utf8_next-encode_onto :
    (c : ℕ) (rest : List ℕ) → IsScalar c → utf8_next (encode_onto c rest) ≡ some (c, rest)
unfolding utf8_next encode_onto lead follow rejected
utf8_next-encode_onto c rest h = ground arith

abbrev IsByte : ℕ → Type 0
IsByte b = b < 256

abbrev pub AllBytes : List ℕ → Type 0
AllBytes [] = Unit {0}
AllBytes (b ∷ bs) = IsByte b × AllBytes bs

-- The decoder accepts nothing else: what it reads is the encoding of a scalar value.
utf8_next_sound :
    (bs : List ℕ) (c : ℕ) (rest : List ℕ)
    → AllBytes bs
    → utf8_next bs ≡ some (c, rest)
    → IsScalar c × (bs ≡ encode_onto c rest)
unfolding utf8_next encode_onto lead follow rejected
utf8_next_sound [] c rest v h = cc
utf8_next_sound (a ∷ []) c rest v h = ground arith
utf8_next_sound (a ∷ b ∷ []) c rest v h = ground arith
utf8_next_sound (a ∷ b ∷ d ∷ []) c rest v h = ground arith
utf8_next_sound (a ∷ b ∷ d ∷ e ∷ bs) c rest v h = ground arith

AllBytes-rest : (c : ℕ) (rest : List ℕ) → AllBytes (encode_onto c rest) → AllBytes rest
unfolding encode_onto
AllBytes-rest c rest v = ground arith

length-encode_onto : (c : ℕ) (rest : List ℕ) → length rest < length (encode_onto c rest)
unfolding encode_onto
length-encode_onto c rest = ground arith

-- The UTF-8 encoding of a text.
pub encode_all : List ℕ → List ℕ
encode_all [] = []
encode_all (c ∷ cs) = encode_onto c (encode_all cs)

abbrev pub AllScalars : List ℕ → Type 0
AllScalars [] = Unit {0}
AllScalars (c ∷ cs) = IsScalar c × AllScalars cs

abbrev pub with_head : ℕ → Option (List ℕ) → Option (List ℕ)
with_head c none = none
with_head c (some cs) = some (c ∷ cs)

pub decode-utf8_next :
    (fuel : ℕ) (bs : List ℕ) (c : ℕ) (rest : List ℕ)
    → utf8_next bs ≡ some (c, rest)
    → decode (suc fuel) bs ≡ with_head c (decode fuel rest)
unfolding decode
decode-utf8_next fuel [] c rest h = absurd (unfold utf8_next in cc)
decode-utf8_next fuel (b ∷ bs) c rest h = ground (arith, h)

decode-encode_all :
    (fuel : ℕ) (cs : List ℕ)
    → AllScalars cs
    → length (encode_all cs) ≤ fuel
    → decode fuel (encode_all cs) ≡ some cs
unfolding encode_all
decode-encode_all zero [] v h = unfold decode in refl
decode-encode_all (suc fuel) [] v h = unfold decode in refl
decode-encode_all zero (c ∷ cs) v h = absurd (omega (arith, length-encode_onto c (encode_all cs)))
decode-encode_all (suc fuel) (c ∷ cs) v h =
    decode-utf8_next fuel (encode_onto c (encode_all cs)) c (encode_all cs)
      (utf8_next-encode_onto c (encode_all cs) v.0)
    ∙ ap (with_head c)
        (decode-encode_all fuel cs v.1 (omega (arith, length-encode_onto c (encode_all cs))))

decode_sound :
    (fuel : ℕ) (bs cs : List ℕ)
    → AllBytes bs
    → decode fuel bs ≡ some cs
    → AllScalars cs × (bs ≡ encode_all cs)
unfolding encode_all
decode_sound fuel [] [] v h = (tt, refl)
decode_sound fuel [] (x ∷ cs) v h = absurd (unfold decode in ground arith)
decode_sound zero (b ∷ bs) cs v h = absurd (unfold decode in cc)
decode_sound (suc fuel) (b ∷ bs) cs v h = elim (Option-cases (utf8_next (b ∷ bs))) [
  | inl e ↦ absurd (unfold decode in ground (arith, e))
  | inr ((c, rest), e) ↦
      let (scalar, eq) = utf8_next_sound (b ∷ bs) c rest v e in
      let v' = AllBytes-rest c rest (subst AllBytes eq v) in
      elim (Option-cases (decode fuel rest)) [
        | inl f ↦ absurd (ground (arith, decode-utf8_next fuel (b ∷ bs) c rest e, f))
        | inr (ds, f) ↦
            let (scalars, eq') = decode_sound fuel rest ds v' f in
            let cs_eq : cs ≡ c ∷ ds = ground (arith, decode-utf8_next fuel (b ∷ bs) c rest e, f) in
            rw cs_eq ((scalar, scalars), eq ∙ ap (encode_onto c) eq')
      ]
]

-- The loop accepts exactly the UTF-8 texts: with a round for each byte it returns the code points
-- `cs` if and only if these are scalar values and the bytes are their encoding.
pub decode_iff :
    (bs cs : List ℕ)
    → AllBytes bs
    → (decode (length bs) bs ≡ some cs) ↔ (AllScalars cs × (bs ≡ encode_all cs))
decode_iff bs cs v = (
  decode_sound (length bs) bs cs v,
  λ h. rw h.1 (decode-encode_all (length (encode_all cs)) cs h.0 (omega arith)),
)
