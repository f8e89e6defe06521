-- ===== src/Catalog/Language.antt =====
-- native/agentseat-i18n.c: the language that the environment selects.
use agent_seat.Prelude.{
  ℕ, zero, suc, ◌+◌, ◌<◌, ◌≤◌, ◌≡◌, refl, arith, ap, sym, ◌∙◌, Bool, true, false, ◌&&◌, ◌||◌, not,
  Option, none, some, List, [], ◌∷◌, ◌++◌, CString, cstr, if◌then◌else◌, if_cases, ltb, leb, ◌==◌,
  length, map,
}

-- `tolower` of the C locale.
abbrev pub lower : ℕ → ℕ
lower b = if leb 65 b && leb b 90 then b + 32 else b

-- `strcasecmp(a, b) == 0`.
unfoldable pub case_eq : CString → CString → Bool
case_eq [] [] = true
case_eq [] (y ∷ ys) = false
case_eq (x ∷ xs) [] = false
case_eq (x ∷ xs) (y ∷ ys) = (lower x == lower y) && case_eq xs ys

-- `strncasecmp(a, b, strlen(b)) == 0`.
unfoldable pub case_prefix : CString → CString → Bool
case_prefix xs [] = true
case_prefix [] (y ∷ ys) = false
case_prefix (x ∷ xs) (y ∷ ys) = (lower x == lower y) && case_prefix xs ys

-- `strcasestr(a, b) != NULL`.
unfoldable pub case_contains : CString → CString → Bool
case_contains [] b = case_prefix [] b
case_contains (x ∷ xs) b = case_prefix (x ∷ xs) b || case_contains xs b

-- `normalized_language`; NULL is `none`.
unfoldable pub normalized_language : Option CString → Option CString
normalized_language none = none
normalized_language (some []) = none
normalized_language (some (c ∷ cs)) =
    let requested : CString = c ∷ cs in
    if case_eq requested (cstr "auto")
    then none
    else if case_prefix requested (cstr "zh")
    then some (
        if case_contains requested (cstr "TW")
          || case_contains requested (cstr "HK")
          || case_contains requested (cstr "Hant")
        then cstr "zh_TW"
        else cstr "zh_CN")
    else none

-- The environment variables that `selected_language` reads; one that is not set is `none`.
pub record Environment : Type 0 where
  pub agentseat_language : Option CString
  pub language : Option CString
  pub lc_all : Option CString
  pub lc_messages : Option CString
  pub lang : Option CString

abbrev pub colon : ℕ
colon = 58

abbrev pub with_first : ℕ → CString × Option CString → CString × Option CString
with_first c (segment, rest) = (c ∷ segment, rest)

-- The text before the first separator, and the text behind it, if there is one.
unfoldable pub up_to_colon : CString → CString × Option CString
up_to_colon [] = ([], none)
up_to_colon (c ∷ cs) =
    let rest = up_to_colon cs in if c == colon then ([], some cs) else with_first c rest

-- The test of a candidate in the loop of `selected_language`: `candidate` has 64 bytes.
unfoldable pub candidate_language : CString → Option CString
candidate_language segment =
    if ltb 0 (length segment) && ltb (length segment) 64
    then normalized_language (some segment)
    else none

abbrev pub or_else : Option CString → Option CString → Option CString
or_else (some a) b = some a
or_else none b = b

-- The body of the loop, on the next segment and the text behind it.
abbrev pub on_segment : (CString → Option CString) → CString × Option CString → Option CString
on_segment continue (segment, none) = candidate_language segment
on_segment continue (segment, some text) = or_else (candidate_language segment) (continue text)

-- The loop of `selected_language`. Each round drops a segment and its separator, so as many rounds
-- as the text is long are enough.
unfoldable pub language_loop : ℕ → CString → Option CString
language_loop rounds [] = none
language_loop zero (c ∷ cs) = none
language_loop (suc rounds) (c ∷ cs) = on_segment (language_loop rounds) (up_to_colon (c ∷ cs))

abbrev pub language_of_list : Option CString → Option CString
language_of_list none = none
language_of_list (some text) = language_loop (length text) text

-- The test on the variable that overrides the others.
unfoldable pub overrides : Option CString → Bool
overrides none = false
overrides (some []) = false
overrides (some (c ∷ cs)) = not (case_eq (c ∷ cs) (cstr "auto"))

unfoldable pub selected_language : Environment → Option CString
selected_language e =
    if overrides e.agentseat_language
    then normalized_language e.agentseat_language
    else or_else (language_of_list e.language) (
        or_else (normalized_language e.lc_all)
          (or_else (normalized_language e.lc_messages) (normalized_language e.lang)))

abbrev pub in_front : ℕ → List CString → List CString
in_front c [] = (c ∷ []) ∷ []
in_front c (segment ∷ segments) = (c ∷ segment) ∷ segments

-- The parts of a text that the separators divide.
abbrev pub segments : CString → List CString
segments [] = [] ∷ []
segments (c ∷ cs) = let rest = segments cs in if c == colon then [] ∷ rest else in_front c rest

-- A candidate that does not fit the buffer is as good as none.
abbrev pub fitting : CString → Option CString
fitting segment = if ltb (length segment) 64 then some segment else none

abbrev pub list_segments : Option CString → List (Option CString)
list_segments none = []
list_segments (some text) = map fitting (segments text)

-- The first of the candidates that names a language with a catalogue.
abbrev pub first_language : List (Option CString) → Option CString
first_language [] = none
first_language (o ∷ os) = or_else (normalized_language o) (first_language os)

-- What the segments of a text are, by its first one.
abbrev pub parts : CString × Option CString → List CString
parts (segment, none) = segment ∷ []
parts (segment, some rest) = segment ∷ segments rest

parts-with_first :
    (c : ℕ) (p : CString × Option CString) → parts (with_first c p) ≡ in_front c (parts p)
parts-with_first c (segment, none) = refl
parts-with_first c (segment, some rest) = refl

segments-eq : (s : CString) → segments s ≡ parts (up_to_colon s)
unfolding up_to_colon
segments-eq [] = refl
segments-eq (c ∷ cs) =
    if_cases (λ p. segments (c ∷ cs) ≡ parts p) (c == colon) (λ e. ground (arith, e))
      (λ e.
        ground (arith, e, parts-with_first c (up_to_colon cs), ap (in_front c) (segments-eq cs)))

abbrev pub IsShorter : ℕ → CString × Option CString → Type 0
IsShorter n (segment, none) = Unit
IsShorter n (segment, some rest) = length rest < n

with_first-IsShorter :
    (c n : ℕ) (p : CString × Option CString) → IsShorter n p → IsShorter (suc n) (with_first c p)
with_first-IsShorter c n (segment, none) h = tt
with_first-IsShorter c n (segment, some rest) h = omega arith

up_to_colon-IsShorter : (s : CString) → IsShorter (length s) (up_to_colon s)
unfolding up_to_colon
up_to_colon-IsShorter [] = tt
up_to_colon-IsShorter (c ∷ cs) =
    if_cases (IsShorter (suc (length cs))) (c == colon) (λ _. omega arith)
      (λ _. with_first-IsShorter c (length cs) (up_to_colon cs) (up_to_colon-IsShorter cs))

candidate_language-eq : (s : CString) → candidate_language s ≡ normalized_language (fitting s)
unfolding candidate_language normalized_language
candidate_language-eq [] = ground arith
candidate_language-eq (c ∷ cs) = ground arith

or_else-none : (o : Option CString) → o ≡ or_else o none
or_else-none none = refl
or_else-none (some a) = refl

or_else_assoc : (a b c : Option CString) → or_else a (or_else b c) ≡ or_else (or_else a b) c
or_else_assoc none b c = refl
or_else_assoc (some a) b c = refl

on_segment-eq :
    (n : ℕ) (p : CString × Option CString) (continue : CString → Option CString)
    → IsShorter n p
    → ((t : CString) → length t < n → continue t ≡ first_language (map fitting (segments t)))
    → on_segment continue p ≡ first_language (map fitting (parts p))
on_segment-eq n (segment, none) continue h k =
    candidate_language-eq segment ∙ or_else-none (normalized_language (fitting segment))
on_segment-eq n (segment, some rest) continue h k =
    ap (λ o. or_else o (continue rest)) (candidate_language-eq segment)
    ∙ ap (or_else (normalized_language (fitting segment))) (k rest h)

language_loop-eq :
    (rounds : ℕ) (s : CString)
    → length s ≤ rounds
    → language_loop rounds s ≡ first_language (map fitting (segments s))
unfolding language_loop normalized_language
language_loop-eq zero [] h = ground arith
language_loop-eq (suc rounds) [] h = ground arith
language_loop-eq zero (c ∷ cs) h = absurd (omega arith)
language_loop-eq (suc rounds) (c ∷ cs) h =
    on_segment-eq (suc (length cs)) (up_to_colon (c ∷ cs)) (language_loop rounds)
      (up_to_colon-IsShorter (c ∷ cs)) (λ t p. language_loop-eq rounds t (omega arith))
    ∙ ap (λ l. first_language (map fitting l)) (sym (segments-eq (c ∷ cs)))

language_of_list-eq : (o : Option CString) → language_of_list o ≡ first_language (list_segments o)
language_of_list-eq none = refl
language_of_list-eq (some text) = language_loop-eq (length text) text (omega arith)

first_language-append :
    (os qs : List (Option CString))
    → first_language (os ++ qs) ≡ or_else (first_language os) (first_language qs)
first_language-append [] qs = refl
first_language-append (o ∷ os) qs =
    ap (or_else (normalized_language o)) (first_language-append os qs)
    ∙ or_else_assoc (normalized_language o) (first_language os) (first_language qs)

-- Unless AGENTSEAT_LANGUAGE overrides the others, the language is that of the first text that names
-- one with a catalogue, among the parts of LANGUAGE that the separators divide and that are shorter
-- than 64 bytes, then LC_ALL, LC_MESSAGES and LANG.
pub selected_language-eq :
    (e : Environment)
    → selected_language e ≡ (
        if overrides e.agentseat_language
        then normalized_language e.agentseat_language
        else first_language (list_segments e.language ++ (e.lc_all ∷ e.lc_messages ∷ e.lang ∷ [])))
unfolding selected_language
selected_language-eq e =
    let tail =
      or_else (normalized_language e.lc_all)
        (or_else (normalized_language e.lc_messages) (normalized_language e.lang)) in
    ap (λ o. if overrides e.agentseat_language then normalized_language e.agentseat_language else o)
      (ap (λ o. or_else o tail) (language_of_list-eq e.language)
        ∙ ap
            (λ o. or_else (first_language (list_segments e.language)) (
              or_else (normalized_language e.lc_all)
                (or_else (normalized_language e.lc_messages) o)))
            (or_else-none (normalized_language e.lang))
        ∙ sym (
            first_language-append (list_segments e.language)
              (e.lc_all ∷ e.lc_messages ∷ e.lang ∷ [])))
