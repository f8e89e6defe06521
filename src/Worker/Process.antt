-- ===== src/Worker/Process.antt =====
-- native/agentseat-semantic.c: what /proc says of a process, and whether it is the one that is meant.
use agent_seat.Prelude.{
  ℕ, zero, suc, ◌+◌, ◌*◌, ◌-◌, ◌^◌, Bool, true, false, ◌&&◌, ◌||◌, Option, none, some, List, [],
  ◌∷◌, CString, if◌then◌else◌, ltb, leb, ◌==◌, length, get_or, take, drop, str_eq,
}
use agent_seat.Prelude.Int.{ℤ, pos, negsuc, leb_ℤ, eq_ℤ, int_of_long}

-- The contents of the file `stat` in the directory of a process under /proc, if it can be read. One
-- such view is taken for each call of `identity`.
abbrev pub Processes : Type 0
Processes = ℤ → Option CString

abbrev is_digit : ℕ → Bool
is_digit c = leb 48 c && leb c 57

abbrev digits : ℕ → CString → ℕ
digits n [] = n
digits n (c ∷ cs) = let more = digits (10 * n + (c - 48)) cs in if is_digit c then more else n

-- The value of digits, cut off at LONG_MAX or LONG_MIN.
abbrev signed : Bool → ℕ → ℤ
signed false n = if ltb n (2 ^ 63) then pos n else pos (2 ^ 63 - 1)
signed true zero = pos 0
signed true (suc n) = if ltb n (2 ^ 63) then negsuc n else negsuc (2 ^ 63 - 1)

-- `strtol` to the base 10.
unfoldable pub strtol : CString → ℤ
strtol [] = pos 0
strtol (c ∷ cs) =
    let rest = strtol cs in
    if (leb 9 c && leb c 13) || (c == 32)
    then rest
    else if c == 45
    then signed true (digits 0 cs)
    else if c == 43
    then signed false (digits 0 cs)
    else signed false (digits 0 (c ∷ cs))

abbrev pub close_paren : ℕ
close_paren = 41

-- What stands behind the last closing parenthesis.
abbrev later : Bool → CString → Option CString → Option CString
later found cs (some rest) = some rest
later true cs none = some cs
later false cs none = none

unfoldable pub after_last : CString → Option CString
after_last [] = none
after_last (c ∷ cs) = let rest = after_last cs in later (c == close_paren) cs rest

abbrev in_front : ℕ → List CString → List CString
in_front c [] = (c ∷ []) ∷ []
in_front c (field ∷ fields) = (c ∷ field) ∷ fields

-- `g_strsplit(text, " ", -1)`: an empty text has no fields.
abbrev parts : CString → List CString
parts [] = [] ∷ []
parts (c ∷ cs) = let rest = parts cs in if c == 32 then [] ∷ rest else in_front c rest

unfoldable pub split : CString → List CString
split [] = []
split (c ∷ cs) = parts (c ∷ cs)

-- The parent and the time of the start in the fields of the file.
abbrev info_of : List CString → Option (ℤ × CString)
info_of fields =
    if ltb 19 (length fields)
    then some (int_of_long (strtol (get_or fields 1 [])), take 31 (get_or fields 19 []))
    else none

abbrev fields_of : Option CString → Option (ℤ × CString)
fields_of none = none
fields_of (some []) = none
fields_of (some (c ∷ cs)) = info_of (split (drop 1 (c ∷ cs)))

abbrev info : Option CString → Option (ℤ × CString)
info none = none
info (some text) = fields_of (after_last text)

-- `process_info`.
unfoldable pub process_info : Processes → ℤ → Option (ℤ × CString)
process_info proc pid = if leb_ℤ pid (pos 1) then none else info (proc pid)

-- The loop of `identity`, on what `process_info` gives.
abbrev climb : Option (ℤ × CString) → (ℤ → Bool) → Bool
climb none continue = false
climb (some (parent, _)) continue = continue parent

unfoldable pub descends : Processes → ℤ → ℕ → ℤ → Bool
descends proc root zero pid = false
descends proc root (suc rounds) pid =
    if eq_ℤ pid root then true else climb (process_info proc pid) (descends proc root rounds)

abbrev started_at : CString → Option (ℤ × CString) → Bool
started_at start none = false
started_at start (some (_, current)) = str_eq start current

abbrev pub max_ancestors : ℕ
max_ancestors = 32

-- `identity`; a `start` of NULL is `none`.
unfoldable pub identity : Processes → ℤ → Option CString → ℤ → Bool
identity proc pid none root = false
identity proc pid (some start) root =
    started_at start (process_info proc pid) && descends proc root max_ancestors pid
