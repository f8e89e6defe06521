-- ===== src/Catalog/Bounds.antt =====
-- No access of native/agentseat-i18n.c leaves the bytes of the file.
use agent_seat.Prelude.{
  ℕ, zero, suc, ◌+◌, ◌*◌, ◌-◌, ◌/◌, ◌<◌, ◌≤◌, ◌≡◌, refl, arith, subst, Bool, true, false, ◌||◌,
  Option, none, some, List, [], ◌∷◌, CString, if◌then◌else◌, if_cases, ltb, leb, ◌==◌, length, lt,
  eq, gt, Ordering, add_u32, add_size,
}
use agent_seat.Catalog.{
  Catalog, Access, got, out_of_bounds, ◌>>=◌, read, catalog_word, check_entry, table_entry,
  string_at, str_compare, text_of, entry_text, translation, turn, by_order, search_range,
  agentseat_translate, max_catalog_size, load_tables, load_catalog, unread, mo_magic,
  mo_magic_swapped,
}

-- The access ends with a value that satisfies `P`.
abbrev pub Returns {ℓ} : {A : Type ℓ} → (A → Type 0) → Access A → Type 0
Returns P (got a) = P a
Returns P out_of_bounds = ⊥

-- It ends with a value.
abbrev pub IsSafe {ℓ} : {A : Type ℓ} → Access A → Type 0
IsSafe (got a) = Unit
IsSafe out_of_bounds = ⊥

>>=-Returns {ℓ κ} :
    {A : Type ℓ} {B : Type κ} (P : A → Type 0) (Q : B → Type 0) (m : Access A) (f : A → Access B)
    → Returns P m
    → ((a : A) → P a → Returns Q (f a))
    → Returns Q (m >>= f)
>>=-Returns P Q (got a) f h k = k a h
>>=-Returns P Q out_of_bounds f h k = h

>>=-IsSafe {ℓ κ} :
    {A : Type ℓ} {B : Type κ} (m : Access A) (f : A → Access B)
    → IsSafe m
    → ((a : A) → IsSafe (f a))
    → IsSafe (m >>= f)
>>=-IsSafe (got a) f h k = k a
>>=-IsSafe out_of_bounds f h k = h

Returns→IsSafe {ℓ κ} :
    {A : Type ℓ} {B : Type κ} (P : A → Type 0) (m : Access A) (f : A → Access B)
    → Returns P m
    → ((a : A) → P a → IsSafe (f a))
    → IsSafe (m >>= f)
Returns→IsSafe P (got a) f h k = k a h
Returns→IsSafe P out_of_bounds f h k = h

read-IsSafe : (bs : List ℕ) (i : ℕ) → i < length bs → IsSafe (read bs i)
read-IsSafe [] i h = absurd (omega arith)
read-IsSafe (b ∷ bs) zero h = tt
read-IsSafe (b ∷ bs) (suc i) h = read-IsSafe bs i (omega arith)

pub catalog_word-IsSafe : (c : Catalog) (offset : ℕ) → IsSafe (catalog_word c offset)
unfolding catalog_word
catalog_word-IsSafe c offset =
    if_cases IsSafe (ltb (length c.bytes) offset || ltb (length c.bytes - offset) 4) (λ _. tt)
      (λ e. >>=-IsSafe (read c.bytes offset) _ (read-IsSafe c.bytes offset (ground arith)) (λ b₀.
        >>=-IsSafe (read c.bytes (offset + 1)) _ (read-IsSafe c.bytes (offset + 1) (ground arith))
          (λ b₁.
            >>=-IsSafe (read c.bytes (offset + 2)) _
              (read-IsSafe c.bytes (offset + 2) (ground arith))
              (λ b₂.
                >>=-IsSafe (read c.bytes (offset + 3)) _
                  (read-IsSafe c.bytes (offset + 3) (ground arith)) (λ b₃. tt)))))

-- A text that a NUL ends within the bytes.
abbrev pub IsTerminated : Catalog → Option (ℕ × ℕ) → Type 0
IsTerminated c none = Unit
IsTerminated c (some (offset, len)) = read c.bytes (offset + len) ≡ got 0

check_end-IsTerminated :
    (c : Catalog) (offset len end : ℕ)
    → read c.bytes (offset + len) ≡ got end
    → IsTerminated c (if end == 0 then some (offset, len) else none)
check_end-IsTerminated c offset len zero h = h
check_end-IsTerminated c offset len (suc end) h = ground arith

IsSafe-Returns {ℓ} : {A : Type ℓ} (m : Access A) → IsSafe m → Returns (λ _. Unit) m
IsSafe-Returns (got a) h = tt
IsSafe-Returns out_of_bounds h = h

read_again :
    (c : Catalog) (offset len : ℕ) (r : Access ℕ)
    → read c.bytes (offset + len) ≡ r
    → IsSafe r
    → Returns (IsTerminated c) (r >>= λ end. got (if end == 0 then some (offset, len) else none))
read_again c offset len (got end) e h = check_end-IsTerminated c offset len end e
read_again c offset len out_of_bounds e h = h

check_entry-IsTerminated :
    (c : Catalog) (offset len : ℕ)
    → length c.bytes ≤ max_catalog_size
    → Returns (IsTerminated c) (check_entry c offset len)
unfolding check_entry
check_entry-IsTerminated c offset len small =
    if_cases (Returns (IsTerminated c))
      (leb (length c.bytes) offset || leb (length c.bytes - offset) len) (λ _. tt)
      (λ e.
        let inside : offset + len < length c.bytes = ground arith in
        let same : offset + len ≡ add_u32 offset len = omega arith in
        subst
          (λ i.
            Returns (IsTerminated c)
              (read c.bytes i >>= λ end. got (if end == 0 then some (offset, len) else none)))
          same
          (read_again c offset len (read c.bytes (offset + len)) refl
            (read-IsSafe c.bytes (offset + len) inside)))

table_entry-IsTerminated :
    (c : Catalog) (table index : ℕ)
    → length c.bytes ≤ max_catalog_size
    → Returns (IsTerminated c) (table_entry c table index)
unfolding table_entry
table_entry-IsTerminated c table index small =
    let entry = add_size table (index * 8) in
    if_cases (Returns (IsTerminated c))
      (ltb (length c.bytes) entry || ltb (length c.bytes - entry) 8) (λ _. tt)
      (λ _.
        >>=-Returns (λ _. Unit) (IsTerminated c) (catalog_word c entry) _
          (IsSafe-Returns (catalog_word c entry) (catalog_word-IsSafe c entry))
          (λ len _.
            >>=-Returns (λ _. Unit) (IsTerminated c) (catalog_word c (entry + 4)) _
              (IsSafe-Returns (catalog_word c (entry + 4)) (catalog_word-IsSafe c (entry + 4)))
              (λ offset _. check_entry-IsTerminated c offset len small)))

end_lem : (b : ℕ) (bs : List ℕ) → read (b ∷ bs) (0 + 0) ≡ got 0 → (b == 0) ≡ false → ⊥
end_lem b bs h e =
    let z : 0 + 0 ≡ 0 = omega arith in
    let h' : read (b ∷ bs) 0 ≡ got 0 = rw z at h in ground (arith, h', e)

string_at-IsSafe : (bs : List ℕ) (i n : ℕ) → read bs (i + n) ≡ got 0 → IsSafe (string_at bs i)
unfolding string_at
string_at-IsSafe [] i n h = cc
string_at-IsSafe (b ∷ bs) (suc i) n h =
    let e : suc i + n ≡ suc (i + n) = omega arith in string_at-IsSafe bs i n (rw e at h)
string_at-IsSafe (b ∷ bs) zero zero h =
    if_cases IsSafe (b == 0) (λ _. tt) (λ e. absurd (end_lem b bs h e))
string_at-IsSafe (b ∷ bs) zero (suc n) h =
    if_cases IsSafe (b == 0) (λ _. tt)
      (λ _.
        >>=-IsSafe (string_at bs zero) _
          (string_at-IsSafe bs zero n
            (let e' : 0 + suc n ≡ suc (0 + n) = omega arith in rw e' at h))
          (λ s. tt))

text_of-IsSafe : (c : Catalog) (t : Option (ℕ × ℕ)) → IsTerminated c t → IsSafe (text_of c t)
text_of-IsSafe c none h = tt
text_of-IsSafe c (some (offset, len)) h =
    >>=-IsSafe (string_at c.bytes offset) _ (string_at-IsSafe c.bytes offset len h) (λ s. tt)

pub entry_text-IsSafe :
    (c : Catalog) (table index : ℕ)
    → length c.bytes ≤ max_catalog_size
    → IsSafe (entry_text c table index)
unfolding entry_text
entry_text-IsSafe c table index small =
    Returns→IsSafe (IsTerminated c) (table_entry c table index) (text_of c)
      (table_entry-IsTerminated c table index small) (text_of-IsSafe c)

pub translation-IsSafe :
    (c : Catalog) (m : CString) (i : ℕ)
    → length c.bytes ≤ max_catalog_size
    → IsSafe (translation c m i)
unfolding translation
translation-IsSafe c m i small =
    >>=-IsSafe (entry_text c c.translations i) _ (entry_text-IsSafe c c.translations i small)
      (λ t. tt)

by_order-IsSafe :
    (o : Ordering) (below above here : Access CString)
    → IsSafe below
    → IsSafe above
    → IsSafe here
    → IsSafe (by_order o below above here)
by_order-IsSafe lt below above here p q r = p
by_order-IsSafe eq below above here p q r = r
by_order-IsSafe gt below above here p q r = q

turn-IsSafe :
    (m : CString) (o : Option (CString × ℕ)) (below above here : Access CString)
    → IsSafe below
    → IsSafe above
    → IsSafe here
    → IsSafe (turn m o below above here)
turn-IsSafe m none below above here p q r = tt
turn-IsSafe m (some (s, len)) below above here p q r =
    by_order-IsSafe (str_compare m s) below above here p q r

search_range-IsSafe :
    (c : Catalog) (m : CString) (rounds low high : ℕ)
    → length c.bytes ≤ max_catalog_size
    → IsSafe (search_range c m rounds low high)
unfolding search_range
search_range-IsSafe c m zero low high small = tt
search_range-IsSafe c m (suc rounds) low high small =
    let middle = low + (high - low) / 2 in
    if_cases IsSafe (ltb low high)
      (λ _.
        >>=-IsSafe (entry_text c c.originals middle) _
          (entry_text-IsSafe c c.originals middle small)
          (λ o.
            turn-IsSafe m o _ _ _ (search_range-IsSafe c m rounds low middle small)
              (search_range-IsSafe c m rounds (middle + 1) high small)
              (translation-IsSafe c m middle small)))
      (λ _. tt)

-- What `load_catalog` accepts.
abbrev IsLoaded : Option Catalog → Type 0
IsLoaded none = Unit
IsLoaded (some c) =
    (length c.bytes ≤ max_catalog_size)
    × (c.count ≤ 100000)
    × (c.originals + c.count * 8 ≤ length c.bytes)
    × (c.translations + c.count * 8 ≤ length c.bytes)

tables-IsLoaded :
    (bytes : List ℕ) (swapped : Bool) (count originals translations : ℕ)
    → length bytes ≤ max_catalog_size
    → IsLoaded (
        if ltb 100000 count
          || ltb (length bytes) (originals + count * 8)
          || ltb (length bytes) (translations + count * 8)
        then none
        else some (record (unread bytes swapped) {
          count = count;
          originals = originals;
          translations = translations;
        }))
tables-IsLoaded bytes swapped count originals translations small = ground arith

load_tables-IsLoaded :
    (bytes : List ℕ) (swapped : Bool)
    → length bytes ≤ max_catalog_size
    → Returns IsLoaded (load_tables bytes swapped)
unfolding load_tables
load_tables-IsLoaded bytes swapped small =
    let raw = unread bytes swapped in
    let at = λ (i : ℕ). IsSafe-Returns (catalog_word raw i) (catalog_word-IsSafe raw i) in
    >>=-Returns (λ _. Unit) IsLoaded (catalog_word raw 8) _ (at 8)
      (λ count _.
        >>=-Returns (λ _. Unit) IsLoaded (catalog_word raw 12) _ (at 12)
          (λ originals _.
            >>=-Returns (λ _. Unit) IsLoaded (catalog_word raw 16) _ (at 16)
              (λ translations _. tables-IsLoaded bytes swapped count originals translations small)))

load_catalog-IsLoaded : (bytes : List ℕ) → Returns IsLoaded (load_catalog bytes)
unfolding load_catalog
load_catalog-IsLoaded bytes =
    let raw = unread bytes false in
    if_cases (Returns IsLoaded) (ltb (length bytes) 28 || ltb max_catalog_size (length bytes))
      (λ _. tt)
      (λ e.
        >>=-Returns (λ _. Unit) IsLoaded (catalog_word raw 0) _
          (IsSafe-Returns (catalog_word raw 0) (catalog_word-IsSafe raw 0))
          (λ magic _.
            if_cases (Returns IsLoaded) (magic == mo_magic)
              (λ _. load_tables-IsLoaded bytes false (ground arith))
              (λ _.
                if_cases (Returns IsLoaded) (magic == mo_magic_swapped)
                  (λ _. load_tables-IsLoaded bytes true (ground arith)) (λ _. tt))))

translate-IsSafe :
    (c : Option Catalog) (m : CString) → IsLoaded c → IsSafe (agentseat_translate c m)
unfolding agentseat_translate
translate-IsSafe none m v = tt
translate-IsSafe (some c) m v = search_range-IsSafe c m c.count 0 c.count v.0

-- Whatever bytes a file has, `load_catalog` reads only within them, and with what it has loaded
-- `agentseat_translate` reads only within them, for every message: no table, offset or length in the
-- file makes them leave it.
pub load-translate-IsSafe :
    (bytes : List ℕ) (message : CString)
    → IsSafe (load_catalog bytes >>= λ c. agentseat_translate c message)
load-translate-IsSafe bytes message =
    Returns→IsSafe IsLoaded (load_catalog bytes) (λ c. agentseat_translate c message)
      (load_catalog-IsLoaded bytes) (λ c. translate-IsSafe c message)
