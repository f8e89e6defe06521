-- ===== src/Catalog.antt =====
-- native/agentseat-i18n.c: the catalogue of translated messages, a GNU message file in memory.
pub mod Bounds
pub mod Order
pub mod Lookup
pub mod Language
mod Tests
use agent_seat.Prelude.{
  ℕ, zero, suc, ◌+◌, ◌*◌, ◌-◌, ◌/◌, ◌^◌, Bool, true, false, ◌&&◌, ◌||◌, not, Option, none, some,
  List, [], ◌∷◌, CString, if◌then◌else◌, ltb, leb, ◌==◌, length, get_elem?, drop, compare, Ordering,
  lt, eq, gt, add_u32, add_size,
}

abbrev pub max_catalog_size : ℕ
max_catalog_size = 16 * 1024 * 1024

-- The answer of code that reads `catalog.data`: a read outside of it is a fault.
pub data Access {ℓ} (A : Type ℓ) : Type ℓ where
  got : A → Access A
  out_of_bounds : Access A

infixl 5 ◌>>=◌
abbrev pub ◌>>=◌ {ℓ κ} : {A : Type ℓ} {B : Type κ} → Access A → (A → Access B) → Access B
got a >>= f = f a
out_of_bounds >>= f = out_of_bounds

-- `struct message_catalog`; `size` is the length of the bytes.
pub record Catalog : Type 0 where
  pub bytes : List ℕ
  pub count : ℕ
  pub originals : ℕ
  pub translations : ℕ
  pub swapped : Bool

-- `catalog.data[offset]`.
abbrev pub read : List ℕ → ℕ → Access ℕ
read [] i = out_of_bounds
read (b ∷ bs) zero = got b
read (b ∷ bs) (suc i) = read bs i

-- The value of four bytes, the least significant one first, or swapped.
abbrev pub word : Bool → ℕ → ℕ → ℕ → ℕ → ℕ
word false a b c d = a + 256 * b + 65536 * c + 16777216 * d
word true a b c d = d + 256 * c + 65536 * b + 16777216 * a

-- `catalog_word`, on a little-endian machine.
pub catalog_word : Catalog → ℕ → Access ℕ
catalog_word c offset =
    if ltb (length c.bytes) offset || ltb (length c.bytes - offset) 4 then got 0 else do
      b₀ ← read c.bytes offset
      b₁ ← read c.bytes (offset + 1)
      b₂ ← read c.bytes (offset + 2)
      b₃ ← read c.bytes (offset + 3)
      got (word c.swapped b₀ b₁ b₂ b₃)

-- The tests of `table_entry` on an offset and a length.
pub check_entry : Catalog → ℕ → ℕ → Access (Option (ℕ × ℕ))
check_entry c offset len =
    if leb (length c.bytes) offset || leb (length c.bytes - offset) len then got none else do
      end ← read c.bytes (add_u32 offset len)
      got (if end == 0 then some (offset, len) else none)

-- `table_entry`: where a text begins, and its length.
pub table_entry : Catalog → ℕ → ℕ → Access (Option (ℕ × ℕ))
table_entry c table index =
    let entry = add_size table (index * 8) in
    if ltb (length c.bytes) entry || ltb (length c.bytes - entry) 8 then got none else do
      len ← catalog_word c entry
      offset ← catalog_word c (entry + 4)
      check_entry c offset len

-- The C string that begins at an offset: the bytes up to the first NUL.
pub string_at : List ℕ → ℕ → Access CString
string_at [] i = out_of_bounds
string_at (b ∷ bs) (suc i) = string_at bs i
string_at (b ∷ bs) zero =
    let rest = string_at bs zero in if b == 0 then got [] else (rest >>= λ s. got (b ∷ s))

-- The sign of `strcmp`.
unfoldable pub str_compare : CString → CString → Ordering
str_compare [] [] = eq
str_compare [] (y ∷ ys) = lt
str_compare (x ∷ xs) [] = gt
str_compare (x ∷ xs) (y ∷ ys) = elim (compare x y) [ lt ↦ lt | gt ↦ gt | eq ↦ str_compare xs ys ]

-- The text of an entry of a table, with its length.
abbrev pub text_of : Catalog → Option (ℕ × ℕ) → Access (Option (CString × ℕ))
text_of c none = got none
text_of c (some (offset, len)) = string_at c.bytes offset >>= λ s. got (some (s, len))

pub entry_text : Catalog → ℕ → ℕ → Access (Option (CString × ℕ))
entry_text c table index = table_entry c table index >>= text_of c

-- What is returned for the message at an index.
abbrev pub translated : CString → Option (CString × ℕ) → CString
translated message none = message
translated message (some (text, len)) = if ltb 0 len then text else message

pub translation : Catalog → CString → ℕ → Access CString
translation c message index = entry_text c c.translations index >>= λ t. got (translated message t)

abbrev pub by_order : Ordering → Access CString → Access CString → Access CString → Access CString
by_order lt below above here = below
by_order gt below above here = above
by_order eq below above here = here

-- The comparison in the loop of `agentseat_translate`, with what each outcome goes on with.
abbrev pub turn :
    CString
    → Option (CString × ℕ)
    → Access CString
    → Access CString
    → Access CString
    → Access CString
turn message none below above here = got message
turn message (some (original, _)) below above here =
    by_order (str_compare message original) below above here

-- The loop of `agentseat_translate`. Each round makes the range shorter, so as many rounds as it has
-- entries are enough: with none left it is empty.
pub search_range : Catalog → CString → ℕ → ℕ → ℕ → Access CString
search_range c message zero low high = got message
search_range c message (suc rounds) low high =
    let middle = low + (high - low) / 2 in
    let below = search_range c message rounds low middle in
    let above = search_range c message rounds (middle + 1) high in
    if ltb low high
    then (entry_text c c.originals middle >>= λ o.
        turn message o below above (translation c message middle))
    else got message

-- `agentseat_translate`; no catalogue is `none`.
pub agentseat_translate : Option Catalog → CString → Access CString
agentseat_translate none message = got message
agentseat_translate (some c) message = search_range c message c.count 0 c.count

abbrev pub mo_magic : ℕ
mo_magic = 0x950412de

abbrev pub mo_magic_swapped : ℕ
mo_magic_swapped = 0xde120495

-- The catalogue before its header is read.
abbrev pub unread : List ℕ → Bool → Catalog
unread bytes swapped = record {
  bytes = bytes;
  count = 0;
  originals = 0;
  translations = 0;
  swapped = swapped;
}

-- The end of `load_catalog`, once the byte order is known.
pub load_tables : List ℕ → Bool → Access (Option Catalog)
load_tables bytes swapped = do
  count ← catalog_word (unread bytes swapped) 8
  originals ← catalog_word (unread bytes swapped) 12
  translations ← catalog_word (unread bytes swapped) 16
  got (
      if ltb 100000 count
        || ltb (length bytes) (originals + count * 8)
        || ltb (length bytes) (translations + count * 8)
      then none
      else some (record (unread bytes swapped) {
        count = count;
        originals = originals;
        translations = translations;
      }))

-- `load_catalog` on the bytes of the file.
pub load_catalog : List ℕ → Access (Option Catalog)
load_catalog bytes =
    if ltb (length bytes) 28 || ltb max_catalog_size (length bytes) then got none else do
      magic ← catalog_word (unread bytes false) 0
      if magic == mo_magic
          then load_tables bytes false
          else if magic == mo_magic_swapped
          then load_tables bytes true
          else got none
