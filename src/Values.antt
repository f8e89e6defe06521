-- ===== src/Values.antt =====
-- A small model of json-c's values, at which the theorems about it are applied: atoms and objects
-- of atoms.
use agent_seat.Prelude.{
  ℕ, ◌+◌, ◌≡◌, refl, Bool, true, false, ◌&&◌, Option, none, some, List, [], ◌∷◌, CString, cstr,
  String, str_eq, str_eq_refl, ==_refl, ◌==◌, if◌then◌else◌, length,
}
use agent_seat.Prelude.Int.{ℤ, pos, negsuc}
use agent_seat.Json.{JsonC, JsonType}

pub data Atom : Type 0 where
  text : CString → Atom
  num : ℤ → Atom
  flag : Bool → Atom

pub data Value : Type 0 where
  atom : Atom → Value
  object : List (CString × Atom) → Value

abbrev type_of : Value → JsonType
type_of (atom (text s)) = JsonType.string
type_of (atom (num n)) = JsonType.int
type_of (atom (flag b)) = JsonType.boolean
type_of (object fs) = JsonType.object

abbrev find_field : List (CString × Atom) → CString → Option Value
find_field [] k = none
find_field ((j, a) ∷ fs) k = if str_eq j k then some (atom a) else find_field fs k

abbrev object_get : Value → CString → Option Value
object_get (atom a) k = none
object_get (object fs) k = find_field fs k

abbrev get_string : Value → CString
get_string (atom (text s)) = s
get_string _ = []

abbrev get_int64 : Value → ℤ
get_int64 (atom (num n)) = n
get_int64 _ = pos 0

abbrev get_boolean : Value → Bool
get_boolean (atom (flag b)) = b
get_boolean _ = false

abbrev atom_length : Atom → ℕ
atom_length (text s) = length s + 2
atom_length (num n) = 1
atom_length (flag b) = 4

abbrev fields_length : List (CString × Atom) → ℕ
fields_length [] = 2
fields_length ((k, a) ∷ fs) = length k + atom_length a + 4 + fields_length fs

abbrev text_length : Value → ℕ
text_length (atom a) = atom_length a
text_length (object fs) = fields_length fs

int_eq : ℤ → ℤ → Bool
int_eq (pos a) (pos b) = a == b
int_eq (pos a) (negsuc b) = false
int_eq (negsuc a) (pos b) = false
int_eq (negsuc a) (negsuc b) = a == b

flag_eq : Bool → Bool → Bool
flag_eq true b = b
flag_eq false true = false
flag_eq false false = true

atom_eq : Atom → Atom → Bool
unfolding int_eq flag_eq
atom_eq (text s) (text t) = str_eq s t
atom_eq (num m) (num n) = int_eq m n
atom_eq (flag a) (flag b) = flag_eq a b
atom_eq _ _ = false

fields_eq : List (CString × Atom) → List (CString × Atom) → Bool
unfolding atom_eq
fields_eq [] [] = true
fields_eq ((j, a) ∷ fs) ((k, b) ∷ gs) = str_eq j k && atom_eq a b && fields_eq fs gs
fields_eq _ _ = false

unfoldable pub equal : Value → Value → Bool
unfolding fields_eq str_eq
equal (atom a) (atom b) = atom_eq a b
equal (object fs) (object gs) = fields_eq fs gs
equal _ _ = false

int_eq_refl : (n : ℤ) → int_eq n n ≡ true
unfolding int_eq
int_eq_refl (pos n) = ==_refl n
int_eq_refl (negsuc n) = ==_refl n

atom_eq_refl : (a : Atom) → atom_eq a a ≡ true
unfolding atom_eq
atom_eq_refl (text s) = str_eq_refl s
atom_eq_refl (num n) = int_eq_refl n
atom_eq_refl (flag true) = refl
atom_eq_refl (flag false) = refl

fields_eq_refl : (fs : List (CString × Atom)) → fields_eq fs fs ≡ true
unfolding fields_eq
fields_eq_refl [] = refl
fields_eq_refl ((k, a) ∷ fs) = rw (str_eq_refl k, atom_eq_refl a, fields_eq_refl fs)

pub equal_refl : (v : Value) → equal v v ≡ true
unfolding equal
equal_refl (atom a) = atom_eq_refl a
equal_refl (object fs) = fields_eq_refl fs

abbrev pub values : JsonC
values = record {
  Json = Value;
  type_of = type_of;
  object_get = object_get;
  get_string = get_string;
  get_string_len = λ v. length (get_string v);
  get_int64 = get_int64;
  get_boolean = get_boolean;
  text_length = text_length;
  equal = equal;
  equal_refl = equal_refl;
}

-- The parameters of a write request.
abbrev pub write_params : String → ℕ → Value
write_params owner n =
    object ((cstr "controller_id", text (cstr owner)) ∷ (cstr "request_id", num (pos n)) ∷ [])
