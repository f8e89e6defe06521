-- ===== src/Daemon/Names.antt =====
-- The names that native/agentseatd.c prints: `w-%u` for a window, and the session with a number for
-- an operation or a lease.
use Prim.Native.Nat.pow
use agent_seat.Prelude.{
  ℕ, zero, suc, ◌+◌, ◌*◌, ◌/◌, ◌%◌, ◌^◌, ◌-◌, ◌<◌, ◌≡◌, refl, arith, [], ◌∷◌, ◌++◌, CString, cstr,
  ltb, take, if◌then◌else◌, if_cases, ap, ◌∙◌, sym,
}

-- `%u` and `%llu`, for a number of at most `fuel` digits.
unfoldable pub digits : ℕ → ℕ → CString
digits zero n = []
digits (suc fuel) n =
    let rest = digits fuel (n / 10) in
    if ltb n 10 then (48 + n) ∷ [] else rest ++ ((48 + n % 10) ∷ [])

-- The name of a window: 10 digits are enough for `%u`.
unfoldable pub window_name : ℕ → CString
unfolding digits
window_name id = cstr "w-" ++ digits 10 id

-- `snprintf` of `%s:%llu` into 96 bytes.
unfoldable pub operation_name : CString → ℕ → CString
unfolding digits
operation_name session n = take 95 (session ++ (58 ∷ digits 20 n))

-- The same with `%s:l%llu`, for a lease.
pub lease_name : CString → ℕ → CString
unfolding digits
lease_name session n = take 95 (session ++ (58 ∷ 108 ∷ digits 20 n))

-- Reading digits, the most significant one first.
read : ℕ → CString → ℕ
read acc [] = acc
read acc (c ∷ cs) = read (acc * 10 + (c - 48)) cs

read-append :
    (acc : ℕ) (cs : CString) (c : ℕ) → read acc (cs ++ (c ∷ [])) ≡ read acc cs * 10 + (c - 48)
unfolding read
read-append acc [] c = refl
read-append acc (d ∷ cs) c = read-append (acc * 10 + (d - 48)) cs c

read-digits : (fuel n : ℕ) → n < 10 ^ fuel → read 0 (digits fuel n) ≡ n
unfolding read digits
read-digits zero n h = omega arith
read-digits (suc fuel) n h =
    if_cases (λ cs. read 0 cs ≡ n) (ltb n 10) (λ e. omega arith)
      (λ e. omega (
        arith,
        read-append 0 (digits fuel (n / 10)) (48 + n % 10),
        read-digits fuel (n / 10) (omega (arith, pow.suc 10 fuel)),
      ))

tail_2 : CString → CString
tail_2 (x ∷ y ∷ cs) = cs
tail_2 _ = []

-- Different windows have different names.
pub window_name_injective :
    (a b : ℕ) → a < 2 ^ 32 → b < 2 ^ 32 → window_name a ≡ window_name b → a ≡ b
unfolding window_name tail_2
window_name_injective a b ha hb e =
    sym (read-digits 10 a (omega arith))
    ∙ ap (λ cs. read 0 (tail_2 cs)) e
    ∙ read-digits 10 b (omega arith)
