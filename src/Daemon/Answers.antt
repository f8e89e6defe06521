-- ===== src/Daemon/Answers.antt =====
-- `client_write` of native/agentseatd.c sends an answer in order and in full.
use agent_seat.Prelude.{
  ℕ, zero, suc, ◌+◌, ◌-◌, ◌<◌, ◌≤◌, ◌≡◌, ◌⊎◌, inl, inr, refl, sym, ap, subst, ◌∙◌, arith, true,
  false, none, some, List, [], ◌∷◌, ◌++◌, if_cases, ◌==◌, ==→eq, length, take, drop,
}
use mathlib.Core.List.{append_assoc}
use agent_seat.Daemon.Clients.{
  Client, client_io_budget, closed_client, Sent, sent, later_again, broken, offered_bytes,
  write_some, client_write,
}

module _ {A : Type 0} where
  take-drop : (n : ℕ) (xs : List A) → take n xs ++ drop n xs ≡ xs
  take-drop zero xs = refl
  take-drop (suc n) [] = refl
  take-drop (suc n) (x ∷ xs) = ap (◌∷◌ x) (take-drop n xs)

  drop_nil : (n : ℕ) → drop {A = A} n [] ≡ []
  drop_nil zero = refl
  drop_nil (suc n) = refl

  drop-drop : (n m : ℕ) (xs : List A) → drop n (drop m xs) ≡ drop (m + n) xs
  drop-drop n zero xs = let e : n ≡ 0 + n = omega arith in ap (λ k. drop k xs) e
  drop-drop n (suc m) [] = drop_nil n ∙ sym (drop_nil (suc m + n))
  drop-drop n (suc m) (x ∷ xs) =
      let e : suc (m + n) ≡ suc m + n = omega arith in
      drop-drop n m xs ∙ ap (λ k. drop k (x ∷ xs)) e

  length-drop : (n : ℕ) (xs : List A) → length (drop n xs) ≡ length xs - n
  length-drop zero xs = omega arith
  length-drop (suc n) [] = omega arith
  length-drop (suc n) (x ∷ xs) = omega (arith, length-drop n xs)

  take-take : (n k : ℕ) (xs : List A) → n ≤ length (take k xs) → take n (take k xs) ≡ take n xs
  take-take zero k xs h = refl
  take-take (suc n) zero xs h = absurd (omega arith)
  take-take (suc n) (suc k) [] h = refl
  take-take (suc n) (suc k) (x ∷ xs) h = ap (◌∷◌ x) (take-take n k xs (omega arith))

take_bound : (k : ℕ) (xs : List ℕ) (n : ℕ) → n ≤ length (take k xs) → n ≤ length xs
take_bound zero xs n h = omega arith
take_bound (suc k) [] n h = omega arith
take_bound (suc k) (x ∷ xs) zero h = omega arith
take_bound (suc k) (x ∷ xs) (suc n) h = omega (arith, take_bound k xs n (omega arith))

drop_all : (n : ℕ) (xs : List ℕ) → n ≡ length xs → drop n xs ≡ []
drop_all zero [] h = refl
drop_all zero (x ∷ xs) h = absurd (omega arith)
drop_all (suc n) [] h = refl
drop_all (suc n) (x ∷ xs) h = drop_all n xs (omega arith)

-- What `send` may say of the bytes that it is offered, unless the connection breaks.
abbrev pub Taken : Client → List ℕ → Sent → Type 0
Taken c response later_again = Unit
Taken c response broken = ⊥
Taken c response (sent zero) = ⊥
Taken c response (sent (suc n)) = suc n ≤ length (offered_bytes response c.written)

-- The writes of the main loop, with the bytes that go out.
unfoldable pub write_all : Client → List Sent → Client × List ℕ
write_all c [] = (c, [])
write_all c (r ∷ rs) =
    let (c', out) = client_write c r in let (c'', more) = write_all c' rs in (c'', out ++ more)

-- Each send takes some of what it is offered.
abbrev pub AllTaken : Client → List ℕ → List Sent → Type 0
AllTaken c response [] = Unit
AllTaken c response (r ∷ rs) = Taken c response r × AllTaken (client_write c r).0 response rs

-- The answer that is still to be sent: all from `written` on, or nothing once the connection is closed.
abbrev pub Left : Client → List ℕ → List ℕ → Type 0
Left c response rest =
    ((c.is_open ≡ true)
      × (c.response ≡ some response)
      × (c.written < length response)
      × (rest ≡ drop c.written response))
    ⊎ ((c ≡ closed_client) × (rest ≡ []))

short_of : (w n l : ℕ) → suc n ≤ l - w → (w + suc n == l) ≡ false → w + suc n < l
short_of w n l h e = ground (arith, h, e)

-- One write.
write-Left :
    (c : Client) (response : List ℕ) (r : Sent)
    → (c.is_open ≡ true) × (c.response ≡ some response)
    → c.written < length response
    → Taken c response r
    → (rest : List ℕ) × Left (write_some c response r).0 response rest
      × ((write_some c response r).1 ++ rest ≡ drop c.written response)
write-Left c response later_again h w t = (drop c.written response, inl (h.0, h.1, w, refl), refl)
write-Left c response broken h w t = absurd t
write-Left c response (sent zero) h w t = absurd t
write-Left c response (sent (suc n)) h w t =
    let written = c.written + suc n in
    let left = drop c.written response in
    let size : length left ≡ length response - c.written = length-drop c.written response in
    let bound : suc n ≤ length left = take_bound client_io_budget left (suc n) t in
    let out : take (suc n) (take client_io_budget left) ++ drop written response ≡ left =
      ap (λ p. p ++ drop written response) (take-take (suc n) client_io_budget left t)
      ∙ (ap (λ q. take (suc n) left ++ q) (sym (drop-drop (suc n) c.written response))
          ∙ take-drop (suc n) left) in
    (
      drop written response,
      if_cases (λ v. Left v response (drop written response)) (written == length response)
          (λ e. inr (refl, drop_all written response (==→eq written (length response) e)))
          (λ e. inl (
            h.0,
            h.1,
            short_of c.written n (length response) (omega (arith, bound, size)) e,
            refl,
          )),
      out,
    )

response_write :
    (c : Client) (response : List ℕ) (r : Sent)
    → c.response ≡ some response
    → client_write c r ≡ write_some c response r
unfolding client_write
response_write c response r e = ap (λ o. elim o [ none ↦ (c, []) | some a ↦ write_some c a r ]) e

closed_write : (c : Client) (r : Sent) → c ≡ closed_client → client_write c r ≡ (c, [])
unfolding client_write
closed_write c r e = subst (λ k. client_write k r ≡ (k, [])) (sym e) refl

-- The writes from a state on in which some bytes are left.
all-Left :
    (c : Client) (response rest : List ℕ) (rs : List Sent)
    → Left c response rest
    → AllTaken c response rs
    → (end : List ℕ) × Left (write_all c rs).0 response end × ((write_all c rs).1 ++ end ≡ rest)
unfolding write_all
all-Left c response rest [] h t = (rest, h, refl)
all-Left c response rest (r ∷ rs) (inl (a, b, w, e)) (t, ts) =
    let (mid, l, f) =
      subst
        (λ (p : Client × List ℕ).
          (m : List ℕ) × Left p.0 response m × (p.1 ++ m ≡ drop c.written response))
        (sym (response_write c response r b)) (write-Left c response r (a, b) w t) in
    let (end, l', g) = all-Left (client_write c r).0 response mid rs l ts in
    (
      end,
      l',
      append_assoc (client_write c r).1 (write_all (client_write c r).0 rs).1 end
          ∙ (ap (λ m. (client_write c r).1 ++ m) g ∙ (f ∙ sym e)),
    )
all-Left c response rest (r ∷ rs) (inr (e, n)) (t, ts) =
    let same : client_write c r ≡ (c, []) = closed_write c r e in
    let (end, l, g) =
      all-Left (client_write c r).0 response rest rs
        (inr (ap (λ (p : Client × List ℕ). p.0) same ∙ e, n)) ts in
    (
      end,
      l,
      ap (λ (p : Client × List ℕ). (p.1 ++ (write_all (client_write c r).0 rs).1) ++ end) same ∙ g,
    )

-- Whatever part of what it is offered each `send` takes, and however often it takes nothing, the bytes that
-- `client_write` has sent are the answer up to `written`; the connection is closed when they are the whole
-- answer, and not before. The connection does not break, and the answer is not empty.
pub answer_sent :
    (c : Client) (response : List ℕ) (rs : List Sent)
    → (c.is_open ≡ true) × (c.response ≡ some response) × (c.written ≡ 0)
    → 0 < length response
    → AllTaken c response rs
    → (rest : List ℕ) × Left (write_all c rs).0 response rest
      × ((write_all c rs).1 ++ rest ≡ response)
answer_sent c response rs (a, b, z) h t =
    all-Left c response response rs (inl (a, b, omega arith, ap (λ n. drop n response) (sym z))) t
