-- ===== src/Worker/Identity.antt =====
-- Which processes `identity` of native/agentseat-semantic.c accepts.
use agent_seat.Prelude.{
  ℕ, zero, suc, ◌<◌, ◌≡◌, ◌↔◌, inl, inr, arith, true, some, CString, str_eq, str_eq→eq, str_eq_refl,
  Option-cases, Bool-cases, subst, ap, sym,
}
use agent_seat.Prelude.Int.{ℤ, eq_ℤ, eq_ℤ→eq, eq_ℤ_refl}
use agent_seat.Worker.Process.{Processes, process_info, descends, identity, max_ancestors}

-- The root is the process itself, or a number of generations above it.
pub data Ancestor (proc : Processes) (root : ℤ) : ℕ → ℤ → Type 0 where
  itself : {pid : ℤ} → pid ≡ root → Ancestor proc root 0 pid
  above :
      {n : ℕ} {pid parent : ℤ} {start : CString}
      → process_info proc pid ≡ some (parent, start)
      → Ancestor proc root n parent
      → Ancestor proc root (suc n) pid

descends-Ancestor :
    (proc : Processes) (root : ℤ) (rounds : ℕ) (pid : ℤ)
    → descends proc root rounds pid ≡ true
    → (n : ℕ) × (n < rounds) × Ancestor proc root n pid
unfolding descends
descends-Ancestor proc root zero pid h = cc
descends-Ancestor proc root (suc rounds) pid h = elim (Bool-cases (eq_ℤ pid root)) [
  | inl e ↦ (0, omega arith, itself (eq_ℤ→eq pid root e))
  | inr e ↦ elim (Option-cases (process_info proc pid)) [
    | inl none_info ↦ absurd (ground arith)
    | inr ((parent, start), e') ↦
        let (n, p, a) = descends-Ancestor proc root rounds parent (ground arith) in
        (suc n, omega arith, above e' a)
  ]
]

Ancestor-descends :
    (proc : Processes) (root : ℤ) (rounds n : ℕ) (pid : ℤ)
    → n < rounds
    → Ancestor proc root n pid
    → descends proc root rounds pid ≡ true
unfolding descends
Ancestor-descends proc root zero n pid p a = absurd (omega arith)
Ancestor-descends proc root (suc rounds) n pid p (itself e) =
    ground (arith, eq_ℤ_refl pid, ap (eq_ℤ pid) e)
Ancestor-descends proc root (suc rounds) (suc n) pid p (above e a) =
    ground (arith, e, Ancestor-descends proc root rounds n _ (omega arith) a)

-- `identity` accepts a process with a time of its start if and only if /proc has the process with
-- that time, and the root is the process itself or one of the 31 generations above it.
pub identity_iff :
    (proc : Processes) (pid : ℤ) (start : CString) (root : ℤ)
    → (identity proc pid (some start) root ≡ true) ↔ (
        (parent : ℤ) × (process_info proc pid ≡ some (parent, start))
        × ((n : ℕ) × (n < max_ancestors) × Ancestor proc root n pid))
unfolding identity
identity_iff proc pid start root = (to, from)
  where
    to :
        identity proc pid (some start) root ≡ true
        → (parent : ℤ) × (process_info proc pid ≡ some (parent, start))
          × ((n : ℕ) × (n < max_ancestors) × Ancestor proc root n pid)
    to h = elim (Option-cases (process_info proc pid)) [
      | inl e ↦ absurd (ground (arith, e))
      | inr ((parent, current), e) ↦
          let same : str_eq start current ≡ true = ground (arith, e) in
          let down : descends proc root max_ancestors pid ≡ true = ground (arith, e) in
          (
            parent,
            subst (λ t. process_info proc pid ≡ some (parent, t))
                (sym (str_eq→eq start current same)) e,
            descends-Ancestor proc root max_ancestors pid down,
          )
    ]

    from :
        (parent : ℤ) × (process_info proc pid ≡ some (parent, start))
          × ((n : ℕ) × (n < max_ancestors) × Ancestor proc root n pid)
        → identity proc pid (some start) root ≡ true
    from (parent, e, (n, p, a)) =
        ground (arith, e, str_eq_refl start, Ancestor-descends proc root max_ancestors n pid p a)
