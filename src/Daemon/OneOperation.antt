-- ===== src/Daemon/OneOperation.antt =====
-- At most one operation is in progress, and it is the one that `typing` points at.
use agent_seat.Prelude.{
  ℕ, ◌<◌, ◌≡◌, refl, arith, true, false, Option, none, some, List, length, get_or, set, length-set,
  get_or-set, ◌∙◌,
}
use agent_seat.Daemon.State.{Operation, no_operation, max_operations}

-- The slots of `operations`, with the index that `typing` points at.
pub record IsSingle (ops : List Operation) (typing : Option ℕ) : Type 0 where
  pub slots : length ops ≡ max_operations
  pub in_range : (i : ℕ) → typing ≡ some i → i < max_operations
  pub active : (i : ℕ) → typing ≡ some i → (get_or ops i no_operation).active ≡ true
  pub only : (i : ℕ) → (get_or ops i no_operation).active ≡ true → typing ≡ some i

-- The operation in progress changes and stays in progress.
pub set_current :
    (ops : List Operation) (i : ℕ) (op : Operation)
    → IsSingle ops (some i)
    → op.active ≡ true
    → IsSingle (set ops i op) (some i)
set_current ops i op v a = record {
  slots = length-set ops i op ∙ v.slots;
  in_range = v.in_range;
  active = λ j e.
      ground (arith, v.slots, v.in_range i refl, v.active j e, get_or-set ops i j op no_operation);
  only = λ j e.
      ground (arith, v.slots, v.in_range i refl, v.only j, get_or-set ops i j op no_operation);
}

-- The operation in progress ends.
pub set_ended :
    (ops : List Operation) (i : ℕ) (op : Operation)
    → IsSingle ops (some i)
    → op.active ≡ false
    → IsSingle (set ops i op) none
set_ended ops i op v a = record {
  slots = length-set ops i op ∙ v.slots;
  in_range = λ j e. cc;
  active = λ j e. cc;
  only = λ j e.
      absurd
        (ground (arith, v.slots, v.in_range i refl, v.only j, get_or-set ops i j op no_operation));
}

-- An operation begins while none is in progress.
pub set_started :
    (ops : List Operation) (i : ℕ) (op : Operation)
    → IsSingle ops none
    → i < max_operations
    → op.active ≡ true
    → IsSingle (set ops i op) (some i)
set_started ops i op v p a = record {
  slots = length-set ops i op ∙ v.slots;
  in_range = λ j e. ground arith;
  active = λ j e. ground (arith, v.slots, get_or-set ops i j op no_operation);
  only = λ j e. ground (arith, v.slots, v.only j, get_or-set ops i j op no_operation);
}
