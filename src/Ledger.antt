-- ===== src/Ledger.antt =====
-- native/request-ledger.c and request-ledger.h: the receipts of write requests, kept so that a
-- request which is sent again is answered from its receipt and is never executed twice.
mod Watermarks
pub mod AtMostOnce
pub mod Bounds
mod Evict
pub mod Finish
pub mod Replay
mod Receipts
pub mod Taken
pub mod Retries
mod Tests
use agent_seat.Prelude.{
  ℕ, suc, ◌+◌, ◌*◌, ◌%◌, Bool, true, false, ◌&&◌, ◌||◌, Option, none, some, List, [], ◌∷◌, ◌++◌,
  CString, cstr, str_eq, ltb, leb, ◌==◌, if◌then◌else◌, length, get_or, set, take, replicate,
  add_size, sub_size,
}
use agent_seat.Prelude.Int.{pos, pos_part, ltb_ℤ}
use agent_seat.Json.{JsonC, is_string, is_int}

abbrev pub max_controllers : ℕ
max_controllers = 128

abbrev pub request_history : ℕ
request_history = 128

abbrev pub ledger_bytes : ℕ
ledger_bytes = 1024 * 1024

-- `struct as_controller_watermark`.
pub record Watermark : Type 0 where
  pub id : CString
  pub highest : ℕ

-- `struct as_request_record` with a response.
pub record Receipt (Json : Type 0) : Type 0 where
  pub controller : ℕ
  pub sequence : ℕ
  pub method : CString
  pub params : Json
  pub response : Json
  pub bytes : ℕ

-- `struct as_request_ledger`. `controllers` holds the `controller_count` entries in use; a record
-- whose response is NULL is `none`.
pub record Ledger (Json : Type 0) : Type 0 where
  pub controllers : List Watermark
  pub records : List (Option (Receipt Json))
  pub next_record : ℕ
  pub bytes : ℕ

-- The codes that `as_request_begin` returns.
pub data Failure : Type 0 where
  request_id_required resource_limit request_id_conflict request_expired : Failure

-- What `as_request_begin` gives its caller: a code, a retained response in `*replay`, or NULL with
-- `*controller` and `*sequence` set.
pub data Begun (Json : Type 0) : Type 0 where
  refused : Failure → Begun Json
  replayed : Json → Begun Json
  admitted : ℕ → ℕ → Begun Json

abbrev pub is_admitted : {Json : Type 0} → Begun Json → Bool
is_admitted (admitted c n) = true
is_admitted _ = false

-- The zeroed struct.
pub empty : {Json : Type 0} → Ledger Json
unfolding replicate
empty = record {
  controllers = [];
  records = replicate request_history none;
  next_record = 0;
  bytes = 0;
}

-- The `while` loop over `controllers`: the first index with this id, or their number.
pub find_controller : List Watermark → CString → ℕ
find_controller [] id = 0
find_controller (w ∷ ws) id = if str_eq w.id id then 0 else suc (find_controller ws id)

pub highest_at : List Watermark → ℕ → ℕ
highest_at [] i = 0
highest_at (w ∷ ws) ℕ.zero = w.highest
highest_at (w ∷ ws) (suc i) = highest_at ws i

-- `ledger->controllers[index].highest = *sequence`.
pub raise : List Watermark → ℕ → ℕ → List Watermark
raise [] i s = []
raise (w ∷ ws) ℕ.zero s = record w { highest = s } ∷ ws
raise (w ∷ ws) (suc i) s = w ∷ raise ws i s

-- `ledger->controllers[index].id`.
pub id_at : List Watermark → ℕ → CString
id_at [] i = []
id_at (w ∷ ws) ℕ.zero = w.id
id_at (w ∷ ws) (suc i) = id_at ws i

module _ {Json : Type 0} where
  -- The loop over the records of `as_request_begin`.
  pub find_record : List (Option (Receipt Json)) → ℕ → ℕ → Option (Receipt Json)
  find_record [] c s = none
  find_record (none ∷ rs) c s = find_record rs c s
  find_record (some r ∷ rs) c s =
      if (r.controller == c) && (r.sequence == s) then some r else find_record rs c s

  abbrev receipt_bytes : Option (Receipt Json) → ℕ
  receipt_bytes none = 0
  receipt_bytes (some r) = r.bytes

  -- `forget` on the record at an index.
  pub forget : Ledger Json → ℕ → Ledger Json
  forget l i = record l {
    bytes = sub_size l.bytes (receipt_bytes (get_or l.records i none));
    records = set l.records i none;
  }

  -- A round of the `do` loop of `as_request_finish`: the next slot, freed.
  pub free_next : Ledger Json → Ledger Json
  unfolding forget
  free_next l =
      forget (record l { next_record = add_size l.next_record 1 }) (l.next_record % request_history)

  -- The loop, which makes room for `size` bytes and ends with the slot that it freed last; `none`
  -- means that the fuel ran out.
  pub evict : ℕ → Ledger Json → ℕ → Option (ℕ × Ledger Json)
  evict ℕ.zero l size = none
  evict (suc fuel) l size =
      let rest = evict fuel (free_next l) size in
      if ltb ledger_bytes (add_size (free_next l).bytes size)
      then rest
      else some (l.next_record % request_history, free_next l)

  -- The loop of `as_request_get`.
  pub get_receipt : List Watermark → List (Option (Receipt Json)) → CString → ℕ → Option Json
  get_receipt ws [] id s = none
  get_receipt ws (none ∷ rs) id s = get_receipt ws rs id s
  get_receipt ws (some r ∷ rs) id s =
      if (r.sequence == s) && str_eq (id_at ws r.controller) id
      then some r.response
      else get_receipt ws rs id s

  -- `as_request_get`.
  pub get : Ledger Json → CString → ℕ → Option Json
  get l = get_receipt l.controllers l.records

  forget_first : ℕ → Ledger Json → Ledger Json
  forget_first ℕ.zero l = l
  forget_first (suc i) l = forget (forget_first i l) i

  -- `as_request_ledger_finish`.
  pub ledger_finish : Ledger Json → Ledger Json
  ledger_finish = forget_first request_history

module _ (J : JsonC) where
  open J use {Json, type_of, object_get, get_string, get_string_len, get_int64, text_length, equal}

  abbrev owner_value : Option Json → Option CString
  owner_value none = none
  owner_value (some v) =
      let n = get_string_len v in
      if is_string (type_of v) && leb 1 n && leb n 128 && (length (get_string v) == n)
      then some (get_string v)
      else none

  abbrev sequence_value : Option Json → Option ℕ
  sequence_value none = none
  sequence_value (some v) =
      if is_int (type_of v) && ltb_ℤ (pos 0) (get_int64 v)
      then some (pos_part (get_int64 v))
      else none

  -- The first test of `as_request_begin`: the controller and the number of a request.
  pub owner_of : Json → Option CString
  owner_of params = owner_value (object_get params (cstr "controller_id"))

  pub sequence_of : Json → Option ℕ
  sequence_of params = sequence_value (object_get params (cstr "request_id"))

  -- The records and the watermark, for a controller with an entry.
  pub admit : Ledger Json → CString → Json → ℕ → ℕ → Ledger Json × Begun Json
  admit l method params index seq = elim (find_record l.records index seq) [
    | some r ↦
        if str_eq r.method method && equal r.params params
        then (l, replayed r.response)
        else (l, refused request_id_conflict)
    | none ↦
        if leb seq (highest_at l.controllers index)
        then (l, refused request_expired)
        else (record l { controllers = raise l.controllers index seq }, admitted index seq)
  ]

  -- The entry of a controller, which is made on its first request.
  pub begin_for : Ledger Json → CString → Json → CString → ℕ → Ledger Json × Begun Json
  begin_for l method params id seq =
      let index = find_controller l.controllers id in
      if index == length l.controllers
      then if index == max_controllers
        then (l, refused resource_limit)
        else admit
            (record l { controllers = l.controllers ++ (record { id = id; highest = 0 } ∷ []) })
            method params index seq
      else admit l method params index seq

  -- `as_request_begin`.
  pub begin : Ledger Json → CString → Json → Ledger Json × Begun Json
  begin l method params = elim (owner_of params) [
    | none ↦ (l, refused request_id_required)
    | some id ↦ elim (sequence_of params) [
      | none ↦ (l, refused request_id_required)
      | some seq ↦
          if leb 96 (length method) || ltb 65536 (text_length params)
          then (l, refused resource_limit)
          else begin_for l method params id seq
    ]
  ]

  abbrev receipt : ℕ → ℕ → CString → Json → Json → Receipt Json
  receipt c seq method params response = record {
    controller = c;
    sequence = seq;
    method = take 95 method;
    params = params;
    response = response;
    bytes = add_size (text_length params) (text_length response);
  }

  abbrev store : Receipt Json → ℕ × Ledger Json → Ledger Json
  store r (slot, l) = record l {
    records = set l.records slot (some r);
    bytes = add_size l.bytes r.bytes;
  }

  -- `as_request_finish`. Enough fuel for the loop is a round over the records.
  pub finish : Ledger Json → ℕ → ℕ → CString → Json → Json → Option (Ledger Json)
  finish l c seq method params response =
      let r = receipt c seq method params response in
      if ltb ledger_bytes r.bytes
      then some l
      else elim (evict request_history l r.bytes) [ none ↦ none | some e ↦ some (store r e) ]
