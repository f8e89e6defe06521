-- ===== src/Ledger/Tests.antt =====
-- native/request-ledger.c at concrete requests, and the theorems about it there.
use agent_seat.Prelude.{
  ◌≡◌, ◌⊎◌, refl, false, none, some, List, [], ◌∷◌, CString, cstr, str_eq, arith,
}
use agent_seat.Ledger.{
  Ledger, replayed, refused, admitted, is_admitted, request_id_conflict, request_expired, empty,
  find_controller, find_record, highest_at, raise, owner_of, sequence_of, admit, begin_for, begin,
  evict, free_next, forget, finish, store, receipt,
}
use agent_seat.Ledger.Bounds.{IsValid, begin-IsValid, empty-IsValid}
use agent_seat.Ledger.AtMostOnce.{Op, begins, finishes, run, admitted_once}
use agent_seat.Ledger.Finish.{finish_total}
use agent_seat.Ledger.Replay.{answer, begin-finish}
use agent_seat.Ledger.Retries.{begin-run-finish}
use agent_seat.Values.{Value, values, write_params, equal, object}

abbrev request : Value
request = write_params "writer" 7

abbrev reply : Value
reply = object []

abbrev method : CString
method = cstr "chat.send"

-- The ledger after the first request, and after its receipt is stored.
abbrev begun : Ledger Value
begun = record empty { controllers = record { id = cstr "writer"; highest = 7 } ∷ [] }

abbrev done : Ledger Value
done = store values (receipt values 0 7 method request reply) (0, record begun { next_record = 1 })

begin_first : begin values empty method request ≡ (begun, admitted 0 7)
unfolding begin begin_for admit find_controller find_record highest_at raise owner_of sequence_of
    empty str_eq
begin_first = refl

finish_first : finish values begun 0 7 method request reply ≡ some done
unfolding finish evict free_next forget empty
finish_first = refl

begin_other : (begin values done (cstr "chat.reply") request).1 ≡ refused request_id_conflict
unfolding begin begin_for admit find_controller find_record highest_at raise owner_of sequence_of
    empty str_eq
begin_other = refl

begin-finish_example : begin values done method request ≡ (done, replayed reply)
unfolding owner_of sequence_of str_eq equal
begin-finish_example =
    begin-finish values empty begun done method method request request reply (cstr "writer") 7 0 7
      empty-IsValid refl refl
      (record { owner = refl; sequence = refl; short = omega arith; small = omega arith })
      begin_first finish_first (omega arith)

-- Request 8 begins and finishes before request 7 is sent again.
abbrev later : List (Op values)
later =
    begins method (write_params "writer" 8)
    ∷ finishes 0 8 method (write_params "writer" 8) reply
    ∷ []

begin-run-finish_example :
    let l' = run values done later in
    ((find_record l'.records 0 7 ≡ some (receipt values 0 7 method request reply))
      × (begin values l' method request ≡ answer values l' method request reply method request))
    ⊎ ((find_record l'.records 0 7 ≡ none)
        × (begin values l' method request ≡ (l', refused request_expired)))
unfolding owner_of sequence_of str_eq
begin-run-finish_example =
    begin-run-finish values empty begun done later method method request request reply
      (cstr "writer") 7 0 7 refl refl
      (record { owner = refl; sequence = refl; short = omega arith; small = omega arith })
      begin_first finish_first (tt, (refl, tt))

-- The receipt of request 7 is lost here, and the request is still not admitted again.
admitted_once_example :
    is_admitted
      (begin values
        (run values (begin values empty method request).0 (begins method request ∷ []))
        method
        (write_params "writer" 6)).1
    ≡ false
unfolding owner_of sequence_of str_eq begin begin_for admit find_controller find_record highest_at
    empty
admitted_once_example =
    admitted_once values empty (begins method request ∷ []) method method request
      (write_params "writer" 6) refl refl refl refl (omega arith) refl

begin-IsValid_example : IsValid (begin values empty method request).0
begin-IsValid_example = begin-IsValid values empty method request empty-IsValid

finish_total_example :
    (l : Ledger Value) × (finish values empty 0 7 method request reply ≡ some l) × IsValid l
finish_total_example = finish_total values empty 0 7 method request reply empty-IsValid
