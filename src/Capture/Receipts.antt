-- ===== src/Capture/Receipts.antt =====
-- native/agentseat-capture.c: the receipts of the frames, and the frame that is being captured.
use agent_seat.Prelude.{
  ℕ, ◌+◌, ◌*◌, ◌%◌, ◌^◌, Bool, true, false, ◌&&◌, ◌||◌, not, Option, none, some, List, [], ◌∷◌,
  CString, cstr, str_eq, if◌then◌else◌, ltb, leb, get_or, set, take, add_size, replicate,
}
use agent_seat.Capture.{Frame, accepts_frame, frame_bytes}

abbrev pub retained : ℕ
retained = 8

-- The strings of `status`.
pub data FrameStatus : Type 0 where
  blank pending failed finished : FrameStatus

-- `struct receipt`.
pub record FrameReceipt : Type 0 where
  pub id : CString
  pub path : CString
  pub status : FrameStatus
  pub error : CString
  pub width : ℕ
  pub height : ℕ
  pub geometry_version : ℕ
  pub content_serial : ℕ
  pub submitted_ns : ℕ
  pub presented_ns : ℕ

-- The zeroed struct.
abbrev pub no_receipt : FrameReceipt
no_receipt = record {
  id = [];
  path = [];
  status = blank;
  error = [];
  width = 0;
  height = 0;
  geometry_version = 0;
  content_serial = 0;
  submitted_ns = 0;
  presented_ns = 0;
}

-- `struct as_capture`. `bound` says that the manager, the memory and the output are bound; `frame`,
-- `buffer` and `pixels` whether they are set; `active` is the index in `receipts`.
pub record FrameCapture : Type 0 where
  pub bound : Bool
  pub frame : Bool
  pub buffer : Bool
  pub pixels : Bool
  pub bytes : ℕ
  pub receipts : List FrameReceipt
  pub active : Option ℕ
  pub sequence : ℕ
  pub deadline : ℕ
  pub worker_running : Bool
  pub worker_done : Bool

-- `as_capture_create`.
unfoldable pub as_capture_create : FrameCapture
unfolding replicate
as_capture_create = record {
  bound = false;
  frame = false;
  buffer = false;
  pixels = false;
  bytes = 0;
  receipts = replicate retained no_receipt;
  active = none;
  sequence = 0;
  deadline = 0;
  worker_running = false;
  worker_done = false;
}

-- `cleanup`.
unfoldable pub cleanup : FrameCapture → FrameCapture
cleanup c = record c {
  frame = false;
  buffer = false;
  pixels = false;
  bytes = 0;
  active = none;
  deadline = 0;
}

abbrev pub on_active :
    List FrameReceipt → Option ℕ → (FrameReceipt → FrameReceipt) → List FrameReceipt
on_active rs none f = rs
on_active rs (some i) f = set rs i (f (get_or rs i no_receipt))

-- `fail`; `error` has 128 bytes.
unfoldable pub fail_frame : FrameCapture → CString → FrameCapture
fail_frame c message = cleanup (record c {
  receipts =
      on_active c.receipts c.active (λ r. record r { status = failed; error = take 127 message });
})

abbrev pub with_memory : FrameCapture → Option CString → FrameCapture
with_memory c none = record c { pixels = true; buffer = true }
with_memory c (some message) = fail_frame c message

-- `buffer_event`; `failure` says why the shared memory could not be made.
unfoldable pub buffer_event : FrameCapture → Frame → Option CString → FrameCapture
buffer_event c f failure =
    if accepts_frame f
    then with_memory
        (record c {
          bytes = frame_bytes f;
          receipts =
              on_active c.receipts c.active (λ r. record r { width = f.width; height = f.height });
        })
        failure
    else fail_frame c (cstr "Unsupported frame format or pixel budget exceeded")

-- `ready_event`; `started` says whether the thread could be started.
unfoldable pub ready_event : FrameCapture → ℕ → ℕ → ℕ → Bool → FrameCapture
ready_event c hi lo ns started =
    let presented = ((hi * 2 ^ 32 + lo) * 1000000000 + ns) % 2 ^ 64 in
    let c' = record c {
      receipts = on_active c.receipts c.active (λ r. record r { presented_ns = presented });
      frame = false;
      buffer = false;
      worker_done = false;
    } in
    if started
    then record c' { worker_running = true; deadline = 0 }
    else fail_frame c' (cstr "Cannot start PNG worker")

-- `failed_event`.
unfoldable pub failed_event : FrameCapture → FrameCapture
failed_event c = fail_frame c (cstr "Compositor rejected frame copy")

-- The end of `encode`, on the worker's thread.
unfoldable pub worker_ends : FrameCapture → Bool → FrameCapture
worker_ends c success = record c {
  receipts = on_active c.receipts c.active (λ r.
      if success
      then record r { status = finished }
      else record r { status = failed; error = cstr "PNG encoding or file write failed" });
  worker_done = true;
}

-- `as_capture_tick` at a time in milliseconds.
unfoldable pub capture_tick : FrameCapture → ℕ → FrameCapture
capture_tick c now =
    if c.worker_running && c.worker_done
    then cleanup (record c { worker_running = false })
    else if ltb 0 c.deadline && leb c.deadline now
    then fail_frame c (cstr "Frame deadline expired")
    else c

abbrev pub is_active : Option ℕ → Bool
is_active none = false
is_active (some i) = true

-- A receipt for a new frame, with the path of its image if that fits.
abbrev pub with_path : FrameCapture → ℕ → FrameReceipt → Option CString → ℕ → FrameCapture × Bool
with_path c i r none now = (record c { receipts = set c.receipts i r }, false)
with_path c i r (some path) now = (
  record c {
    receipts = set c.receipts i (record r { path = path; status = pending });
    active = some i;
    deadline = now + 3000;
    frame = true;
  },
  true,
)

-- `as_capture_start`; the name of the frame, which is made of the time and the number, and its path are
-- given. The clock is read for the tick, for the frame in nanoseconds, and for the deadline.
unfoldable pub capture_start :
    FrameCapture → CString → Option CString → ℕ → ℕ → ℕ → ℕ → ℕ → FrameCapture × Bool
capture_start c id path ticked submitted now geometry serial =
    let t = capture_tick c ticked in
    if is_active t.active || not t.bound
    then (t, false)
    else with_path (record t { sequence = add_size t.sequence 1 }) (t.sequence % retained)
        (record no_receipt {
          id = take 63 id;
          geometry_version = geometry;
          content_serial = serial;
          submitted_ns = submitted;
        })
        path now

-- The loop of `as_capture_get`.
abbrev pub find_receipt : List FrameReceipt → CString → Option FrameReceipt
find_receipt [] id = none
find_receipt (r ∷ rs) id = let rest = find_receipt rs id in if str_eq r.id id then some r else rest

-- `as_capture_get`.
unfoldable pub capture_get : FrameCapture → CString → ℕ → FrameCapture × Option FrameReceipt
capture_get c id now = let t = capture_tick c now in (t, find_receipt t.receipts id)
