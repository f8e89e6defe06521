-- ===== src/Capture/Tests.antt =====
-- native/agentseat-capture.c on small frames, and the theorems about it there.
use agent_seat.Prelude.{true, ℕ, ◌≡◌, refl, some, List, [], ◌∷◌, replicate, arith, cstr}
use agent_seat.Daemon.Clients.{copy_at}
use agent_seat.Capture.{
  Frame, xrgb, accepts_frame, read_pixel, encode_row, encode_rows, encode_image,
}
use agent_seat.Capture.Receipts.{FrameCapture, as_capture_create, capture_start, capture_tick}
use agent_seat.Capture.Captures.{
  CapturePhase, CaptureReach, here, next, binds, starts, reached-CapturePhase, deadline-start,
}
use agent_seat.Capture.Pixels.{Sized, encode_image-Sized}

-- One pixel above the other, upside down.
abbrev frame : Frame
frame = record { format = xrgb; stride = 4; flags = 1; width = 1; height = 2 }

abbrev pixels : List ℕ
pixels = 1 ∷ 2 ∷ 3 ∷ 0 ∷ 4 ∷ 5 ∷ 6 ∷ 0 ∷ []

encoded_frame : encode_image frame pixels (replicate 6 0) ≡ some (6 ∷ 5 ∷ 4 ∷ 3 ∷ 2 ∷ 1 ∷ [])
unfolding encode_image encode_rows encode_row read_pixel copy_at replicate
encoded_frame = refl

encode_image-Sized_example : Sized 6 (encode_image frame pixels (replicate 6 0))
unfolding accepts_frame replicate
encode_image-Sized_example = encode_image-Sized frame pixels (replicate 6 0) refl refl refl

-- A capture that was started, and whose frame the compositor does not deliver.
abbrev bound_capture : FrameCapture
bound_capture = record as_capture_create { bound = true }

abbrev waiting_capture : FrameCapture
waiting_capture = (capture_start bound_capture (cstr "f-1") (some (cstr "/a.png")) 10 10 10 3 4).0

capture_waits : CaptureReach as_capture_create waiting_capture
capture_waits = next (next here binds) (starts (cstr "f-1") (some (cstr "/a.png")) 10 10 10 3 4)

reached-CapturePhase_example : CapturePhase waiting_capture
reached-CapturePhase_example = reached-CapturePhase waiting_capture capture_waits

deadline-start_example :
    (capture_start waiting_capture (cstr "f-2") (some (cstr "/b.png")) 3010 3010 3010 3 4).1 ≡ true
unfolding capture_start capture_tick as_capture_create
deadline-start_example =
    deadline-start waiting_capture (cstr "f-2") (cstr "/b.png") 3010 3010 3010 3 4 capture_waits
      refl (omega arith) refl
