-- ===== src/Capture/Captures.antt =====
-- The phases of a capture in native/agentseat-capture.c, and its end at the deadline.
use agent_seat.Prelude.{
  ℕ, ◌<◌, ◌≤◌, ◌≡◌, refl, ap, ◌∙◌, arith, Bool, true, false, ◌&&◌, ◌||◌, not, Option, none, some,
  CString, cstr, if_cases, ltb, leb, take, add_size, ◌%◌,
}
use agent_seat.Capture.{Frame, accepts_frame, frame_bytes}
use agent_seat.Capture.Receipts.{
  FrameCapture, no_receipt, cleanup, fail_frame, on_active, with_memory, buffer_event, ready_event,
  failed_event, worker_ends, capture_tick, is_active, with_path, capture_start, capture_get,
  retained, as_capture_create,
}

-- What a capture is at: nothing, a frame that the compositor copies, with a deadline, or an image that the
-- worker writes, without one.
pub data CapturePhase (c : FrameCapture) : Type 0 where
  nothing_active :
      c.active ≡ none
      → (c.frame ≡ false) × (c.buffer ≡ false) × (c.pixels ≡ false) × (c.bytes ≡ 0)
      → (c.deadline ≡ 0) × (c.worker_running ≡ false)
      → CapturePhase c
  copying :
      (i : ℕ)
      → c.active ≡ some i
      → (c.frame ≡ true) × (0 < c.deadline) × (c.worker_running ≡ false)
      → CapturePhase c
  encoding :
      (i : ℕ)
      → c.active ≡ some i
      → (c.frame ≡ false) × (c.buffer ≡ false) × (c.deadline ≡ 0) × (c.worker_running ≡ true)
      → CapturePhase c

-- What happens to a capture. The compositor's events come while the frame is there, and the worker ends once.
pub data CaptureStep (c : FrameCapture) : FrameCapture → Type 0 where
  binds : CaptureStep c (record c { bound = true })
  ticks : (now : ℕ) → CaptureStep c (capture_tick c now)
  starts :
      (id : CString) (path : Option CString) (ticked submitted now geometry serial : ℕ)
      → CaptureStep c (capture_start c id path ticked submitted now geometry serial).0
  gets : (id : CString) (now : ℕ) → CaptureStep c (capture_get c id now).0
  buffers :
      (f : Frame) (failure : Option CString)
      → c.frame ≡ true
      → CaptureStep c (buffer_event c f failure)
  readies :
      (hi lo ns : ℕ) (started : Bool)
      → c.frame ≡ true
      → CaptureStep c (ready_event c hi lo ns started)
  fails : c.frame ≡ true → CaptureStep c (failed_event c)
  ends : (success : Bool) → c.worker_running ≡ true → CaptureStep c (worker_ends c success)

failed_after :
    (c : FrameCapture) (message : CString)
    → c.worker_running ≡ false
    → CapturePhase (fail_frame c message)
unfolding fail_frame cleanup
failed_after c message h = nothing_active refl (refl, refl, refl, refl) (refl, h)

tick-CapturePhase :
    (c : FrameCapture) (now : ℕ) → CapturePhase c → CapturePhase (capture_tick c now)
unfolding capture_tick cleanup
tick-CapturePhase c now h =
    if_cases CapturePhase (c.worker_running && c.worker_done)
      (λ _. nothing_active refl (refl, refl, refl, refl) (refl, refl))
      (λ _.
        if_cases CapturePhase (ltb 0 c.deadline && leb c.deadline now)
          (λ e. failed_after c (cstr "Frame deadline expired") (idle_worker c h (ground arith)))
          (λ _. h))
  where
    idle_worker : (d : FrameCapture) → CapturePhase d → 0 < d.deadline → d.worker_running ≡ false
    idle_worker d (nothing_active a f (e, w)) l = w
    idle_worker d (copying i a (f, e, w)) l = w
    idle_worker d (encoding i a (f, b, e, w)) l = absurd (omega (arith, e))

start-CapturePhase :
    (c : FrameCapture) (id : CString) (path : Option CString)
    (ticked submitted now geometry serial : ℕ)
    → CapturePhase c
    → CapturePhase (capture_start c id path ticked submitted now geometry serial).0
unfolding capture_start
start-CapturePhase c id path ticked submitted now geometry serial h =
    let t = capture_tick c ticked in
    if_cases (λ (r : FrameCapture × Bool). CapturePhase r.0) (is_active t.active || not t.bound)
      (λ _. tick-CapturePhase c ticked h)
      (λ e. begins t (tick-CapturePhase c ticked h) (ground arith) path)
  where
    begins :
        (t : FrameCapture)
        → CapturePhase t
        → is_active t.active ≡ false
        → (path : Option CString)
        → CapturePhase
            (with_path
              (record t { sequence = add_size t.sequence 1 })
              (t.sequence % retained)
              (record no_receipt {
                id = take 63 id;
                geometry_version = geometry;
                content_serial = serial;
                submitted_ns = submitted;
              })
              path
              now).0
    begins t (nothing_active a f d) e none = nothing_active a f d
    begins t (nothing_active a f d) e (some path) =
        copying (t.sequence % retained) refl (refl, omega arith, d.1)
    begins t (copying i a f) e path = absurd (ground (arith, e, a))
    begins t (encoding i a f) e path = absurd (ground (arith, e, a))

-- An event of the frame finds it being copied.
framed :
    (c : FrameCapture)
    → CapturePhase c
    → c.frame ≡ true
    → (i : ℕ) × (c.active ≡ some i) × (0 < c.deadline) × (c.worker_running ≡ false)
framed c (nothing_active a f d) h = absurd (ground (arith, f.0, h))
framed c (copying i a f) h = (i, a, f.1, f.2)
framed c (encoding i a f) h = absurd (ground (arith, f.0, h))

memory-CapturePhase :
    (c : FrameCapture) (failure : Option CString) (i : ℕ)
    → c.active ≡ some i
    → (c.frame ≡ true) × (0 < c.deadline) × (c.worker_running ≡ false)
    → CapturePhase (with_memory c failure)
memory-CapturePhase c none i a f = copying i a f
memory-CapturePhase c (some message) i a f = failed_after c message f.2

kept_phase : (c v : FrameCapture) → CapturePhase c → CaptureStep c v → CapturePhase v
unfolding capture_get buffer_event ready_event failed_event worker_ends
kept_phase c v h binds = rebound c h
  where
    rebound : (d : FrameCapture) → CapturePhase d → CapturePhase (record d { bound = true })
    rebound d (nothing_active a f w) = nothing_active a f w
    rebound d (copying i a f) = copying i a f
    rebound d (encoding i a f) = encoding i a f
kept_phase c v h (ticks now) = tick-CapturePhase c now h
kept_phase c v h (starts id path ticked submitted now geometry serial) =
    start-CapturePhase c id path ticked submitted now geometry serial h
kept_phase c v h (gets id now) = tick-CapturePhase c now h
kept_phase c v h (buffers f failure e) =
    let (i, a, d, w) = framed c h e in
    if_cases CapturePhase (accepts_frame f)
      (λ _.
        memory-CapturePhase
          (record c {
            bytes = frame_bytes f;
            receipts =
                on_active c.receipts c.active
                  (λ r. record r { width = f.width; height = f.height });
          })
          failure i a (e, d, w))
      (λ _. failed_after c (cstr "Unsupported frame format or pixel budget exceeded") w)
kept_phase c v h (readies hi lo ns started e) =
    let (i, a, d, w) = framed c h e in
    if_cases CapturePhase started (λ _. encoding i a (refl, refl, refl, refl))
      (λ _. failed_after _ (cstr "Cannot start PNG worker") w)
kept_phase c v h (fails e) =
    let (i, a, d, w) = framed c h e in failed_after c (cstr "Compositor rejected frame copy") w
kept_phase c v h (ends success e) = ended c h e
  where
    ended :
        (d : FrameCapture)
        → CapturePhase d
        → d.worker_running ≡ true
        → CapturePhase (worker_ends d success)
    ended d (nothing_active a f w) e = absurd (ground (arith, w.1, e))
    ended d (copying i a f) e = absurd (ground (arith, f.2, e))
    ended d (encoding i a f) e = encoding i a f

-- Any number of steps.
pub data CaptureReach (c : FrameCapture) : FrameCapture → Type 0 where
  here : CaptureReach c c
  next : {v u : FrameCapture} → CaptureReach c v → CaptureStep v u → CaptureReach c u

all_kept : (c v : FrameCapture) → CapturePhase c → CaptureReach c v → CapturePhase v
all_kept c v h here = h
all_kept c v h (next r s) = kept_phase _ v (all_kept c _ h r) s

-- From `as_capture_create` on, a capture is in a phase: nothing is active and nothing of a frame is held,
-- a frame is copied under a deadline, or the worker writes the image and nothing of the compositor is held.
pub reached-CapturePhase : (c : FrameCapture) → CaptureReach as_capture_create c → CapturePhase c
unfolding as_capture_create
reached-CapturePhase c r =
    all_kept as_capture_create c (nothing_active refl (refl, refl, refl, refl) (refl, refl)) r

tick_frees :
    (c : FrameCapture) (now : ℕ)
    → CapturePhase c
    → c.deadline ≤ now
    → (c.worker_running && not c.worker_done) ≡ false
    → (capture_tick c now).active ≡ none
unfolding capture_tick fail_frame cleanup
tick_frees c now (nothing_active a f d) l w =
    if_cases (λ (v : FrameCapture). v.active ≡ none) (c.worker_running && c.worker_done) (λ _. refl)
      (λ _.
        if_cases (λ (v : FrameCapture). v.active ≡ none) (ltb 0 c.deadline && leb c.deadline now)
          (λ _. refl) (λ _. a))
tick_frees c now (copying i a f) l w =
    if_cases (λ (v : FrameCapture). v.active ≡ none) (c.worker_running && c.worker_done) (λ _. refl)
      (λ _.
        if_cases (λ (v : FrameCapture). v.active ≡ none) (ltb 0 c.deadline && leb c.deadline now)
          (λ _. refl) (λ e. absurd (ground (arith, e, f.1, l))))
tick_frees c now (encoding i a f) l w =
    if_cases (λ (v : FrameCapture). v.active ≡ none) (c.worker_running && c.worker_done) (λ _. refl)
      (λ e. absurd (ground (arith, e, w, f.3)))

tick_bound : (c : FrameCapture) (now : ℕ) → (capture_tick c now).bound ≡ c.bound
unfolding capture_tick fail_frame cleanup
tick_bound c now =
    if_cases (λ (v : FrameCapture). v.bound ≡ c.bound) (c.worker_running && c.worker_done)
      (λ _. refl)
      (λ _.
        if_cases (λ (v : FrameCapture). v.bound ≡ c.bound) (ltb 0 c.deadline && leb c.deadline now)
          (λ _. refl) (λ _. refl))

-- A frame that the compositor does not deliver blocks the next one until its deadline at most: in every
-- state that is reached from `as_capture_create` and has what a capture needs, `as_capture_start` accepts a new
-- frame once the deadline has passed, unless the worker is still writing an image. The path of the new frame
-- fits.
pub deadline-start :
    (c : FrameCapture) (id path : CString) (ticked submitted now geometry serial : ℕ)
    → CaptureReach as_capture_create c
    → c.bound ≡ true
    → c.deadline ≤ ticked
    → (c.worker_running && not c.worker_done) ≡ false
    → (capture_start c id (some path) ticked submitted now geometry serial).1 ≡ true
unfolding capture_start
deadline-start c id path ticked submitted now geometry serial r b l w =
    let free = tick_frees c ticked (reached-CapturePhase c r) l w in
    let still_bound = tick_bound c ticked ∙ b in
    if_cases (λ (p : FrameCapture × Bool). p.1 ≡ true)
      (is_active (capture_tick c ticked).active || not (capture_tick c ticked).bound)
      (λ e. absurd (ground (arith, e, ap is_active free, still_bound))) (λ _. refl)
