-- ===== src/Capture.antt =====
-- native/agentseat-capture.c: the frame that is accepted, and its conversion to the pixels of an image.
pub mod Pixels
pub mod Receipts
pub mod Captures
mod Tests
use agent_seat.Prelude.{
  ℕ, zero, suc, ◌+◌, ◌*◌, ◌-◌, ◌/◌, ◌%◌, ◌^◌, Bool, true, false, ◌&&◌, ◌||◌, not, Option, none,
  some, List, [], ◌∷◌, if◌then◌else◌, ltb, leb, ◌==◌, length, get_elem?,
}
use agent_seat.Daemon.Clients.{copy_at}

abbrev pub max_bytes : ℕ
max_bytes = 64 * 1024 * 1024

-- The formats of wl_shm that the code names, and the others.
pub data Format : Type 0 where
  xrgb argb xbgr abgr unknown : Format

abbrev pub is_known : Format → Bool
is_known unknown = false
is_known _ = true

abbrev pub is_bgr : Format → Bool
is_bgr xbgr = true
is_bgr abgr = true
is_bgr _ = false

-- What `buffer_event` and `flags_event` note of a frame.
pub record Frame : Type 0 where
  pub format : Format
  pub stride : ℕ
  pub flags : ℕ
  pub width : ℕ
  pub height : ℕ

-- The test of `buffer_event`, on uint32_t.
unfoldable pub accepts_frame : Frame → Bool
accepts_frame f = not (
    (f.width == 0)
    || (f.height == 0)
    || ltb 8192 f.width
    || ltb 8192 f.height
    || ltb f.stride (f.width * 4 % 2 ^ 32)
    || ltb max_bytes (f.stride * f.height)
    || not (is_known f.format))

-- The size of the shared memory, and that of the image.
abbrev pub frame_bytes : Frame → ℕ
frame_bytes f = f.stride * f.height

abbrev pub image_bytes : Frame → ℕ
image_bytes f = f.width * 3 * f.height

-- The uint32_t at an offset, on a little-endian machine; a read outside of the memory is `none`.
abbrev pub word_of : Option ℕ → Option ℕ → Option ℕ → Option ℕ → Option ℕ
word_of (some a) (some b) (some c) (some d) = some (a + 256 * b + 65536 * c + 16777216 * d)
word_of _ _ _ _ = none

unfoldable pub read_pixel : List ℕ → ℕ → Option ℕ
read_pixel pixels i =
    word_of (get_elem? pixels i) (get_elem? pixels (i + 1)) (get_elem? pixels (i + 2))
      (get_elem? pixels (i + 3))

-- The three bytes of a pixel.
abbrev pub colours : Bool → ℕ → List ℕ
colours bgr pixel =
    (if bgr then pixel % 256 else pixel / 65536 % 256)
    ∷ (pixel / 256 % 256)
    ∷ (if bgr then pixel / 65536 % 256 else pixel % 256)
    ∷ []

abbrev pub write_pixel : List ℕ → ℕ → Bool → Option ℕ → Option (List ℕ)
write_pixel rgb i bgr none = none
write_pixel rgb i bgr (some pixel) = copy_at rgb i (colours bgr pixel)

-- The row of the frame that becomes a row of the image.
abbrev pub source_row : Frame → ℕ → ℕ
source_row f y = if f.flags % 2 == 1 then f.height - 1 - y else y

abbrev pub and_then : Option (List ℕ) → (List ℕ → Option (List ℕ)) → Option (List ℕ)
and_then none k = none
and_then (some rgb) k = k rgb

-- The inner loop of `encode`, from the column `x` on.
unfoldable pub encode_row : Frame → List ℕ → ℕ → ℕ → ℕ → List ℕ → Option (List ℕ)
encode_row f pixels y x zero rgb = some rgb
encode_row f pixels y x (suc rounds) rgb =
    and_then
      (write_pixel rgb ((y * f.width + x) * 3) (is_bgr f.format)
        (read_pixel pixels (source_row f y * f.stride + x * 4)))
      (encode_row f pixels y (x + 1) rounds)

-- The outer loop, from the row `y` on.
unfoldable pub encode_rows : Frame → List ℕ → ℕ → ℕ → List ℕ → Option (List ℕ)
encode_rows f pixels y zero rgb = some rgb
encode_rows f pixels y (suc rounds) rgb =
    and_then (encode_row f pixels y 0 f.width rgb) (encode_rows f pixels (y + 1) rounds)

-- The loops of `encode`.
unfoldable pub encode_image : Frame → List ℕ → List ℕ → Option (List ℕ)
encode_image f pixels rgb = encode_rows f pixels 0 f.height rgb
