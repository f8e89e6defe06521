-- ===== src/Capture/Pixels.antt =====
-- The loops of `encode` in native/agentseat-capture.c stay within the frame and the image.
use agent_seat.Prelude.{
  ℕ, zero, suc, ◌+◌, ◌*◌, ◌%◌, ◌^◌, ◌<◌, ◌≤◌, ◌≡◌, sym, ap, subst, ◌∙◌, arith, Bool, true, Option,
  none, some, List, if_cases, ◌==◌, length, get_elem?, get_or, get_elem?-eq-get_or,
}
use agent_seat.Daemon.Clients.{copy_at}
use agent_seat.Daemon.Lines.{Copied, copy_at-Copied}
use agent_seat.Capture.{
  Frame, accepts_frame, frame_bytes, image_bytes, word_of, read_pixel, colours, write_pixel,
  source_row, and_then, is_bgr, encode_row, encode_rows, encode_image,
}

-- The result is an image of a size.
abbrev pub Sized : ℕ → Option (List ℕ) → Type 0
Sized n none = ⊥
Sized n (some rgb) = length rgb ≡ n

row_fits : (c a b : ℕ) → a < b → a * c + c ≤ b * c
row_fits c a b h = grind arith

source_row_lt : (f : Frame) (y : ℕ) → y < f.height → source_row f y < f.height
source_row_lt f y h = if_cases (λ r. r < f.height) (f.flags % 2 == 1) (λ _. omega arith) (λ _. h)

-- What `buffer_event` has tested.
fits_lem : (f : Frame) → accepts_frame f ≡ true → f.width * 4 ≤ f.stride
unfolding accepts_frame
fits_lem f a =
    let small : f.width ≤ 8192 = ground arith in
    let wide : f.width * 4 % 2 ^ 32 ≤ f.stride = ground arith in omega (arith, small, wide)

-- A pixel that is read in bounds.
HasPixel : Option ℕ → Type 0
HasPixel none = ⊥
HasPixel (some p) = Unit

read_pixel-HasPixel :
    (pixels : List ℕ) (i : ℕ) → i + 3 < length pixels → HasPixel (read_pixel pixels i)
unfolding read_pixel HasPixel
read_pixel-HasPixel pixels i h =
    subst HasPixel
      (sym (
        ap
          (λ a.
            word_of a (get_elem? pixels (i + 1)) (get_elem? pixels (i + 2))
              (get_elem? pixels (i + 3)))
          (get_elem?-eq-get_or pixels i 0 (omega arith))
        ∙ ap
            (λ b.
              word_of (some (get_or pixels i 0)) b (get_elem? pixels (i + 2))
                (get_elem? pixels (i + 3)))
            (get_elem?-eq-get_or pixels (i + 1) 0 (omega arith))
        ∙ ap
            (λ c.
              word_of (some (get_or pixels i 0)) (some (get_or pixels (i + 1) 0)) c
                (get_elem? pixels (i + 3)))
            (get_elem?-eq-get_or pixels (i + 2) 0 (omega arith))
        ∙ ap
            (λ d.
              word_of (some (get_or pixels i 0)) (some (get_or pixels (i + 1) 0))
                (some (get_or pixels (i + 2) 0)) d)
            (get_elem?-eq-get_or pixels (i + 3) 0 (omega arith))))
      tt

write-Sized :
    (rgb : List ℕ) (i : ℕ) (bgr : Bool) (o : Option ℕ) (n : ℕ)
    → HasPixel o
    → i + 3 ≤ length rgb
    → length rgb ≡ n
    → Sized n (write_pixel rgb i bgr o)
unfolding Copied HasPixel
write-Sized rgb i bgr none n p h e = absurd p
write-Sized rgb i bgr (some pixel) n p h e =
    go (copy_at rgb i (colours bgr pixel)) (copy_at-Copied rgb i (colours bgr pixel) h)
  where
    go : (o : Option (List ℕ)) → Copied rgb i (colours bgr pixel) o → Sized n o
    go none k = k
    go (some rgb') (l, t) = l ∙ e

and_then-Sized :
    (n : ℕ) (o : Option (List ℕ)) (k : List ℕ → Option (List ℕ))
    → Sized n o
    → ((rgb : List ℕ) → length rgb ≡ n → Sized n (k rgb))
    → Sized n (and_then o k)
and_then-Sized n none k h g = h
and_then-Sized n (some rgb) k h g = g rgb h

row-Sized :
    (f : Frame) (pixels : List ℕ) (y x rounds : ℕ) (rgb : List ℕ)
    → accepts_frame f ≡ true
    → length pixels ≡ frame_bytes f
    → length rgb ≡ image_bytes f
    → y < f.height
    → x + rounds ≡ f.width
    → Sized (image_bytes f) (encode_row f pixels y x rounds rgb)
unfolding encode_row
row-Sized f pixels y x zero rgb a p r h e = r
row-Sized f pixels y x (suc rounds) rgb a p r h e =
    let source = source_row f y in
    let inside : source * f.stride + f.stride ≤ f.height * f.stride =
      row_fits f.stride source f.height (source_row_lt f y h) in
    let whole : f.height * f.stride ≡ length pixels = grind (arith, p) in
    let image : y * f.width + f.width ≤ f.height * f.width = row_fits f.width y f.height h in
    let size : f.height * f.width * 3 ≡ length rgb = grind (arith, r) in
    and_then-Sized (image_bytes f) _ _
      (write-Sized rgb ((y * f.width + x) * 3) (is_bgr f.format) _ (image_bytes f)
        (read_pixel-HasPixel pixels (source * f.stride + x * 4)
          (omega (arith, inside, whole, fits_lem f a, e)))
        (omega (arith, image, size, e)) r)
      (λ rgb' r'. row-Sized f pixels y (x + 1) rounds rgb' a p r' h (omega arith))

rows-Sized :
    (f : Frame) (pixels : List ℕ) (y rounds : ℕ) (rgb : List ℕ)
    → accepts_frame f ≡ true
    → length pixels ≡ frame_bytes f
    → length rgb ≡ image_bytes f
    → y + rounds ≡ f.height
    → Sized (image_bytes f) (encode_rows f pixels y rounds rgb)
unfolding encode_rows
rows-Sized f pixels y zero rgb a p r e = r
rows-Sized f pixels y (suc rounds) rgb a p r e =
    and_then-Sized (image_bytes f) _ _
      (row-Sized f pixels y 0 f.width rgb a p r (omega arith) (omega arith))
      (λ rgb' r'. rows-Sized f pixels (y + 1) rounds rgb' a p r' (omega arith))

-- For every frame that `buffer_event` accepts, with shared memory of its size and an image of three bytes
-- for each of its pixels, the loops of `encode` read only within the memory and write only within the image,
-- whichever way up the frame is, and the image keeps its size.
pub encode_image-Sized :
    (f : Frame) (pixels rgb : List ℕ)
    → accepts_frame f ≡ true
    → length pixels ≡ frame_bytes f
    → length rgb ≡ image_bytes f
    → Sized (image_bytes f) (encode_image f pixels rgb)
unfolding encode_image
encode_image-Sized f pixels rgb a p r = rows-Sized f pixels 0 f.height rgb a p r (omega arith)
