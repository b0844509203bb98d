-- ===== src/Framing/Roundtrip.antt =====
-- What is written is read back, and a torn frame is never taken for a message.
use shelldon.Base.{
  ℕ, zero, suc, ◌+◌, ◌≤◌, ◌<◌, none, some, true, false, List, [], ◌∷◌, ◌++◌, ltb, length, All, take,
  ◌≡◌, refl, ap, subst, ◌∙◌, append_assoc, append-nil, arith,
}
use shelldon.Base.Result.{Result, ok}
use shelldon.Framing.{
  Bytes, max_frame_bytes, to_bytes, from_bytes, write_prefixed, with_byte, read_exactly, gone, got,
  payload_of, after_header, read_prefixed, write_frame, decoded, read_payload, read_frame,
  write_frames, more, read_frames,
}

big_endian : (n : ℕ) → n < 4_294_967_296 → from_bytes 0 (to_bytes n) ≡ n
unfolding from_bytes to_bytes
big_endian n h = omega arith

read_exactly-length : (bs rest : Bytes) → read_exactly (length bs) (bs ++ rest) ≡ some (bs, rest)
unfolding read_exactly with_byte
read_exactly-length [] rest = refl
read_exactly-length (b ∷ bs) rest = rw (read_exactly-length bs rest) refl

header_read : (n : ℕ) (rest : Bytes) → read_exactly 4 (to_bytes n ++ rest) ≡ some (to_bytes n, rest)
unfolding to_bytes read_exactly with_byte
header_read n rest = refl

below_cap : (n : ℕ) → n ≤ max_frame_bytes → ltb max_frame_bytes n ≡ false
below_cap n h = ground arith

below_word : (n : ℕ) → n ≤ max_frame_bytes → ltb n 4_294_967_296 ≡ true
below_word n h = ground arith

prefixed_read :
    (p rest : Bytes)
    → length p ≤ max_frame_bytes
    → read_prefixed ((to_bytes (length p) ++ p) ++ rest) ≡ got p rest
unfolding read_prefixed after_header payload_of
prefixed_read p rest h =
    rw
      (
        append_assoc (to_bytes (length p)) p rest,
        header_read (length p) (p ++ rest),
        big_endian (length p) (omega arith),
        below_cap (length p) h,
        read_exactly-length p rest,
      )
      refl

succ_plus : (a b : ℕ) → suc a + b ≡ suc (a + b)
succ_plus a b = omega arith

read_short : (n : ℕ) (bs : Bytes) → length bs < n → read_exactly n bs ≡ none
unfolding read_exactly with_byte
read_short zero bs h = absurd (omega arith)
read_short (suc n) [] h = refl
read_short (suc n) (b ∷ bs) h = rw (read_short n bs (omega arith)) refl

take_short : (k : ℕ) (bs : Bytes) → k < length bs → length (take k bs) < length bs
take_short zero bs h = h
take_short (suc k) [] h = omega arith
take_short (suc k) (b ∷ bs) h = omega (arith, take_short k bs (omega arith))

torn :
    (p : Bytes) (k : ℕ)
    → length p ≤ max_frame_bytes
    → k < 4 + length p
    → read_prefixed (take k (to_bytes (length p) ++ p)) ≡ gone
unfolding read_prefixed after_header payload_of to_bytes with_byte read_exactly
torn p zero h s = refl
torn p (suc zero) h s = refl
torn p (suc (suc zero)) h s = refl
torn p (suc (suc (suc zero))) h s = refl
torn p (suc (suc (suc (suc k)))) h s =
    rw
      (
        big_endian (length p) (omega arith),
        below_cap (length p) h,
        read_short (length p) (take k p) (take_short k p (omega arith)),
      )
      refl

module _ {E : Type 0} (encode : E → Bytes) (decode : Bytes → Result E)
    (decode-encode : (e : E) → decode (encode e) ≡ ok e) where
  -- The bytes of the frames, when none is too long.
  abbrev pub wire : List E → Bytes
  wire [] = []
  wire (e ∷ es) = (to_bytes (length (encode e)) ++ encode e) ++ wire es

  frame_read :
      (e : E) (rest : Bytes)
      → length (encode e) ≤ max_frame_bytes
      → read_frame encode decode ((to_bytes (length (encode e)) ++ encode e) ++ rest) ≡ got e rest
  unfolding read_frame read_payload decoded
  frame_read e rest h = rw (prefixed_read (encode e) rest h, decode-encode e) refl

  frames_written :
      (es : List E)
      → All (λ e. length (encode e) ≤ max_frame_bytes) es
      → write_frames encode decode es ≡ ok (wire es)
  unfolding write_frames write_frame write_prefixed
  frames_written [] h = refl
  frames_written (e ∷ es) h = rw (below_word (length (encode e)) h.0, frames_written es h.1) refl

  torn_frame :
      (e : E) (k : ℕ)
      → length (encode e) ≤ max_frame_bytes
      → k < 4 + length (encode e)
      → read_frame encode decode (take k (to_bytes (length (encode e)) ++ encode e)) ≡ gone
  unfolding read_frame read_payload
  torn_frame e k h s = rw (torn (encode e) k h s) refl

  next_frame :
      (n : ℕ) (stream : Bytes) (e : E) (rest : Bytes)
      → read_frame encode decode stream ≡ got e rest
      → read_frames encode decode (suc n) stream
        ≡ more encode decode e (read_frames encode decode n rest)
  unfolding read_frames
  next_frame n stream e rest h = rw (read_frames, h) refl

  last_frame :
      (n : ℕ) (stream : Bytes)
      → read_frame encode decode stream ≡ gone
      → read_frames encode decode n stream ≡ ([], stream)
  unfolding read_frames
  last_frame zero stream h = refl
  last_frame (suc n) stream h = rw (read_frames, h) refl

  frames_then :
      (n : ℕ) (es : List E) (tail : Bytes)
      → All (λ e. length (encode e) ≤ max_frame_bytes) es
      → read_frame encode decode tail ≡ gone
      → read_frames encode decode (length es + n) (wire es ++ tail) ≡ (es, tail)
  unfolding more
  frames_then n [] tail h g = rw (plus_zero n) (last_frame n tail g)
    where
      plus_zero : (k : ℕ) → 0 + k ≡ k
      plus_zero k = omega arith
  frames_then n (e ∷ es) tail h g =
      let frame = to_bytes (length (encode e)) ++ encode e in
      rw (succ_plus (length es) n, append_assoc frame (wire es) tail)
        (next_frame (length es + n) (frame ++ (wire es ++ tail)) e (wire es ++ tail)
            (frame_read e (wire es ++ tail) h.0)
          ∙ ap (more encode decode e) (frames_then n es tail h.1 g))

  nothing_left : read_frame encode decode [] ≡ gone
  unfolding read_frame read_prefixed read_exactly with_byte after_header read_payload
  nothing_left = refl

  -- With a decoder that reads what the encoder wrote: every sequence of messages below the size cap,
  -- written as frames on one stream, is read back in
  -- order and leaves nothing; when the peer dies in the middle of a further frame, exactly the messages
  -- before it are read, and no part of it is taken for a message.
  pub read_frames-write_frames :
      (es : List E) (e : E) (k n : ℕ)
      → All (λ x. length (encode x) ≤ max_frame_bytes) es
      → length (encode e) ≤ max_frame_bytes
      → k < 4 + length (encode e)
      → (b : Bytes) × ((write_frames encode decode es ≡ ok b)
          × ((read_frames encode decode (length es + n) b ≡ (es, []))
              × (read_frames encode decode
                    (length es + n)
                    (b ++ take k (to_bytes (length (encode e)) ++ encode e))
                  ≡ (es, take k (to_bytes (length (encode e)) ++ encode e)))))
  read_frames-write_frames es e k n h c s = (
    wire es,
    (
      frames_written es h,
      (
        subst (λ b. read_frames encode decode (length es + n) b ≡ (es, [])) (append-nil (wire es))
            (frames_then n es [] h nothing_left),
        frames_then n es (take k (to_bytes (length (encode e)) ++ encode e)) h (torn_frame e k c s),
      ),
    ),
  )
