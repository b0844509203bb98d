-- ===== src/Framing.antt =====
-- shelldon/core/bus/frame.py: frames with a length prefix on a stream of bytes. The stream is the list
-- of bytes that are still to be read, and ends where the peer has gone. `encode` and `decode` are
-- msgspec's on the type `E` of what a frame carries, an envelope or the registering actor; `decode`
-- raises on bytes that are no such message.
pub mod Roundtrip
pub mod Samples
use shelldon.Base.{
  ℕ, zero, suc, ◌+◌, ◌*◌, ◌/◌, ◌%◌, Option, none, some, List, [], ◌∷◌, ◌++◌, ltb, leb, length,
  if◌then◌else◌,
}
use shelldon.Base.Result.{Result, ok, err, value_error, overflow_error, require, ◌>>=◌, ◌>>◌}

abbrev pub Bytes : Type 0
Bytes = List ℕ

abbrev pub max_frame_bytes : ℕ
max_frame_bytes = 8_388_608

-- `n.to_bytes(4, "big")`, of a number below 2 ^ 32
unfoldable pub to_bytes : ℕ → Bytes
to_bytes n = n / 16_777_216 ∷ n / 65_536 % 256 ∷ n / 256 % 256 ∷ n % 256 ∷ []

-- `int.from_bytes(header, "big")`
unfoldable pub from_bytes : ℕ → Bytes → ℕ
from_bytes acc [] = acc
from_bytes acc (b ∷ bs) = from_bytes (acc * 256 + b) bs

-- The bytes that `_write_prefixed` writes.
unfoldable pub write_prefixed : Bytes → Result Bytes
unfolding to_bytes
write_prefixed payload = do
  require (ltb (length payload) 4_294_967_296) overflow_error
  ok (to_bytes (length payload) ++ payload)

with_byte : ℕ → Option (Bytes × Bytes) → Option (Bytes × Bytes)
with_byte b none = none
with_byte b (some (taken, rest)) = some (b ∷ taken, rest)

-- `readexactly(n)`: no result on an incomplete read.
unfoldable pub read_exactly : ℕ → Bytes → Option (Bytes × Bytes)
unfolding with_byte
read_exactly zero bs = some ([], bs)
read_exactly (suc n) [] = none
read_exactly (suc n) (b ∷ bs) = with_byte b (read_exactly n bs)

-- What a read ends in: the peer has gone, a length above the cap, or a payload and what is left.
pub data Read (A : Type 0) : Type 0 where
  gone : Read A
  raised : Read A
  got : A → Bytes → Read A

payload_of : Option (Bytes × Bytes) → Read Bytes
payload_of none = gone
payload_of (some (payload, rest)) = got payload rest

after_header : Option (Bytes × Bytes) → Read Bytes
unfolding payload_of read_exactly from_bytes
after_header none = gone
after_header (some (header, rest)) =
    if ltb max_frame_bytes (from_bytes 0 header)
    then raised
    else payload_of (read_exactly (from_bytes 0 header) rest)

unfoldable pub read_prefixed : Bytes → Read Bytes
unfolding after_header read_exactly
read_prefixed stream = after_header (read_exactly 4 stream)

module _ {E : Type 0} (encode : E → Bytes) (decode : Bytes → Result E) where
  unfoldable pub write_frame : E → Result Bytes
  unfolding write_prefixed
  write_frame e = write_prefixed (encode e)

  decoded : Result E → Bytes → Read E
  decoded (err x) rest = raised
  decoded (ok e) rest = got e rest

  read_payload : Read Bytes → Read E
  unfolding decoded
  read_payload gone = gone
  read_payload raised = raised
  read_payload (got payload rest) = decoded (decode payload) rest

  unfoldable pub read_frame : Bytes → Read E
  unfolding read_payload read_prefixed
  read_frame stream = read_payload (read_prefixed stream)

  -- Frames written one after the other.
  unfoldable pub write_frames : List E → Result Bytes
  unfolding write_frame
  write_frames [] = ok []
  write_frames (e ∷ es) = do first ← write_frame e; rest ← write_frames es; ok (first ++ rest)

  more : E → List E × Bytes → List E × Bytes
  more e (es, rest) = (e ∷ es, rest)

  -- The loop of a reader, for at most `n` frames: it stops at the first read without a payload.
  unfoldable pub read_frames : ℕ → Bytes → List E × Bytes
  unfolding more read_frame
  read_frames zero stream = ([], stream)
  read_frames (suc n) stream = elim (read_frame stream) [
    | gone ↦ ([], stream)
    | raised ↦ ([], stream)
    | got e rest ↦ more e (read_frames n rest)
  ]
