-- ===== src/Framing/Samples.antt =====
-- Two messages of a few bytes, and a third one cut off.
use shelldon.Base.{◌+◌, ◌≡◌, refl, List, [], ◌∷◌, ◌++◌, length, take, arith}
use shelldon.Base.Result.{Result, ok}
use shelldon.Framing.{Bytes, to_bytes, write_frames, read_frames}
use shelldon.Framing.Roundtrip.{read_frames-write_frames}

abbrev encode : Bytes → Bytes
encode b = b

abbrev decode : Bytes → Result Bytes
decode b = ok b

abbrev sent : List Bytes
sent = (1 ∷ 2 ∷ 3 ∷ []) ∷ [] ∷ []

abbrev cut_off : Bytes
cut_off = 7 ∷ 8 ∷ []

read_frames-write_frames_example :
    (b : Bytes) × ((write_frames encode decode sent ≡ ok b)
      × ((read_frames encode decode (length sent + 3) b ≡ (sent, []))
          × (read_frames encode decode
                (length sent + 3)
                (b ++ take 5 (to_bytes (length (encode cut_off)) ++ encode cut_off))
              ≡ (sent, take 5 (to_bytes (length (encode cut_off)) ++ encode cut_off)))))
read_frames-write_frames_example =
    read_frames-write_frames encode decode (λ e. refl) sent cut_off 5 3
      (omega arith, (omega arith, tt)) (omega arith) (omega arith)
