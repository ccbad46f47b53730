-- ===== src/Gateway/Framing.antt =====
-- The gateway's frames are read as they were written, and a truncated one is never accepted.
use dust_monitoring.Prelude.{
  ℕ, zero, suc, ◌-◌, ◌/◌, ◌%◌, ◌<◌, ◌≤◌, ◌≡◌, refl, ap, ◌∙◌, true, false, some, [], ◌∷◌, ◌++◌, ltb,
  lt→ltb, ltb→lt, leb, ◌==◌, if◌then◌else◌, length, take, length-append, length-take, arith, leb→le,
  any, Bool-cases, inl, inr,
}
use dust_monitoring.Loas.Words.{
  Bytes, be32, of_be32, got, incomplete, readexactly, readexactly-append,
}
use dust_monitoring.Gateway.Wire.{
  MessageType, video_chunk, video_complete, sensor_sample, analysis_result, alert, heartbeat, ack,
  error, value_of, of_value, max_payload_size, Tail, frame, payload_too_large, cut_short,
  after_type, after_header, read_frame, write_frame, split_chunk, join_chunk,
}

of_value-value_of : (t : MessageType) → of_value (value_of t) ≡ some t
unfolding of_value
of_value-value_of video_chunk = refl
of_value-value_of video_complete = refl
of_value-value_of sensor_sample = refl
of_value-value_of analysis_result = refl
of_value-value_of alert = refl
of_value-value_of heartbeat = refl
of_value-value_of ack = refl
of_value-value_of error = refl

value_of-bound : (t : MessageType) → value_of t < 4294967296
value_of-bound video_chunk = omega arith
value_of-bound video_complete = omega arith
value_of-bound sensor_sample = omega arith
value_of-bound analysis_result = omega arith
value_of-bound alert = omega arith
value_of-bound heartbeat = omega arith
value_of-bound ack = omega arith
value_of-bound error = omega arith

of_be32-be32 :
    (n : ℕ)
    → n < 4294967296
    → of_be32 (n / 16777216 % 256) (n / 65536 % 256) (n / 256 % 256) (n % 256) ≡ n
of_be32-be32 n h = omega arith

abbrev header : MessageType → ℕ → Bytes
header t n = be32 n ++ be32 (value_of t)

after_header-header :
    (tail : Tail) (t : MessageType) (n : ℕ) (rest : Bytes)
    → n < 4294967296
    → after_header tail (got (header t n) rest)
      ≡ (if ltb max_payload_size n then payload_too_large else after_type tail n rest (some t))
unfolding after_header
after_header-header tail t n rest h =
    rw (of_be32-be32 n h)
      (rw (of_be32-be32 (value_of t) (value_of-bound t)) (rw (of_value-value_of t) refl))

after_type-payload :
    (tail : Tail) (t : MessageType) (p rest : Bytes)
    → after_type tail (length p) (p ++ rest) (some t) ≡ frame t p rest
unfolding after_type
after_type-payload tail t [] rest = refl
after_type-payload tail t (b ∷ p) rest =
    rw (readexactly-append (suc (length p)) (b ∷ p) rest refl) (ground arith)

write_frame-header :
    (t : MessageType) (p b : Bytes)
    → write_frame t p ≡ some b
    → (b ≡ header t (length p) ++ p) × (length p < 4294967296)
unfolding write_frame
write_frame-header t p b h = (ground arith, ground arith)

le→not_ltb : (n : ℕ) → n ≤ max_payload_size → ltb max_payload_size n ≡ false
le→not_ltb n h = ground arith

not_leb→ltb : (n : ℕ) → leb n max_payload_size ≡ false → ltb max_payload_size n ≡ true
not_leb→ltb n h = ground arith

read_frame-header :
    (tail : Tail) (t : MessageType) (n : ℕ) (rest : Bytes)
    → n < 4294967296
    → n ≤ max_payload_size
    → read_frame tail (header t n ++ rest) ≡ after_type tail n rest (some t)
unfolding read_frame
read_frame-header tail t n rest h le =
    ap (after_header tail) (readexactly-append 8 (header t n) rest refl)
    ∙ after_header-header tail t n rest h
    ∙ rw (le→not_ltb n le) refl

-- A frame that was written is read back, with the rest of the stream left, unless its payload is
-- longer than 512 MB: `write_frame` lets it pass, and `read_frame` refuses it.
pub read_frame-write_frame :
    (tail : Tail) (t : MessageType) (p b rest : Bytes)
    → write_frame t p ≡ some b
    → read_frame tail (b ++ rest)
      ≡ (if leb (length p) max_payload_size then frame t p rest else payload_too_large)
unfolding read_frame
read_frame-write_frame tail t p b rest h =
    let (e, short) = write_frame-header t p b h in
    ap (λ x. read_frame tail (x ++ rest)) e
    ∙ ap (after_header tail) (readexactly-append 8 (header t (length p)) (p ++ rest) refl)
    ∙ after_header-header tail t (length p) (p ++ rest) short
    ∙ elim (Bool-cases (leb (length p) max_payload_size)) [
      | inl g ↦ rw g (rw (le→not_ltb (length p) (leb→le _ _ g)) (after_type-payload tail t p rest))
      | inr g ↦ rw g (rw (not_leb→ltb (length p) g) refl)
    ]

readexactly-short : (n : ℕ) (s : Bytes) → length s < n → readexactly n s ≡ incomplete (length s)
unfolding readexactly
readexactly-short n s h = rw (lt→ltb (length s) n h) refl

after_header-short : (tail : Tail) (n : ℕ) → after_header tail (incomplete n) ≡ cut_short tail
unfolding after_header
after_header-short tail n = refl

after_type-short :
    (tail : Tail) (t : MessageType) (n : ℕ) (rest : Bytes)
    → length rest < n
    → after_type tail n rest (some t) ≡ cut_short tail
unfolding after_type
after_type-short tail t n rest h = rw (readexactly-short n rest h) (ground (arith, h))

read_frame-short : (tail : Tail) (s : Bytes) → length s < 8 → read_frame tail s ≡ cut_short tail
unfolding read_frame
read_frame-short tail s h =
    ap (after_header tail) (readexactly-short 8 s h) ∙ after_header-short tail (length s)

take-beyond :
    (k : ℕ) (xs ys : Bytes) → length xs ≤ k → take k (xs ++ ys) ≡ xs ++ take (k - length xs) ys
take-beyond k [] ys h = ap (λ q. take q ys) (omega arith)
take-beyond zero (x ∷ xs) ys h = absurd (omega (arith, h))
take-beyond (suc k) (x ∷ xs) ys h =
    ap (◌∷◌ x) (take-beyond k xs ys (omega (arith, h)) ∙ ap (λ q. xs ++ take q ys) (omega arith))

-- A frame of at most 512 MB that is cut short anywhere is never taken for a frame: `read_frame` answers that the
-- connection was closed, or timed out, whichever happened.
pub read_frame-truncated :
    (tail : Tail) (t : MessageType) (p b : Bytes) (k : ℕ)
    → write_frame t p ≡ some b
    → length p ≤ max_payload_size
    → k < length b
    → read_frame tail (take k b) ≡ cut_short tail
read_frame-truncated tail t p b k h le lt =
    let (e, small) = write_frame-header t p b h in
    ap (λ x. read_frame tail (take k x)) e ∙ elim (Bool-cases (ltb k 8)) [
      | inl g ↦
          read_frame-short tail (take k (header t (length p) ++ p))
            (ground (arith, length-take k (header t (length p) ++ p), ltb→lt k 8 g))
      | inr g ↦
          ap (read_frame tail) (take-beyond k (header t (length p)) p (ground (arith, g)))
          ∙ read_frame-header tail t (length p) (take (k - 8) p) small le
          ∙ after_type-short tail t (length p) (take (k - 8) p) (
              ground (
                arith,
                ap length e,
                length-append (header t (length p)) p,
                length-take (k - 8) p,
                lt,
                g,
              ))
    ]

-- A chunk's header has no line feed, so the split gives back the header and the body, whatever
-- bytes the body has.
pub split_chunk-join_chunk_lem :
    (header body : Bytes)
    → any (λ b. b == 10) header ≡ false
    → split_chunk (join_chunk header body) ≡ some (header, body)
unfolding split_chunk
split_chunk-join_chunk_lem [] body h = refl
split_chunk-join_chunk_lem (b ∷ header) body h =
    ground (arith, split_chunk-join_chunk_lem header body)
