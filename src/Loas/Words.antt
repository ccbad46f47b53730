-- ===== src/Loas/Words.antt =====
-- Fixed-width integers on the wire, as `struct.pack` lays them out, and `StreamReader.readexactly`.
use dust_monitoring.Prelude.{
  ℕ, ◌+◌, ◌*◌, ◌/◌, ◌%◌, ◌<◌, ◌≡◌, List, [], ◌∷◌, ◌++◌, arith, ltb, if◌then◌else◌, length, take,
  drop, length-append, take-append, drop-append, length-take, take-append-drop, Bool-cases, sym,
  inl, inr, ltb→lt,
}

abbrev pub Bytes : Type 0
Bytes = List ℕ

-- `H` and `I` of a `<` format: least significant byte first.
abbrev pub le16 : ℕ → Bytes
le16 n = (n % 256) ∷ (n / 256 % 256) ∷ []

abbrev pub le32 : ℕ → Bytes
le32 n = (n % 256) ∷ (n / 256 % 256) ∷ (n / 65536 % 256) ∷ (n / 16777216 % 256) ∷ []

-- `I` of a `!` format: most significant byte first.
abbrev pub be32 : ℕ → Bytes
be32 n = (n / 16777216 % 256) ∷ (n / 65536 % 256) ∷ (n / 256 % 256) ∷ (n % 256) ∷ []

abbrev pub of_le16 : ℕ → ℕ → ℕ
of_le16 a b = a + 256 * b

abbrev pub of_le32 : ℕ → ℕ → ℕ → ℕ → ℕ
of_le32 a b c d = a + 256 * b + 65536 * c + 16777216 * d

abbrev pub of_be32 : ℕ → ℕ → ℕ → ℕ → ℕ
of_be32 a b c d = 16777216 * a + 65536 * b + 256 * c + d

-- `readexactly`: the bytes asked for and the rest of the stream, or how many came before EOF.
pub data ReadResult : Type 0 where
  got : Bytes → Bytes → ReadResult
  incomplete : ℕ → ReadResult

unfoldable pub readexactly : ℕ → Bytes → ReadResult
readexactly n s = if ltb (length s) n then incomplete (length s) else got (take n s) (drop n s)

pub readexactly-append :
    (n : ℕ) (xs ys : Bytes) → length xs ≡ n → readexactly n (xs ++ ys) ≡ got xs ys
unfolding readexactly
readexactly-append n xs ys h =
    rw (← h) (ground (arith, length-append xs ys, take-append xs ys, drop-append xs ys))

-- The two outcomes of a read, with what they say of the stream.
pub data Reads (n : ℕ) (s : Bytes) : ReadResult → Type 0 where
  short : length s < n → Reads n s (incomplete (length s))
  full : (b rest : Bytes) → s ≡ b ++ rest → length b ≡ n → Reads n s (got b rest)

pub readexactly-Reads : (n : ℕ) (s : Bytes) → Reads n s (readexactly n s)
unfolding readexactly
readexactly-Reads n s = elim (Bool-cases (ltb (length s) n)) [
  | inl lt ↦ rw lt (short (ltb→lt _ _ lt))
  | inr ge ↦
      rw ge
        (full (take n s) (drop n s) (sym (take-append-drop n s)) (ground (arith, length-take n s)))
]
