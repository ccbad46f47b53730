-- ===== src/Loas/CctvServer/Length.antt =====
-- Which body length the CCTV listener goes by, for a sender of either byte order.
use dust_monitoring.Prelude.{
  ℕ, ◌+◌, ◌*◌, ◌/◌, ◌%◌, ◌≤◌, ◌<◌, ◌≡◌, some, ◌++◌, drop, arith, length, drop-append,
}
use dust_monitoring.Loas.Words.{Bytes, be32, le32, of_be32}
use dust_monitoring.Loas.CctvFraming.{CctvHeader, cctv_tag_size}
use dust_monitoring.Loas.CctvServer.{body_length, cctv_max_body}

-- The header that `unpack_header` reads where the four length bytes are `be32 n`, and `le32 n`.
abbrev pub read_big : Bytes → ℕ → CctvHeader
read_big t n = record {
  resolution = t;
  length = of_be32 (n / 16777216 % 256) (n / 65536 % 256) (n / 256 % 256) (n % 256);
}

abbrev pub read_little : Bytes → ℕ → CctvHeader
read_little t n = record {
  resolution = t;
  length = of_be32 (n % 256) (n / 256 % 256) (n / 65536 % 256) (n / 16777216 % 256);
}

drop-tag : (t w : Bytes) → length t ≡ 5 → drop cctv_tag_size (t ++ w) ≡ w
drop-tag t w h = rw (← h) (drop-append t w)

module _ (t : Bytes) (n : ℕ) (tag : length t ≡ 5) where
  -- A big-endian sender's length is taken as it is, up to the bound.
  pub body_length-be32 :
      n ≤ cctv_max_body → body_length cctv_max_body (t ++ be32 n) (read_big t n) ≡ some n
  unfolding body_length
  body_length-be32 le = ground (arith, drop-tag t (be32 n) tag)

  -- A little-endian sender's length is recovered where its lowest byte is at least 2.
  pub body_length-le32 :
      n ≤ cctv_max_body
      → 2 ≤ n % 256
      → body_length cctv_max_body (t ++ le32 n) (read_little t n) ≡ some n
  unfolding body_length
  body_length-le32 le odd = ground (arith, drop-tag t (le32 n) tag)

  -- A little-endian length below 2 ^ 24 that is a multiple of 256 is read with its two middle bytes exchanged, and
  -- the fallback is not reached.
  pub body_length-le32_swapped :
      n < cctv_max_body
      → n % 256 ≡ 0
      → body_length cctv_max_body (t ++ le32 n) (read_little t n)
        ≡ some (n / 256 % 256 * 65536 + n / 65536 * 256)
  unfolding body_length
  body_length-le32_swapped lt e = ground (arith, drop-tag t (le32 n) tag)
