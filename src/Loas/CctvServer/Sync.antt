-- ===== src/Loas/CctvServer/Sync.antt =====
-- The CCTV listener stays in step with a peer of either byte order, and always ends.
use mathlib.Core.Option
use dust_monitoring.Prelude.{
  ℕ, zero, suc, ◌%◌, ◌≤◌, ◌<◌, ◌≡◌, ◌∙◌, refl, Bool, true, false, Option, some, List, [], ◌∷◌, ◌++◌,
  arith, length, length-append,
}
use dust_monitoring.Loas.Words.{Bytes, be32, le32, got, readexactly, readexactly-append}
use dust_monitoring.Loas.CctvFraming.{
  cctv_header_size, is_known, is_known-ascii, unpack_header-append,
}
use dust_monitoring.Loas.CctvServer.{
  cctv_max_body, Frame, Session, deliver, peer_eof, on_connect, after_header, after_unpack,
  after_length, after_body,
}
use dust_monitoring.Loas.CctvServer.Length.{body_length-be32, body_length-le32}

-- How a sender writes the length of a body: either byte order, the second for a lowest byte of at least 2.
pub data WritesLength (n : ℕ) (w : Bytes) : Type 0 where
  big : w ≡ be32 n → WritesLength n w
  little : 2 ≤ n % 256 → w ≡ le32 n → WritesLength n w

-- `w` is what a peer writes that sends these frames, each with a tag of the set and a body within the bound.
abbrev pub Sends : List Frame → Bytes → Type 0
Sends [] w = w ≡ []
Sends ((body, tag) ∷ fs) w =
    (n : Bytes) × (s : Bytes) × (is_known tag ≡ true)
    × (length body ≤ cctv_max_body)
    × WritesLength (length body) n
    × (w ≡ (tag ++ n) ++ (body ++ s))
    × Sends fs s

module _ (late : ℕ → Bool) where
  unfold_length :
      (next : Bytes → Option Session) (k : ℕ) (tag n rest : Bytes) (len : ℕ)
      → is_known tag ≡ true
      → len ≤ cctv_max_body
      → WritesLength len n
      → after_header cctv_max_body late next k (got (tag ++ n) rest)
        ≡ after_body cctv_max_body late next k tag (readexactly len rest)
  unfolding after_header after_unpack after_length
  unfold_length next k tag n rest len known le (big e) = rw e (
      rw (unpack_header-append tag _ _ _ _ known)
        (rw (body_length-be32 tag len (is_known-ascii tag known).0 le) refl))
  unfold_length next k tag n rest len known le (little odd e) = rw e (
      rw (unpack_header-append tag _ _ _ _ known)
        (rw (body_length-le32 tag len (is_known-ascii tag known).0 le odd) refl))

length-header :
    (tag n : Bytes) (len : ℕ)
    → is_known tag ≡ true
    → WritesLength len n
    → length (tag ++ n) ≡ cctv_header_size
length-header tag n len known (big e) =
    rw e (ground (arith, length-append tag (be32 len), (is_known-ascii tag known).0))
length-header tag n len known (little odd e) =
    rw e (ground (arith, length-append tag (le32 len), (is_known-ascii tag known).0))

on_connect-frame :
    (late : ℕ → Bool) (f k : ℕ) (tag n body s : Bytes)
    → late k ≡ false
    → is_known tag ≡ true
    → length body ≤ cctv_max_body
    → WritesLength (length body) n
    → on_connect cctv_max_body late (suc f) k ((tag ++ n) ++ (body ++ s))
      ≡ Option.map (deliver (body, tag)) (on_connect cctv_max_body late f (suc k) s)
unfolding on_connect
on_connect-frame late f k tag n body s timely known le w =
    rw
      (readexactly-append cctv_header_size (tag ++ n) (body ++ s)
        (length-header tag n (length body) known w))
      (unfold_length late (on_connect cctv_max_body late f (suc k)) k tag n (body ++ s)
          (length body) known le w
        ∙ rw (readexactly-append (length body) body s refl) (rw timely refl))

-- From a peer that writes its lengths in either byte order, a little-endian one with a lowest byte
-- of at least 2, and whose bodies come in time, every frame is delivered in order with its own body
-- and tag, and the connection ends cleanly.
pub on_connect-Sends_cctv :
    (fs : List Frame) (w : Bytes) (late : ℕ → Bool) (f k : ℕ)
    → Sends fs w
    → ((j : ℕ) → late j ≡ false)
    → length fs < f
    → on_connect cctv_max_body late f k w ≡ some (record { frames = fs; exit = peer_eof 0 })
unfolding on_connect readexactly
on_connect-Sends_cctv fs w late zero k h timely lt = absurd (omega arith)
on_connect-Sends_cctv [] w late (suc f) k h timely lt = rw h refl
on_connect-Sends_cctv ((body, tag) ∷ fs) w late (suc f) k (n, s, known, le, wl, q, r) timely lt =
    rw q (
      on_connect-frame late f k tag n body s (timely k) known le wl
      ∙ rw (on_connect-Sends_cctv fs s late f (suc k) r timely (omega arith)) refl)
