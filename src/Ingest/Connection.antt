-- ===== src/Ingest/Connection.antt =====
-- The loop of a connection, SocketDaim/libs/gw_proto/gw_proto/transport/server.py: it comes to its end, and
-- it answers the frames in their order.
use dust_monitoring.Prelude.{
  ℕ, zero, suc, ◌<◌, ◌≡◌, refl, ap, subst, true, Option, none, some, is_some, [], ◌∷◌, arith, ◌==◌,
  ltb, length, take, drop, length-drop, Text, Bool-cases, inl, inr,
}
use dust_monitoring.Loas.Words.{Bytes, got, of_be32, readexactly}
use dust_monitoring.Gateway.Wire.{
  MessageType, Tail, ReadFrame, frame, connection_timeout, framing_error, payload_too_large,
  unknown_message_type, read_frame, after_header, after_type, after_payload, cut_short, closed,
  silent, of_value, max_payload_size,
}
use dust_monitoring.Transfer.Floats.{Floats}
use dust_monitoring.Ingest.Message.{decode}
use dust_monitoring.Ingest.Handlers.{World}
use dust_monitoring.Ingest.Dispatch.{
  Service, Outcome, dispatch, writing, respond, reply_bytes, turn, serve, on_connect,
}

-- A read of a frame takes bytes from the stream.
data Consumes (n : ℕ) : ReadFrame → Type 0 where
  one : {t : MessageType} {p rest : Bytes} → length rest < n → Consumes n (frame t p rest)
  timeout : Consumes n connection_timeout
  bad : Consumes n framing_error
  large : Consumes n payload_too_large
  unknown : Consumes n unknown_message_type

cut_short-Consumes : (n : ℕ) (tail : Tail) → Consumes n (cut_short tail)
cut_short-Consumes n closed = bad
cut_short-Consumes n silent = timeout

after_payload-Consumes :
    (n k : ℕ) (tail : Tail) (t : MessageType) (s : Bytes)
    → length s < n
    → Consumes n (after_payload tail t (readexactly k s))
unfolding readexactly
after_payload-Consumes n k tail t s lt = elim (Bool-cases (ltb (length s) k)) [
  | inl e ↦ rw e (cut_short-Consumes n tail)
  | inr e ↦ rw e (one (omega (arith, length-drop k s, lt)))
]

after_type-Consumes :
    (n k : ℕ) (tail : Tail) (s : Bytes) (o : Option MessageType)
    → length s < n
    → Consumes n (after_type tail k s o)
unfolding after_type
after_type-Consumes n k tail s none lt = unknown
after_type-Consumes n k tail s (some t) lt = elim (Bool-cases (k == 0)) [
  | inl e ↦ rw e (one lt)
  | inr e ↦ rw e (after_payload-Consumes n k tail t s lt)
]

after_header-Consumes :
    (n : ℕ) (tail : Tail) (b s : Bytes) → length s < n → Consumes n (after_header tail (got b s))
unfolding after_header
after_header-Consumes n tail (a ∷ b ∷ c ∷ d ∷ e ∷ f ∷ g ∷ h ∷ []) s lt =
    elim (Bool-cases (ltb max_payload_size (of_be32 a b c d))) [
      | inl x ↦ rw x large
      | inr x ↦
          rw x (after_type-Consumes n (of_be32 a b c d) tail s (of_value (of_be32 e f g h)) lt)
    ]
after_header-Consumes n tail _ s lt = cut_short-Consumes n tail

read_frame-Consumes : (tail : Tail) (s : Bytes) → Consumes (length s) (read_frame tail s)
unfolding read_frame after_header readexactly
read_frame-Consumes tail s = elim (Bool-cases (ltb (length s) 8)) [
  | inl e ↦ rw e (cut_short-Consumes (length s) tail)
  | inr e ↦ rw e (
      after_header-Consumes (length s) tail (take 8 s) (drop 8 s)
        (ground (arith, length-drop 8 s, e)))
]

Consumes-frame :
    (n : ℕ) (t : MessageType) (p rest : Bytes) → Consumes n (frame t p rest) → length rest < n
Consumes-frame n t p rest (one lt) = lt

pub read_frame-shorter :
    (tail : Tail) (s : Bytes) (t : MessageType) (p rest : Bytes)
    → read_frame tail s ≡ frame t p rest
    → length rest < length s
read_frame-shorter tail s t p rest e =
    Consumes-frame (length s) t p rest (subst (Consumes (length s)) e (read_frame-Consumes tail s))

module _ {F : Type 0} ⦃fl : Floats F⦄ where
  writing-is_some :
      (b : Bytes) (o : Option (Outcome F)) → is_some o ≡ true → is_some (writing b o) ≡ true
  writing-is_some b (some x) h = refl
  writing-is_some b none h = ground (arith, h)

  respond-is_some :
      (b : Option Bytes) (rest : Service F → Option (Outcome F)) (q : Service F)
      → is_some (rest q) ≡ true
      → is_some (respond b rest q) ≡ true
  respond-is_some none rest q h = refl
  respond-is_some (some b) rest q h = writing-is_some b (rest q) h

  turn-is_some :
      (n : ℕ) (w : World F) (id : Text) (loop : Bytes → Service F → Option (Outcome F))
      (p : Service F) (r : ReadFrame)
      → Consumes n r
      → ((rest : Bytes) (q : Service F) → length rest < n → is_some (loop rest q) ≡ true)
      → is_some (turn w id loop p r) ≡ true
  unfolding turn
  turn-is_some n w id loop p (frame t payload rest) (one lt) h =
      let (reply, q) = dispatch w id (decode w.loads t payload) p in
      respond-is_some (reply_bytes w reply) (loop rest) q (h rest q lt)
  turn-is_some n w id loop p connection_timeout c h = refl
  turn-is_some n w id loop p framing_error c h = refl
  turn-is_some n w id loop p payload_too_large c h = refl
  turn-is_some n w id loop p unknown_message_type c h = refl

  serve-is_some :
      (n : ℕ) (w : World F) (id : Text) (tail : Tail) (s : Bytes) (p : Service F)
      → length s < n
      → is_some (serve n w id tail s p) ≡ true
  unfolding serve
  serve-is_some zero w id tail s p lt = ground (arith, lt)
  serve-is_some (suc n) w id tail s p lt =
      turn-is_some (length s) w id (serve n w id tail) p (read_frame tail s)
        (read_frame-Consumes tail s)
        (λ rest q le. serve-is_some n w id tail rest q (omega (arith, le, lt)))

  -- Whatever bytes a peer sends, and whether it closes then or falls silent, its connection comes to an end.
  pub on_connect-ends :
      (w : World F) (id : Text) (tail : Tail) (s : Bytes) (p : Service F)
      → is_some (on_connect w id tail s p) ≡ true
  unfolding on_connect
  on_connect-ends w id tail s p = serve-is_some (suc (length s)) w id tail s p (omega arith)

  pub respond-more :
      (b : Option Bytes) (rest rest' : Service F → Option (Outcome F)) (q : Service F)
      → rest' q ≡ rest q
      → respond b rest' q ≡ respond b rest q
  respond-more none rest rest' q g = refl
  respond-more (some b) rest rest' q g = ap (writing b) g

  turn-more :
      (n : ℕ) (w : World F) (id : Text) (loop loop' : Bytes → Service F → Option (Outcome F))
      (p : Service F) (r : ReadFrame)
      → Consumes n r
      → ((rest : Bytes) (q : Service F) → length rest < n → loop' rest q ≡ loop rest q)
      → turn w id loop' p r ≡ turn w id loop p r
  unfolding turn
  turn-more n w id loop loop' p (frame t payload rest) (one lt) g =
      let (reply, q) = dispatch w id (decode w.loads t payload) p in
      respond-more (reply_bytes w reply) (loop rest) (loop' rest) q (g rest q lt)
  turn-more n w id loop loop' p connection_timeout c g = refl
  turn-more n w id loop loop' p framing_error c g = refl
  turn-more n w id loop loop' p payload_too_large c g = refl
  turn-more n w id loop loop' p unknown_message_type c g = refl

  -- More fuel than bytes changes nothing.
  pub serve-more :
      (n m : ℕ) (w : World F) (id : Text) (tail : Tail) (s : Bytes) (p : Service F)
      → length s < n
      → length s < m
      → serve m w id tail s p ≡ serve n w id tail s p
  unfolding serve
  serve-more zero m w id tail s p lt lt' = ground (arith, lt)
  serve-more (suc n) zero w id tail s p lt lt' = ground (arith, lt')
  serve-more (suc n) (suc m) w id tail s p lt lt' =
      turn-more (length s) w id (serve n w id tail) (serve m w id tail) p (read_frame tail s)
        (read_frame-Consumes tail s)
        (λ rest q le.
          serve-more n m w id tail rest q (omega (arith, le, lt)) (omega (arith, le, lt')))
