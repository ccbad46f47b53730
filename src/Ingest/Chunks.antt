-- ===== src/Ingest/Chunks.antt =====
-- The chunks of a buffer as a partial map from the sequence numbers to the bytes received last,
-- for SocketDaim/ingestion_gateway/session.py; and the laws of its dictionaries.
use dust_monitoring.Prelude.{
  ℕ, suc, ◌+◌, ◌<◌, ◌≡◌, refl, ap, ap₂, sym, ◌∙◌, true, ==_iff, ◌||◌, Option, none, some, is_some,
  List, [], ◌∷◌, ◌++◌, map, arith, ◌==◌, if◌then◌else◌, length, any, All, Distinct, range,
  sort_by-range, length-covers, length-misses, Text, equal, equal_refl, Bool-cases, inl, inr,
}
use dust_monitoring.Loas.Words.{Bytes}
use dust_monitoring.Ingest.Session.{Chunks, put, chunk_at, Dict, get, set, pop}
use dust_monitoring.Ingest.Video.{concat_at, sorted_seqs, assemble}

-- The specification of an upload: what was received last under each number.
abbrev pub Upload : Type 0
Upload = ℕ → Option Bytes

abbrev pub nothing : Upload
nothing s = none

abbrev pub receive : ℕ × Bytes → Upload → Upload
receive (q, b) f s = if q == s then some b else f s

abbrev pub receive_all : List (ℕ × Bytes) → Upload → Upload
receive_all [] f = f
receive_all (c ∷ cs) f = receive_all cs (receive c f)

abbrev pub part : Option Bytes → Bytes
part none = []
part (some b) = b

abbrev parts : List ℕ → Upload → Bytes
parts [] f = []
parts (s ∷ seqs) f = part (f s) ++ parts seqs f

-- The chunks 0 to n - 1, one after the other.
abbrev pub whole : ℕ → Upload → Bytes
whole n f = parts (range 0 n) f

-- `put` for each of the chunks that arrive.
unfoldable pub put_all : List (ℕ × Bytes) → Chunks → Chunks
unfolding put
put_all [] t = t
put_all (c ∷ cs) t = put_all cs (put c.0 c.1 t)

abbrev pub seqs_of : Chunks → List ℕ
seqs_of t = map (λ c. c.0) t

-- A dictionary that stands for an upload of n chunks.
pub record Represents (n : ℕ) (t : Chunks) (f : Upload) : Type 0 where
  pub entries : (s : ℕ) → chunk_at s t ≡ f s
  pub distinct : Distinct (seqs_of t)
  pub bounded : All (λ s. s < n) (seqs_of t)

chunk_at-put :
    (s q : ℕ) (b : Bytes) (t : Chunks)
    → chunk_at s (put q b t) ≡ (if q == s then some b else chunk_at s t)
unfolding put chunk_at
chunk_at-put s q b [] = refl
chunk_at-put s q b ((r, c) ∷ t) = ground (arith, chunk_at-put s q b t)

any-put :
    (s q : ℕ) (b : Bytes) (t : Chunks)
    → any (λ y. y == s) (seqs_of (put q b t)) ≡ ((q == s) || any (λ y. y == s) (seqs_of t))
unfolding put
any-put s q b [] = ground arith
any-put s q b ((r, c) ∷ t) = ground (arith, any-put s q b t)

Distinct-put :
    (q : ℕ) (b : Bytes) (t : Chunks) → Distinct (seqs_of t) → Distinct (seqs_of (put q b t))
unfolding put
Distinct-put q b [] h = (refl, tt)
Distinct-put q b ((r, c) ∷ t) (new, h) = elim (Bool-cases (r == q)) [
  | inl e ↦ rw e (new, h)
  | inr e ↦ rw e (ground (arith, any-put r q b t, new, e), Distinct-put q b t h)
]

All-put :
    (n q : ℕ) (b : Bytes) (t : Chunks)
    → q < n
    → All (λ s. s < n) (seqs_of t)
    → All (λ s. s < n) (seqs_of (put q b t))
unfolding put
All-put n q b [] lt h = (lt, tt)
All-put n q b ((r, c) ∷ t) lt (l, h) = elim (Bool-cases (r == q)) [
  | inl e ↦ rw e (l, h)
  | inr e ↦ rw e (l, All-put n q b t lt h)
]

-- How many different numbers the chunks have, those of `seen` left out.
abbrev pub how_many : List ℕ → List (ℕ × Bytes) → ℕ
how_many seen [] = 0
how_many seen ((q, b) ∷ cs) =
    if any (λ y. y == q) seen then how_many seen cs else suc (how_many (q ∷ seen) cs)

length-put :
    (q : ℕ) (b : Bytes) (t : Chunks)
    → length (put q b t) ≡ (if any (λ y. y == q) (seqs_of t) then length t else suc (length t))
unfolding put
length-put q b [] = refl
length-put q b ((r, c) ∷ t) = ground (arith, length-put q b t)

length-put_all :
    (cs : List (ℕ × Bytes)) (t : Chunks) (seen : List ℕ)
    → ((s : ℕ) → any (λ y. y == s) (seqs_of t) ≡ any (λ y. y == s) seen)
    → length (put_all cs t) ≡ length t + how_many seen cs
unfolding put_all
length-put_all [] t seen e = omega arith
length-put_all ((q, b) ∷ cs) t seen e = elim (Bool-cases (any (λ y. y == q) seen)) [
  | inl old ↦ rw old (
      ground (
        arith,
        length-put_all cs (put q b t) seen (λ s. any-put s q b t ∙ again s old),
        length-put q b t,
        e q,
        old,
      ))
  | inr new ↦ rw new (
      ground (
        arith,
        length-put_all cs (put q b t) (q ∷ seen)
            (λ s. any-put s q b t ∙ ap (λ x. (q == s) || x) (e s)),
        length-put q b t,
        e q,
        new,
      ))
]
  where
    again :
        (s : ℕ)
        → any (λ y. y == q) seen ≡ true
        → ((q == s) || any (λ y. y == s) (seqs_of t)) ≡ any (λ y. y == s) seen
    again s old = elim (Bool-cases (q == s)) [
      | inl same ↦
          rw same (sym (ap (λ k. any (λ y. y == k) seen) (sym ((==_iff q s).0 same)) ∙ old))
      | inr other ↦ rw other (e s)
    ]

-- The dictionary of the chunks that arrived has an entry for each of their numbers.
pub length-received : (cs : List (ℕ × Bytes)) → length (put_all cs []) ≡ how_many [] cs
length-received cs = let e = length-put_all cs [] [] (λ s. refl) in omega (arith, e)

-- A chunk that arrives: the dictionary goes on standing for the upload.
pub put-Represents :
    (n : ℕ) (c : ℕ × Bytes) (t : Chunks) (f : Upload)
    → c.0 < n
    → Represents n t f
    → Represents n (put c.0 c.1 t) (receive c f)
put-Represents n (q, b) t f lt r = record {
  entries = λ s. chunk_at-put s q b t ∙ ap (λ o. if q == s then some b else o) (r.entries s);
  distinct = Distinct-put q b t r.distinct;
  bounded = All-put n q b t lt r.bounded;
}

pub []-Represents : (n : ℕ) → Represents n [] nothing
unfolding chunk_at
[]-Represents n = record { entries = λ s. refl; distinct = tt; bounded = tt }

pub put_all-Represents :
    (n : ℕ) (cs : List (ℕ × Bytes)) (t : Chunks) (f : Upload)
    → All (λ c. c.0 < n) cs
    → Represents n t f
    → Represents n (put_all cs t) (receive_all cs f)
unfolding put_all
put_all-Represents n [] t f h r = r
put_all-Represents n (c ∷ cs) t f (lt, h) r =
    put_all-Represents n cs (put c.0 c.1 t) (receive c f) h (put-Represents n c t f lt r)

any-chunk_at : (s : ℕ) (t : Chunks) → any (λ y. y == s) (seqs_of t) ≡ is_some (chunk_at s t)
unfolding chunk_at
any-chunk_at s [] = refl
any-chunk_at s ((r, c) ∷ t) = ground (arith, any-chunk_at s t)

concat_at-parts :
    (seqs : List ℕ) (t : Chunks) (f : Upload)
    → ((s : ℕ) → chunk_at s t ≡ f s)
    → concat_at seqs t ≡ parts seqs f
concat_at-parts [] t f e = refl
concat_at-parts (s ∷ seqs) t f e = ap₂ (λ o bs. part o ++ bs) (e s) (concat_at-parts seqs t f e)

length-map : {A B : Type 0} (g : A → B) (xs : List A) → length (map g xs) ≡ length xs
length-map g [] = refl
length-map g (x ∷ xs) = omega (arith, length-map g xs)

-- An upload of which no chunk is missing has n entries.
pub length-Represents :
    (n : ℕ) (t : Chunks) (f : Upload)
    → Represents n t f
    → ((i : ℕ) → i < n → is_some (f i) ≡ true)
    → length t ≡ n
length-Represents n t f r c =
    let all =
      length-covers n (seqs_of t) r.distinct r.bounded
        (λ i lt. any-chunk_at i t ∙ ap is_some (r.entries i) ∙ c i lt) in
    omega (arith, all, length-map (λ x. x.0) t)

-- With n entries, what is assembled is the whole upload.
pub assemble-Represents :
    (n : ℕ) (t : Chunks) (f : Upload) → Represents n t f → length t ≡ n → assemble t ≡ whole n f
unfolding assemble sorted_seqs
assemble-Represents n t f r e =
    ap (λ seqs. concat_at seqs t)
      (sort_by-range n (seqs_of t) (omega (arith, e, length-map (λ x. x.0) t)) r.distinct r.bounded)
    ∙ concat_at-parts (range 0 n) t f r.entries

module _ {A : Type 0} where
  pub get-set : (k : Text) (v : A) (d : Dict A) → get k (set k v d) ≡ some v
  unfolding get set
  get-set k v [] = rw (equal_refl k) refl
  get-set k v ((j, u) ∷ d) = elim (Bool-cases (equal j k)) [
    | inl e ↦ rw e (rw e refl)
    | inr e ↦ rw e (rw e (get-set k v d))
  ]

  pub set-set : (k : Text) (v u : A) (d : Dict A) → set k v (set k u d) ≡ set k v d
  unfolding set
  set-set k v u [] = rw (equal_refl k) refl
  set-set k v u ((j, w) ∷ d) = elim (Bool-cases (equal j k)) [
    | inl e ↦ rw e (rw e refl)
    | inr e ↦ rw e (rw e (ap (◌∷◌ (j, w)) (set-set k v u d)))
  ]

  pub pop-set : (k : Text) (v : A) (d : Dict A) → get k d ≡ none → pop k (set k v d) ≡ d
  unfolding get set pop
  pop-set k v [] h = rw (equal_refl k) refl
  pop-set k v ((j, w) ∷ d) h = elim (Bool-cases (equal j k)) [
    | inl e ↦ ground (arith, e, h)
    | inr e ↦ rw e (rw e (ap (◌∷◌ (j, w)) (pop-set k v d (ground (arith, e, h)))))
  ]

-- An upload of which a chunk is missing has fewer than n entries.
pub length-misses-Represents :
    (n i : ℕ) (t : Chunks) (f : Upload) → Represents n t f → i < n → f i ≡ none → length t < n
length-misses-Represents n i t f r lt missing =
    let fewer =
      length-misses n i (seqs_of t) r.distinct r.bounded lt
        (any-chunk_at i t ∙ ap is_some (r.entries i ∙ missing)) in
    omega (arith, fewer, length-map (λ x. x.0) t)
