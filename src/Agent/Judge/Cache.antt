-- ===== src/Agent/Judge/Cache.antt =====
-- The judge answers by the table in the database, as it was when it was loaded.
use dust_monitoring.Prelude.{
  ℕ, ◌≡◌, refl, sym, ap, ◌∙◌, true, false, Option, none, some, List, [], ◌∷◌, map, ◌==◌,
  if◌then◌else◌, Text, equal_iff, arith, Bool-cases, inl, inr,
}
use dust_monitoring.Agent.Judge.{
  Mapping, Key, Table, Judge, same_key, put, lookup, key_of, value_of, fill, load, set_final,
  updated, update_final, judge,
}

abbrev pub or_in : Option (Text × ℕ) → Option (Text × ℕ) → Option (Text × ℕ)
or_in none o = o
or_in (some v) o = some v

or_in-none : (o : Option (Text × ℕ)) → or_in o none ≡ o
or_in-none none = refl
or_in-none (some v) = refl

abbrev pub match : Key → Mapping → Option (Text × ℕ)
match k r = if same_key (key_of r) k then some (value_of r) else none

-- The last row of a key, which is its only row where keys are unique.
unfoldable pub last_match : Key → List Mapping → Option (Text × ℕ)
last_match k [] = none
last_match k (r ∷ rs) = or_in (last_match k rs) (match k r)

same_key_eq : (a b c : Key) → same_key a b ≡ true → same_key a c ≡ same_key b c
unfolding same_key
same_key_eq (a, a', a'') (b, b', b'') (c, c', c'') h =
    ground (arith, equal_iff a b, equal_iff a' b', equal_iff a'' b'')

same_key_apart : (a b c : Key) → same_key a b ≡ false → same_key a c ≡ true → same_key b c ≡ false
unfolding same_key
same_key_apart (a, a', a'') (b, b', b'') (c, c', c'') h g = ground (
  arith,
  equal_iff a c,
  equal_iff a' c',
  equal_iff a'' c'',
  equal_iff b c,
  equal_iff b' c',
  equal_iff b'' c'',
  equal_iff a b,
  equal_iff a' b',
  equal_iff a'' b'',
)

lookup-put :
    (k q : Key) (v : Text × ℕ) (t : Table)
    → lookup (put k v t) q ≡ (if same_key k q then some v else lookup t q)
unfolding lookup put
lookup-put k q v [] = refl
lookup-put k q v ((j, w) ∷ t) = elim (Bool-cases (same_key j k)) [
  | inl e ↦ rw e (rw (same_key_eq j k q e) (ground arith))
  | inr e ↦ rw e (elim (Bool-cases (same_key j q)) [
    | inl g ↦ rw g (rw (same_key_apart j k q e g) refl)
    | inr g ↦ rw g (lookup-put k q v t)
  ])
]

lookup-fill :
    (q : Key) (rs : List Mapping) (t : Table)
    → lookup (fill t rs) q ≡ or_in (last_match q rs) (lookup t q)
unfolding fill last_match
lookup-fill q [] t = refl
lookup-fill q (r ∷ rs) t =
    lookup-fill q rs (put (key_of r) (value_of r) t)
    ∙ ground (arith, lookup-put (key_of r) q (value_of r) t)

-- After a load, the judge's answer on any three channel results is the decision and the id of the
-- last row of alarm_mapping with them, and an error if there is none.
pub judge-load :
    (j : Judge) (iot static dynamic : Text)
    → judge (load j) iot static dynamic ≡ last_match (iot, static, dynamic) j.rows
unfolding judge load
judge-load j iot static dynamic =
    lookup-fill (iot, static, dynamic) j.rows []
    ∙ or_in-none (last_match (iot, static, dynamic) j.rows)

abbrev pub changed : ℕ → Text → Option (Text × ℕ) → Option (Text × ℕ)
changed i f none = none
changed i f (some (g, n)) = if n == i then some (f, n) else some (g, n)

changed-or_in :
    (i : ℕ) (f : Text) (a b : Option (Text × ℕ))
    → or_in (changed i f a) (changed i f b) ≡ changed i f (or_in a b)
changed-or_in i f none b = refl
changed-or_in i f (some (g, n)) b = elim (Bool-cases (n == i)) [
  | inl e ↦ rw e refl
  | inr e ↦ rw e refl
]

match-set_final :
    (k : Key) (i : ℕ) (f : Text) (r : Mapping) → match k (set_final i f r) ≡ changed i f (match k r)
match-set_final k i f r = elim (Bool-cases (r.id == i)) [
  | inl e ↦ elim (Bool-cases (same_key (key_of r) k)) [
    | inl g ↦ rw e (rw g (rw e refl))
    | inr g ↦ rw e (rw g refl)
  ]
  | inr e ↦ elim (Bool-cases (same_key (key_of r) k)) [
    | inl g ↦ rw e (rw g (rw e refl))
    | inr g ↦ rw e (rw g refl)
  ]
]

last_match-set_final :
    (k : Key) (i : ℕ) (f : Text) (rs : List Mapping)
    → last_match k (map (set_final i f) rs) ≡ changed i f (last_match k rs)
unfolding last_match
last_match-set_final k i f [] = refl
last_match-set_final k i f (r ∷ rs) =
    rw (last_match-set_final k i f rs)
      (rw (match-set_final k i f r) (changed-or_in i f (last_match k rs) (match k r)))

abbrev edited : ℕ → Text → Judge → Judge
edited i f j = record j { rows = map (set_final i f) j.rows }

update_final-edited :
    (i : ℕ) (f : Text) (j j' : Judge)
    → update_final i f j ≡ updated j' true
    → load (edited i f j) ≡ j'
unfolding update_final
update_final-edited i f j j' h = ground arith

-- Whenever `update_final` answers that it updated a row, the judge's answers right after it are
-- those of the last matching row of the old table, with the new decision where that row has the
-- updated id: the cache is never stale.
pub judge-update_final :
    (i : ℕ) (f : Text) (j j' : Judge)
    → update_final i f j ≡ updated j' true
    → (iot static dynamic : Text)
    → judge j' iot static dynamic ≡ changed i f (last_match (iot, static, dynamic) j.rows)
judge-update_final i f j j' h iot static dynamic =
    ap (λ x. judge x iot static dynamic) (sym (update_final-edited i f j j' h))
    ∙ judge-load (edited i f j) iot static dynamic
    ∙ last_match-set_final (iot, static, dynamic) i f j.rows
