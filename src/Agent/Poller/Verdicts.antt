-- ===== src/Agent/Poller/Verdicts.antt =====
-- A tick decides every record that it fetches by the judge's verdict, once and for all.
use dust_monitoring.Prelude.{
  ℕ, ◌≡◌, refl, sym, ap, ◌∙◌, true, false, ◌&&◌, Option, none, some, [], ◌∷◌, ◌==◌, ==_iff, ==_refl,
  if◌then◌else◌, Text, equal, arith, All, Bool-cases, Option-cases, inl, inr, ◌⊎◌, sort_by-All,
  take-All, keep-All, keep-passes, All-map, subst, some_inj,
}
use dust_monitoring.Agent.Judge.{Judge}
use dust_monitoring.Agent.Roles.{RoleColumns, RoleResolver, role_columns}
use dust_monitoring.Agent.Records.{
  DecisionRecord, Records, pending, is_pending, is_ready, earlier, fetch_pending, decide_row,
  write_verdict, mark_decided,
}
use dust_monitoring.Agent.Poller.{verdict, decide, decide_all, tick}

-- The row with that id.
unfoldable pub find : ℕ → Records → Option DecisionRecord
find i [] = none
find i (r ∷ rs) = if r.id == i then some r else find i rs

abbrev after_write : ℕ → ℕ → Text → Option ℕ → ℕ → Option DecisionRecord → Option DecisionRecord
after_write now i f m j none = none
after_write now i f m j (some r) =
    if j == i && is_pending r then some (decide_row now f m r) else some r

pub find-write_verdict :
    (now i j : ℕ) (f : Text) (m : Option ℕ) (rows : Records)
    → find j (write_verdict now i f m rows).0 ≡ after_write now i f m j (find j rows)
unfolding find write_verdict decide_row
find-write_verdict now i j f m [] = refl
find-write_verdict now i j f m (r ∷ rows) = ground (arith, find-write_verdict now i j f m rows)

module _ (now : ℕ) (j : Judge) (cols : RoleColumns) where
  find-decide_other :
      (i : ℕ) (q : DecisionRecord) (rows : Records)
      → (i == q.id) ≡ false
      → find i (decide now j cols q rows) ≡ find i rows
  unfolding decide mark_decided
  find-decide_other i q rows ne = elim (Option-cases (verdict j cols q)) [
    | inl e ↦ rw e refl
    | inr ((f, m), e) ↦
        rw e (find-write_verdict now q.id i f (some m) rows ∙ other (find i rows) f m)
  ]
    where
      other :
          (o : Option DecisionRecord) (f : Text) (m : ℕ) → after_write now q.id f (some m) i o ≡ o
      other none f m = refl
      other (some r) f m = rw ne refl

  find-decide_decided :
      (i : ℕ) (q : DecisionRecord) (rows : Records) {r : DecisionRecord}
      → find i rows ≡ some r
      → is_pending r ≡ false
      → find i (decide now j cols q rows) ≡ some r
  unfolding decide mark_decided
  find-decide_decided i q rows e d = elim (Option-cases (verdict j cols q)) [
    | inl n ↦ rw n e
    | inr ((f, m), n) ↦ rw n (find-write_verdict now q.id i f (some m) rows ∙ rw e (ground arith))
  ]

  decide_all-decided :
      (i : ℕ) (qs rows : Records) {r : DecisionRecord}
      → find i rows ≡ some r
      → is_pending r ≡ false
      → find i (decide_all now j cols qs rows) ≡ some r
  unfolding decide_all
  decide_all-decided i [] rows e d = e
  decide_all-decided i (q ∷ qs) rows e d =
      decide_all-decided i qs (decide now j cols q rows) (find-decide_decided i q rows e d) d

  find-decide_self :
      (r : DecisionRecord) (rows : Records) (f : Text) (m : ℕ)
      → find r.id rows ≡ some r
      → is_pending r ≡ true
      → verdict j cols r ≡ some (f, m)
      → find r.id (decide now j cols r rows) ≡ some (decide_row now f (some m) r)
  unfolding decide mark_decided
  find-decide_self r rows f m e p v = rw v (
      find-write_verdict now r.id r.id f (some m) rows
      ∙ ap (after_write now r.id f (some m) r.id) e
      ∙ rw (==_refl r.id) (rw p refl))

-- The record is one of the list.
abbrev pub Among : DecisionRecord → Records → Type 0
Among r [] = ⊥
Among r (q ∷ qs) = (q ≡ r) ⊎ Among r qs

-- Ids are unique: the first row with a row's id is that row.
abbrev pub Keyed : Records → Records → Type 0
Keyed rows = All (λ q. find q.id rows ≡ some q)

All-Among {κ} :
    (P : DecisionRecord → Type κ) (r : DecisionRecord) (qs : Records) → All P qs → Among r qs → P r
All-Among P r [] h a = absurd a
All-Among P r (q ∷ qs) (h, hs) (inl e) = subst P e h
All-Among P r (q ∷ qs) (h, hs) (inr a) = All-Among P r qs hs a

module _ (now : ℕ) (j : Judge) (cols : RoleColumns) (r : DecisionRecord) (f : Text) (m : ℕ)
    (start : Records) where
  decide_all-Among :
      (qs rows : Records)
      → find r.id start ≡ some r
      → is_pending r ≡ true
      → verdict j cols r ≡ some (f, m)
      → equal f pending ≡ false
      → Keyed start qs
      → Among r qs
      → find r.id rows ≡ some r
      → find r.id (decide_all now j cols qs rows) ≡ some (decide_row now f (some m) r)
  unfolding decide_all
  decide_all-Among [] rows s p v nf k a e = absurd a
  decide_all-Among (q ∷ qs) rows s p v nf (kq, k) a e = elim (Bool-cases (r.id == q.id)) [
    | inl same ↦
        let q_is : q ≡ r =
          some_inj (sym kq ∙ ap (λ i. find i start) (sym ((==_iff r.id q.id).0 same)) ∙ s) in
        rw q_is (
          decide_all-decided now j cols r.id qs (decide now j cols r rows)
            (find-decide_self now j cols r rows f m e p v) (unfold is_pending decide_row in nf))
    | inr other ↦
        decide_all-Among qs (decide now j cols q rows) s p v nf k (later a other)
          (find-decide_other now j cols r.id q rows other ∙ e)
  ]
    where
      later : (q ≡ r) ⊎ Among r qs → (r.id == q.id) ≡ false → Among r qs
      later (inl x) other = cc (other, ==_refl r.id, ap (λ (t : DecisionRecord). r.id == t.id) x)
      later (inr a') other = a'

is_ready-is_pending : (q : DecisionRecord) → is_ready q ≡ true → is_pending q ≡ true
unfolding is_ready
is_ready-is_pending q h = ground arith

fetch_pending-found :
    (limit : ℕ) (rows : Records)
    → Keyed rows rows
    → Keyed rows (fetch_pending limit rows)
      × All (λ q. is_pending q ≡ true) (fetch_pending limit rows)
unfolding fetch_pending
fetch_pending-found limit rows k = (
  take-All (λ q. find q.id rows ≡ some q) limit _
      (sort_by-All earlier (λ q. find q.id rows ≡ some q) _
        (keep-All (λ q. find q.id rows ≡ some q) is_ready rows k)),
  take-All (λ q. is_pending q ≡ true) limit _
      (sort_by-All earlier (λ q. is_pending q ≡ true) _
        (All-map (λ q h. is_ready-is_pending q h) _ (keep-passes is_ready rows))),
)

-- Where ids are unique and the three roles have columns, a tick decides every record that it fetches
-- and that the table has a verdict other than 'pending' for, by that verdict, whatever else it
-- fetches before or after.
pub tick-decides :
    (now : ℕ) (j : Judge) (roles : RoleResolver) (batch : ℕ) (rows : Records) {cols : RoleColumns}
    (r : DecisionRecord) (f : Text) (m : ℕ)
    → Keyed rows rows
    → role_columns roles ≡ some cols
    → Among r (fetch_pending batch rows)
    → verdict j cols r ≡ some (f, m)
    → equal f pending ≡ false
    → find r.id (tick now j roles batch rows) ≡ some (decide_row now f (some m) r)
unfolding tick
tick-decides now j roles batch rows {cols} r f m k c a v nf =
    let (keyed, open_rows) = fetch_pending-found batch rows k in
    let here = All-Among (λ q. find q.id rows ≡ some q) r (fetch_pending batch rows) keyed a in
    rw c (
      decide_all-Among now j cols r f m rows (fetch_pending batch rows) rows here
        (All-Among (λ q. is_pending q ≡ true) r (fetch_pending batch rows) open_rows a) v nf keyed a
        here)

-- A tick leaves a decided record as it is.
pub tick-keeps :
    (now : ℕ) (j : Judge) (roles : RoleResolver) (batch : ℕ) (rows : Records) (i : ℕ)
    {r : DecisionRecord}
    → find i rows ≡ some r
    → is_pending r ≡ false
    → find i (tick now j roles batch rows) ≡ some r
unfolding tick
tick-keeps now j roles batch rows i e d = elim (Option-cases (role_columns roles)) [
  | inl n ↦ rw n e
  | inr (cols, n) ↦ rw n (decide_all-decided now j cols i (fetch_pending batch rows) rows e d)
]
