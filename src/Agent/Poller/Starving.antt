-- ===== src/Agent/Poller/Starving.antt =====
-- Records that the table has no verdict for keep the rest from being decided:
-- decision_agent/src/decision_agent/poller.py with fetch_pending of repository/decision_repo.py.
use dust_monitoring.Prelude.{
  ℕ, zero, suc, ◌≤◌, ◌≡◌, refl, ap, ◌∙◌, true, none, some, List, [], ◌∷◌, ◌++◌, length, take, keep,
  arith, All, keep-All, take-All, sort_by, sort_by-All, sort_by-append, length-sort_by,
}
use dust_monitoring.Agent.Judge.{Judge}
use dust_monitoring.Agent.Roles.{RoleColumns, RoleResolver, role_columns}
use dust_monitoring.Agent.Records.{Records, is_ready, earlier, fetch_pending}
use dust_monitoring.Agent.Poller.{verdict, decide, decide_all, tick}

decide_all-stuck :
    (now : ℕ) (j : Judge) (cols : RoleColumns) (qs rows : Records)
    → All (λ q. verdict j cols q ≡ none) qs
    → decide_all now j cols qs rows ≡ rows
unfolding decide_all decide
decide_all-stuck now j cols [] rows h = refl
decide_all-stuck now j cols (q ∷ qs) rows (e, h) = rw e (decide_all-stuck now j cols qs rows h)

keep-ready :
    (old others : Records)
    → All (λ q. is_ready q ≡ true) old
    → keep is_ready (old ++ others) ≡ old ++ keep is_ready others
keep-ready [] others h = refl
keep-ready (q ∷ old) others (e, h) = rw e (ap (◌∷◌ q) (keep-ready old others h))

take-append : (n : ℕ) (xs ys : Records) → n ≤ length xs → take n (xs ++ ys) ≡ take n xs
take-append zero xs ys le = refl
take-append (suc n) [] ys le = ground (arith, le)
take-append (suc n) (x ∷ xs) ys le = ap (◌∷◌ x) (take-append n xs ys (omega (arith, le)))

-- A batch of ready records that no other ready record stands before fills the fetch.
fetch_pending-old :
    (limit : ℕ) (old others : Records)
    → limit ≤ length old
    → All (λ q. is_ready q ≡ true) old
    → All (λ q. All (λ o. earlier q o ≡ true) others) old
    → fetch_pending limit (old ++ others) ≡ take limit (sort_by earlier old)
unfolding fetch_pending
fetch_pending-old limit old others le ready older =
    ap (λ rs. take limit (sort_by earlier rs)) (keep-ready old others ready)
    ∙ ap (take limit) (sort_by-append earlier old (keep is_ready others) (narrow old older))
    ∙ take-append limit (sort_by earlier old) (sort_by earlier (keep is_ready others))
        (omega (arith, le, length-sort_by earlier old))
  where
    narrow :
        (qs : Records)
        → All (λ q. All (λ o. earlier q o ≡ true) others) qs
        → All (λ q. All (λ o. earlier q o ≡ true) (keep is_ready others)) qs
    narrow [] h = tt
    narrow (q ∷ qs) (e, h) = (keep-All (λ o. earlier q o ≡ true) is_ready others e, narrow qs h)

-- Ticks at these times, one after the other.
unfoldable pub ticks : List ℕ → Judge → RoleResolver → ℕ → Records → Records
ticks [] j roles batch rows = rows
ticks (now ∷ nows) j roles batch rows = ticks nows j roles batch (tick now j roles batch rows)

-- Where the three roles have columns, and as many records as a batch has, or more, are ready to be
-- judged, have no verdict in the table, stand in the table before the others and were observed no later
-- than they were, then no ticks change anything, however many there are: none of the others is decided,
-- whatever the table has for it.
pub ticks-starve :
    (nows : List ℕ) (j : Judge) (roles : RoleResolver) (batch : ℕ) (old others : Records)
    {cols : RoleColumns}
    → role_columns roles ≡ some cols
    → batch ≤ length old
    → All (λ q. is_ready q ≡ true) old
    → All (λ q. verdict j cols q ≡ none) old
    → All (λ q. All (λ o. earlier q o ≡ true) others) old
    → ticks nows j roles batch (old ++ others) ≡ old ++ others
unfolding ticks tick
ticks-starve [] j roles batch old others c le ready stuck older = refl
ticks-starve (now ∷ nows) j roles batch old others {cols} c le ready stuck older =
    let f = fetch_pending-old batch old others le ready older in
    let none_decided : All (λ q. verdict j cols q ≡ none) (take batch (sort_by earlier old)) =
      take-All (λ q. verdict j cols q ≡ none) batch _
        (sort_by-All earlier (λ q. verdict j cols q ≡ none) old stuck) in
    let still : tick now j roles batch (old ++ others) ≡ old ++ others = rw c (
      ap (λ qs. decide_all now j cols qs (old ++ others)) f
      ∙ decide_all-stuck now j cols (take batch (sort_by earlier old)) (old ++ others)
          none_decided) in
    ap (ticks nows j roles batch) still
    ∙ ticks-starve nows j roles batch old others c le ready stuck older
