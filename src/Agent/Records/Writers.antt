-- ===== src/Agent/Records/Writers.antt =====
-- The writers of decision_record: the agent's poller and the admin's forced decision.
use dust_monitoring.Prelude.{
  ℕ, ◌≡◌, refl, subst, sym, ap, ◌∙◌, false, not, Option, some, List, [], ◌∷◌, any, Text, equal,
  arith, Bool-cases, inl, inr, All,
}
use dust_monitoring.Agent.Judge.{Update, invalid, updated}
use dust_monitoring.Agent.Records.{
  Records, pending, is_pending, is_target, decide_row, write_verdict, mark_decided, force_decide,
  valid_decision_levels,
}

-- A write of a verdict: by the poller, with the id of the alarm_mapping row, or by the admin.
pub data Write : Type 0 where
  by_poller : ℕ → ℕ → Text → ℕ → Write
  by_admin : ℕ → ℕ → Text → Option ℕ → Write

abbrev pub table_of : Records → Update Records → Records
table_of rows invalid = rows
table_of rows (updated rows' b) = rows'

unfoldable pub write : Write → Records → Records
write (by_poller now i f m) rows = (mark_decided now i f m rows).0
write (by_admin now i f m) rows = table_of rows (force_decide now i f m rows)

unfoldable pub write_all : List Write → Records → Records
write_all [] rows = rows
write_all (w ∷ ws) rows = write_all ws (write w rows)

abbrev pub id_of : Write → ℕ
id_of (by_poller now i f m) = i
id_of (by_admin now i f m) = i

write_verdict-none :
    (now i : ℕ) (f : Text) (m : Option ℕ) (rows : Records)
    → any (is_target i) rows ≡ false
    → (write_verdict now i f m rows).0 ≡ rows
unfolding write_verdict
write_verdict-none now i f m [] h = refl
write_verdict-none now i f m (r ∷ rs) h = ground (arith, write_verdict-none now i f m rs)

any-write_verdict :
    (now i : ℕ) (f : Text) (m : Option ℕ) (rows : Records)
    → equal f pending ≡ false
    → any (is_target i) (write_verdict now i f m rows).0 ≡ false
unfolding write_verdict is_pending decide_row
any-write_verdict now i f m [] h = refl
any-write_verdict now i f m (r ∷ rs) h = ground (arith, any-write_verdict now i f m rs h)

write-none :
    (w : Write) (rows : Records) → any (is_target (id_of w)) rows ≡ false → write w rows ≡ rows
unfolding write mark_decided force_decide
write-none (by_poller now j f m) rows h = write_verdict-none now j f (some m) rows h
write-none (by_admin now j f m) rows h =
    elim (Bool-cases (not (any (equal f) valid_decision_levels))) [
      | inl e ↦ rw e refl
      | inr e ↦ rw e (write_verdict-none now j f m rows h)
    ]

write_all-none :
    (i : ℕ) (ws : List Write) (rows : Records)
    → All (λ w. id_of w ≡ i) ws
    → any (is_target i) rows ≡ false
    → write_all ws rows ≡ rows
unfolding write_all
write_all-none i [] rows a h = refl
write_all-none i (w ∷ ws) rows a h =
    let e = write-none w rows (subst (λ j. any (is_target j) rows ≡ false) (sym a.0) h) in
    ap (write_all ws) e ∙ write_all-none i ws rows a.1 h

-- The first verdict wins: once a verdict other than 'pending' is written for an id, no sequence of
-- further writes for that id, by the poller or the admin, changes the table.
pub write_verdict-wins :
    (now i : ℕ) (f : Text) (m : Option ℕ) (rows : Records) (ws : List Write)
    → equal f pending ≡ false
    → All (λ w. id_of w ≡ i) ws
    → write_all ws (write_verdict now i f m rows).0 ≡ (write_verdict now i f m rows).0
write_verdict-wins now i f m rows ws h a =
    write_all-none i ws (write_verdict now i f m rows).0 a (any-write_verdict now i f m rows h)
