-- ===== src/Transfer/Quiet.antt =====
-- While every AMR stays at its waypoint, the transition check does nothing: a batch that failed is
-- not tried again at the next round.
use dust_monitoring.Prelude.{
  ◌≡◌, refl, ap, ◌∙◌, Bool, List, [], ◌∷◌, if◌then◌else◌, All, All-map, arith, Bool-cases, inl, inr,
  sym, Text, ℤ, eq_int, eq_int_iff, equal, equal_iff,
}
use dust_monitoring.Transfer.Floats.{Floats}
use dust_monitoring.Transfer.Tables.{QueueRow, State}
use dust_monitoring.Transfer.Queue.{fetch_current_waypoints}
use dust_monitoring.Transfer.Batch.{Env}
use dust_monitoring.Transfer.Transition.{
  last_waypoint, put_waypoint, visit, visit_all, remember, check_waypoint_transition,
}

pub last_waypoint-put_waypoint :
    (init : ℤ) (amr a : Text) (wp : ℤ) (d : List (Text × ℤ))
    → last_waypoint init (put_waypoint amr wp d) a
      ≡ (if equal amr a then wp else last_waypoint init d a)
unfolding last_waypoint put_waypoint
last_waypoint-put_waypoint init amr a wp [] = refl
last_waypoint-put_waypoint init amr a wp ((b, w) ∷ d) = ground (
  arith,
  equal_iff amr a,
  equal_iff b amr,
  equal_iff b a,
  last_waypoint-put_waypoint init amr a wp d,
)

-- Each AMR of the list stands where the poller saw it last.
abbrev pub Stays : ℤ → List (Text × ℤ) → List (Text × ℤ) → Type 0
Stays init l d = All (λ p. last_waypoint init d p.0 ≡ p.1) l

put_seen :
    (init : ℤ) (amr a : Text) (wp : ℤ) (d : List (Text × ℤ))
    → last_waypoint init d amr ≡ wp
    → last_waypoint init (put_waypoint amr wp d) a ≡ last_waypoint init d a
put_seen init amr a wp d e =
    last_waypoint-put_waypoint init amr a wp d ∙ elim (Bool-cases (equal amr a)) [
      | inl same ↦ rw same (sym e ∙ ap (last_waypoint init d) ((equal_iff amr a).0 same))
      | inr other ↦ rw other refl
    ]

module _ {F : Type 0} ⦃fl : Floats F⦄ (env : Env F) (init : ℤ) where
  -- A check that handles no row and changes no more than the poller's map of waypoints, which
  -- says of every AMR what it said before.
  pub record IsQuiet (s : State F) (r : State F × List (QueueRow F)) : Type 0 where
    pub seen : List (Text × ℤ)
    pub state : r.0 ≡ record s { last_waypoint_by_amr = seen }
    pub no_rows : r.1 ≡ []
    pub same : (a : Text) → last_waypoint init seen a ≡ last_waypoint init s.last_waypoint_by_amr a

  visit-stays :
      (amr : Text) (wp : ℤ) (s : State F)
      → last_waypoint init s.last_waypoint_by_amr amr ≡ wp
      → visit env init amr wp s ≡ (remember amr wp s, [])
  unfolding visit
  visit-stays amr wp s e = rw ((eq_int_iff wp _).1 (sym e)) refl

  visit_all-Stays :
      (l : List (Text × ℤ)) (s : State F)
      → Stays init l s.last_waypoint_by_amr
      → IsQuiet s (visit_all env init l s)
  unfolding visit_all
  visit_all-Stays [] s h = record {
    seen = s.last_waypoint_by_amr;
    state = refl;
    no_rows = refl;
    same = λ a. refl;
  }
  visit_all-Stays ((amr, wp) ∷ l) s (e, h) =
      let put = λ (a : Text). put_seen init amr a wp s.last_waypoint_by_amr e in
      let q = visit_all-Stays l (remember amr wp s) (All-map (λ p x. put p.0 ∙ x) l h) in
      rw (visit-stays amr wp s e) (record {
        seen = q.seen;
        state = q.state;
        no_rows = q.no_rows;
        same = λ a. q.same a ∙ put a;
      })

  -- Where each AMR's latest queued row is of the waypoint that the poller saw last, a check is
  -- quiet.
  pub check_waypoint_transition-IsQuiet :
      (collate : Text → Text → Bool) (s : State F)
      → Stays init (fetch_current_waypoints collate s) s.last_waypoint_by_amr
      → IsQuiet s (check_waypoint_transition env init collate s)
  unfolding check_waypoint_transition
  check_waypoint_transition-IsQuiet collate s h =
      visit_all-Stays (fetch_current_waypoints collate s) s h

  visit-sees :
      (amr : Text) (wp : ℤ) (s : State F)
      → last_waypoint init (visit env init amr wp s).0.last_waypoint_by_amr amr ≡ wp
  unfolding visit
  visit-sees amr wp s =
      elim (Bool-cases (eq_int wp (last_waypoint init s.last_waypoint_by_amr amr))) [
        | inl e ↦ rw e (
            last_waypoint-put_waypoint init amr amr wp s.last_waypoint_by_amr
            ∙ rw ((equal_iff amr amr).1 refl) refl)
        | inr e ↦
            rw e
              (last_waypoint-put_waypoint init amr amr wp _ ∙ rw ((equal_iff amr amr).1 refl) refl)
      ]

  check_waypoint_transition-sees :
      (collate : Text → Text → Bool) (s : State F) (amr : Text) (wp : ℤ)
      → fetch_current_waypoints collate s ≡ (amr, wp) ∷ []
      → last_waypoint init (check_waypoint_transition env init collate s).0.last_waypoint_by_amr amr
        ≡ wp
  unfolding check_waypoint_transition visit_all
  check_waypoint_transition-sees collate s amr wp e = rw e (visit-sees amr wp s)

  -- An AMR alone moves to a waypoint and the check handles its last batch, failing or not. While
  -- the AMR stays there the next check is quiet, so rows of a failed batch are not tried again.
  pub check_waypoint_transition-once :
      (collate : Text → Text → Bool) (s s' : State F) (amr : Text) (wp : ℤ)
      → fetch_current_waypoints collate s ≡ (amr, wp) ∷ []
      → s' ≡ (check_waypoint_transition env init collate s).0
      → fetch_current_waypoints collate s' ≡ (amr, wp) ∷ []
      → IsQuiet s' (check_waypoint_transition env init collate s')
  check_waypoint_transition-once collate s s' amr wp e is e' =
      check_waypoint_transition-IsQuiet collate s' (
        rw e' (
          ap (λ t. last_waypoint init t.last_waypoint_by_amr amr) is
              ∙ check_waypoint_transition-sees collate s amr wp e,
          tt,
        ))
