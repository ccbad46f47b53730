-- ===== src/Transfer/Transition.antt =====
-- PoolerTran/src/poolertran/poller.py: the waypoint transition and the poller's round.
use dust_monitoring.Prelude.{
  ℕ, suc, Bool, List, [], ◌∷◌, ◌++◌, leb, if◌then◌else◌, Text, equal, ℤ, eq_int,
}
use dust_monitoring.Transfer.Floats.{Floats}
use dust_monitoring.Transfer.Tables.{QueueRow, State}
use dust_monitoring.Transfer.Queue.{fetch_current_waypoints, sweep_stale}
use dust_monitoring.Transfer.Batch.{Env, process_waypoint_batch}

-- `d.get(amr, init)` and `d[amr] = wp`
unfoldable pub last_waypoint : ℤ → List (Text × ℤ) → Text → ℤ
last_waypoint init [] amr = init
last_waypoint init ((a, w) ∷ d) amr = if equal a amr then w else last_waypoint init d amr

unfoldable pub put_waypoint : Text → ℤ → List (Text × ℤ) → List (Text × ℤ)
put_waypoint amr wp [] = (amr, wp) ∷ []
put_waypoint amr wp ((a, w) ∷ d) =
    if equal a amr then (a, wp) ∷ d else (a, w) ∷ put_waypoint amr wp d

module _ {F : Type 0} ⦃fl : Floats F⦄ where
  abbrev pub count_transition : State F → State F
  count_transition s = record s {
    stats = record s.stats { waypoint_transitions = suc s.stats.waypoint_transitions };
  }

  abbrev pub remember : Text → ℤ → State F → State F
  remember amr wp s = record s { last_waypoint_by_amr = put_waypoint amr wp s.last_waypoint_by_amr }

  -- One turn of the loop over `current`.
  unfoldable pub visit : Env F → ℤ → Text → ℤ → State F → State F × List (QueueRow F)
  unfolding last_waypoint put_waypoint
  visit env init amr wp s =
      let prev = last_waypoint init s.last_waypoint_by_amr amr in
      if eq_int wp prev
      then (remember amr wp s, [])
      else let (s', rows) = process_waypoint_batch env amr prev (count_transition s) in
        (remember amr wp s', rows)

  unfoldable pub visit_all : Env F → ℤ → List (Text × ℤ) → State F → State F × List (QueueRow F)
  visit_all env init [] s = (s, [])
  visit_all env init ((amr, wp) ∷ rest) s =
      let (s1, rows) = visit env init amr wp s in
      let (s2, more) = visit_all env init rest s1 in (s2, rows ++ more)

  unfoldable pub check_waypoint_transition :
      Env F → ℤ → (Text → Text → Bool) → State F → State F × List (QueueRow F)
  unfolding visit visit_all
  check_waypoint_transition env init collate s =
      visit_all env init (fetch_current_waypoints collate s) s

  -- `_sweep_stale`: an age of 0 turns it off.
  unfoldable pub sweep : ℕ → ℕ → State F → State F
  sweep now max_age s = if leb max_age 0 then s else (sweep_stale now max_age s).0

  -- One round of `run`.
  unfoldable pub poll : Env F → ℤ → (Text → Text → Bool) → ℕ → State F → State F
  unfolding check_waypoint_transition sweep
  poll env init collate max_age s =
      sweep env.now max_age (check_waypoint_transition env init collate s).0
