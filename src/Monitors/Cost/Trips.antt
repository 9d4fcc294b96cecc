-- ===== src/Monitors/Cost/Trips.antt =====
-- The circuit breaker over the life of the cost monitor.
use secureops.Prelude.{
  ℤ, leb_ℤ, plus, ◌≡◌, refl, ap, ap₂, ◌∙◌, Bool, true, false, ◌&&◌, ◌||◌, Bool-cases, inl, inr,
  Option, none, some, List, [], ◌∷◌, arith, String, any, keep_if, if◌then◌else◌,
}
use secureops.Monitors.{CircuitState, tripped}
use secureops.Monitors.CostLog.{F64, Usage, CostEntry}
use secureops.Monitors.Cost.{
  Limits, CostMonitor, Tick, Event, ticked, tripped_by_chain, hour_ms, in_window, sum_from,
  calculate_cost_for_window, check_hourly, check_limits, scan_state_dir, trip, tick, observe, run,
}

or_assoc : (a b c : Bool) → (a || b || c) ≡ (a || (b || c))
or_assoc true b c = refl
or_assoc false b c = refl

either :
    (a b : Bool) (was now : CircuitState)
    → (if b then now else if a then now else was) ≡ (if a || b then now else was)
either true b was now = ground arith
either false b was now = refl

module _ (f : F64) (parse_line : String → Option Usage) (parse_ms : String → Option ℤ) where
  -- A time that can be read and is at most 3,600,000 ms ago.
  abbrev recent : ℤ → Option ℤ → Bool
  recent now none = false
  recent now (some t) = leb_ℤ now (plus t 3600000)

  -- The recent costs added to `acc`, in the order of the entries.
  abbrev pub spent : ℤ → f.Float → List (CostEntry f) → f.Float
  spent now acc [] = acc
  spent now acc (e ∷ es) =
      spent now (if recent now (parse_ms e.timestamp) then f.add acc e.estimated_cost_usd else acc)
        es

  in_window-recent :
      (now : ℤ) (o : Option ℤ) → in_window f parse_line parse_ms hour_ms now o ≡ recent now o
  in_window-recent now none = refl
  in_window-recent now (some t) = refl

  sum_from-spent :
      (now : ℤ) (acc : f.Float) (es : List (CostEntry f))
      → sum_from f parse_line parse_ms acc (
          keep_if
            (λ (e : CostEntry f).
              in_window f parse_line parse_ms hour_ms now (parse_ms e.timestamp))
            es)
        ≡ spent now acc es
  sum_from-spent now acc [] = refl
  sum_from-spent now acc (e ∷ es) = elim (Bool-cases (recent now (parse_ms e.timestamp))) [
    | inl y ↦
        rw (in_window-recent now (parse_ms e.timestamp), y)
          (sum_from-spent now (f.add acc e.estimated_cost_usd) es)
    | inr n ↦ rw (in_window-recent now (parse_ms e.timestamp), n) (sum_from-spent now acc es)
  ]

  -- At the tick the breaker is enabled and the spend of the last hour is above its limit.
  abbrev pub overspends : Limits f → Tick f parse_line parse_ms → Bool
  overspends limits t =
      f.gt
        (spent t.now_ms (f.literal "0.0") (scan_state_dir f parse_line parse_ms t.logs t.now_iso))
        limits.hourly_usd
      && limits.circuit_breaker_enabled

  -- An event at which the monitor trips, and one at which the channel is tripped.
  abbrev pub trips_monitor : Limits f → Event f parse_line parse_ms → Bool
  trips_monitor limits (ticked t) = overspends limits t
  trips_monitor limits tripped_by_chain = false

  abbrev pub trips_channel : Limits f → Event f parse_line parse_ms → Bool
  trips_channel limits (ticked t) = overspends limits t
  trips_channel limits tripped_by_chain = true

  check_hourly-tripped :
      (hourly : f.Float) (limits : Limits f) (entries : List (CostEntry f)) (now_iso : String)
      → (check_hourly f parse_line parse_ms hourly limits entries now_iso).tripped
        ≡ (f.gt hourly limits.hourly_usd && limits.circuit_breaker_enabled)
  unfolding check_hourly
  check_hourly-tripped hourly limits entries now_iso = ground arith

  -- What an event does to the flag, to the channel and to the limits.
  abbrev Moves :
      CostMonitor f parse_line parse_ms → Bool → Bool → CostMonitor f parse_line parse_ms → Type 0
  Moves m flag channel m' =
      (m'.tripped ≡ (m.tripped || flag))
      × (m'.circuit ≡ (if channel then tripped else m.circuit))
      × (m'.limits ≡ m.limits)

  trip-Moves :
      (b : Bool) (m : CostMonitor f parse_line parse_ms)
      → Moves m b b (trip f parse_line parse_ms b m)
  trip-Moves true m = ground arith
  trip-Moves false m = ground arith

  check_limits-overspends :
      (m : CostMonitor f parse_line parse_ms) (t : Tick f parse_line parse_ms)
      → (check_limits f parse_line parse_ms
          (scan_state_dir f parse_line parse_ms t.logs t.now_iso)
          m.limits
          t.now_ms
          t.now_iso).tripped
        ≡ overspends m.limits t
  unfolding check_limits calculate_cost_for_window
  check_limits-overspends m t =
      let entries = scan_state_dir f parse_line parse_ms t.logs t.now_iso in
      check_hourly-tripped _ m.limits entries t.now_iso
      ∙ ap (λ x. f.gt x m.limits.hourly_usd && m.limits.circuit_breaker_enabled)
          (sum_from-spent t.now_ms (f.literal "0.0") entries)

  tick-Moves :
      (t : Tick f parse_line parse_ms) (m : CostMonitor f parse_line parse_ms)
      → Moves m (overspends m.limits t) (overspends m.limits t) (tick f parse_line parse_ms t m)
  unfolding tick
  tick-Moves t m =
      let entries = scan_state_dir f parse_line parse_ms t.logs t.now_iso in
      let (flag, channel, limits) =
        trip-Moves (check_limits f parse_line parse_ms entries m.limits t.now_ms t.now_iso).tripped
          (record m { entries = entries }) in
      (
        flag ∙ ap (λ b. m.tripped || b) (check_limits-overspends m t),
        channel ∙ ap (λ b. if b then tripped else m.circuit) (check_limits-overspends m t),
        limits,
      )

  observe-Moves :
      (e : Event f parse_line parse_ms) (m : CostMonitor f parse_line parse_ms)
      → Moves m
          (trips_monitor m.limits e)
          (trips_channel m.limits e)
          (observe f parse_line parse_ms e m)
  unfolding observe
  observe-Moves (ticked t) m = tick-Moves t m
  observe-Moves tripped_by_chain m = ground arith

  -- Over any run of ticks, whatever they read, between which others may trip the channel: the monitor
  -- is tripped exactly when it was before, or when at one of the ticks it was enabled and the spend of
  -- the last hour, added up over the entries in the logs, was above its limit; the channel that the
  -- gateway reads says tripped exactly when it did before, or from such a tick or another's trip on.
  -- Neither is ever armed again.
  pub run-tripped :
      (es : List (Event f parse_line parse_ms)) (m : CostMonitor f parse_line parse_ms)
      → ((run f parse_line parse_ms es m).tripped ≡ (m.tripped || any (trips_monitor m.limits) es))
        × ((run f parse_line parse_ms es m).circuit
            ≡ (if any (trips_channel m.limits) es then tripped else m.circuit))
  unfolding run
  run-tripped [] m = ground arith
  run-tripped (e ∷ es) m =
      let (flag, channel, limits) = observe-Moves e m in
      let (later, last) = run-tripped es (observe f parse_line parse_ms e m) in
      (
        later
            ∙ ap₂ (λ b l. b || any (trips_monitor l) es) flag limits
            ∙ or_assoc m.tripped (trips_monitor m.limits e) (any (trips_monitor m.limits) es),
        last
            ∙ ap₂ (λ c l. if any (trips_channel l) es then tripped else c) channel limits
            ∙ either (trips_channel m.limits e) (any (trips_channel m.limits) es) m.circuit tripped,
      )
