-- ===== src/Monitors/Cost.antt =====
-- crates/secureops-monitors/src/cost.rs: the limits and the circuit breaker, over the entries of the
-- session logs. The parser of timestamps is `parse_ms`, and times are milliseconds.
pub mod Trips
use secureops.Prelude.{
  ℕ, ℤ, leb_ℤ, plus, Bool, true, false, not, ◌&&◌, ◌||◌, Option, none, some, List, [], ◌∷◌, ◌++◌,
  String, concat, show, split, keep_if, length, ◌==◌, str_eq, if◌then◌else◌,
}
use secureops.Core.Types.{Severity, critical, high}
use secureops.Core.Runtime.{MonitorAlert}
use secureops.Monitors.{CircuitState, armed, tripped}
use secureops.Monitors.CostLog.{F64, Usage, CostEntry, parse_session_log}

abbrev pub hour_ms : ℕ
hour_ms = 3600000

abbrev pub day_ms : ℕ
day_ms = 86400000

abbrev pub month_ms : ℕ
month_ms = 2592000000

module _ (f : F64) where
  pub record Limits : Type 0 where
    pub hourly_usd : f.Float
    pub daily_usd : f.Float
    pub monthly_usd : f.Float
    pub circuit_breaker_enabled : Bool

  abbrev pub default_limits : Limits
  default_limits = record {
    hourly_usd = f.literal "2.0";
    daily_usd = f.literal "10.0";
    monthly_usd = f.literal "100.0";
    circuit_breaker_enabled = true;
  }

  module _ (parse_line : String → Option Usage) (parse_ms : String → Option ℤ) where
    -- `t >= now - window`, as `now <= t + window`
    abbrev pub in_window : ℕ → ℤ → Option ℤ → Bool
    in_window window now none = false
    in_window window now (some t) = leb_ℤ now (plus t window)

    -- `now - t < window`
    abbrev after_window : ℕ → ℤ → Option ℤ → Bool
    after_window window now none = false
    after_window window now (some t) = not (leb_ℤ (plus t window) now)

    -- `sum()`, from the left
    abbrev pub sum_from : f.Float → List (CostEntry f) → f.Float
    sum_from acc [] = acc
    sum_from acc (e ∷ es) = sum_from (f.add acc e.estimated_cost_usd) es

    unfoldable pub calculate_cost_for_window : List (CostEntry f) → ℕ → ℤ → f.Float
    calculate_cost_for_window entries window now =
        sum_from (f.literal "0.0")
          (keep_if (λ (e : CostEntry f). in_window window now (parse_ms e.timestamp)) entries)

    pub record CostReport : Type 0 where
      pub hourly : f.Float
      pub daily : f.Float
      pub monthly : f.Float
      pub projected_daily : f.Float
      pub projected_monthly : f.Float
      pub circuit_breaker_tripped : Bool
      pub entries : List (CostEntry f)

    unfoldable pub generate_cost_report : List (CostEntry f) → ℤ → Bool → CostReport
    unfolding calculate_cost_for_window
    generate_cost_report entries now is_tripped =
        let hourly = calculate_cost_for_window entries hour_ms now in
        let daily = f.mul hourly (f.literal "24.0") in
        record {
          hourly = hourly;
          daily = calculate_cost_for_window entries day_ms now;
          monthly = calculate_cost_for_window entries month_ms now;
          projected_daily = daily;
          projected_monthly = f.mul daily (f.literal "30.0");
          circuit_breaker_tripped = is_tripped;
          entries = entries;
        }

    abbrev alert : Severity → String → Option String → String → MonitorAlert
    alert severity message details now_iso = record {
      timestamp = now_iso;
      severity = severity;
      monitor = "cost-monitor";
      message = message;
      details = details;
    }

    pub record CheckOutcome : Type 0 where
      pub alerts : List MonitorAlert
      pub tripped : Bool

    abbrev hourly_alert : f.Float → Limits → List (CostEntry f) → String → MonitorAlert
    hourly_alert hourly limits entries now_iso =
        alert critical
          (concat (
            "Hourly spend ($"
            ∷ f.fixed_2 hourly
            ∷ ") exceeds limit ($"
            ∷ f.display limits.hourly_usd
            ∷ ")"
            ∷ []))
          (some (concat ("Entries in window: " ∷ show (length entries) ∷ []))) now_iso

    abbrev tripped_alert : f.Float → Limits → String → MonitorAlert
    tripped_alert hourly limits now_iso =
        alert critical "Circuit breaker TRIPPED - pausing agent sessions"
          (some (
            concat (
              "Hourly spend: $"
              ∷ f.fixed_2 hourly
              ∷ ", Limit: $"
              ∷ f.display limits.hourly_usd
              ∷ [])))
          now_iso

    -- The first test.
    pub check_hourly : f.Float → Limits → List (CostEntry f) → String → CheckOutcome
    check_hourly hourly limits entries now_iso =
        if f.gt hourly limits.hourly_usd
        then if limits.circuit_breaker_enabled
          then record {
            alerts =
                hourly_alert hourly limits entries now_iso
                ∷ tripped_alert hourly limits now_iso
                ∷ [];
            tripped = true;
          }
          else record { alerts = hourly_alert hourly limits entries now_iso ∷ []; tripped = false }
        else record { alerts = []; tripped = false }

    abbrev spend_alert : String → f.Float → f.Float → String → List MonitorAlert
    spend_alert period spend limit now_iso =
        if f.gt spend limit
        then alert high
            (concat (
              period
              ∷ " spend ($"
              ∷ f.fixed_2 spend
              ∷ ") exceeds limit ($"
              ∷ f.display limit
              ∷ ")"
              ∷ []))
            none now_iso
          ∷ []
        else []

    -- Spike detection, where there are entries.
    abbrev spike_alert : List (CostEntry f) → ℤ → String → List MonitorAlert
    spike_alert [] now now_iso = []
    spike_alert (e ∷ es) now now_iso =
        let avg = f.div (sum_from (f.literal "0.0") (e ∷ es)) (f.of_u64 (length (e ∷ es))) in
        let recent_total = sum_from (f.literal "0.0") (
          keep_if (λ (x : CostEntry f). after_window hour_ms now (parse_ms x.timestamp))
            (e ∷ es)) in
        if f.gt recent_total (f.mul avg (f.literal "3.0")) && f.gt recent_total (f.literal "0.1")
        then alert high
            (concat (
              "Unusual cost spike detected: $"
              ∷ f.fixed_2 recent_total
              ∷ " in the last hour (3x normal)"
              ∷ []))
            none now_iso
          ∷ []
        else []

    unfoldable pub check_limits : List (CostEntry f) → Limits → ℤ → String → CheckOutcome
    unfolding check_hourly calculate_cost_for_window
    check_limits entries limits now now_iso =
        let first =
          check_hourly (calculate_cost_for_window entries hour_ms now) limits entries now_iso in
        record {
          alerts =
              first.alerts
              ++ spend_alert "Daily" (calculate_cost_for_window entries day_ms now) limits.daily_usd
                  now_iso
              ++ spend_alert "Monthly" (calculate_cost_for_window entries month_ms now)
                  limits.monthly_usd now_iso
              ++ spike_alert entries now now_iso;
          tripped = first.tripped;
        }

    -- `CostMonitor`, with the bus and the value of the circuit breaker's channel, which others share.
    pub record CostMonitor : Type 0 where
      pub circuit : CircuitState
      pub limits : Limits
      pub entries : List (CostEntry f)
      pub tripped : Bool
      pub bus : List MonitorAlert

    -- `CostMonitor::new`, with a channel that is armed
    abbrev pub new : CostMonitor
    new = record {
      circuit = armed;
      limits = default_limits;
      entries = [];
      tripped = false;
      bus = [];
    }

    -- The method `record`.
    unfoldable pub record_entry : CostEntry f → ℤ → CostMonitor → CostReport × CostMonitor
    unfolding generate_cost_report
    record_entry entry now m =
        let entries = m.entries ++ entry ∷ [] in
        (generate_cost_report entries now m.tripped, record m { entries = entries })

    -- What a tick reads: the session logs of the state directory, and the clock.
    pub record Tick : Type 0 where
      pub logs : List String
      pub now_ms : ℤ
      pub now_iso : String

    -- `scan_state_dir`, over the contents of the logs that could be read
    abbrev pub scan_state_dir : List String → String → List (CostEntry f)
    scan_state_dir [] now = []
    scan_state_dir (content ∷ contents) now =
        parse_session_log f parse_line content now ++ scan_state_dir contents now

    abbrev trip : Bool → CostMonitor → CostMonitor
    trip false m = m
    trip true m = record m { tripped = true; circuit = tripped }

    unfoldable pub tick : Tick → CostMonitor → CostMonitor
    unfolding check_limits
    tick t m =
        let entries = scan_state_dir t.logs t.now_iso in
        let outcome = check_limits entries m.limits t.now_ms t.now_iso in
        let m' = trip outcome.tripped (record m { entries = entries }) in
        record m' { bus = m'.bus ++ outcome.alerts }

    -- What happens to the monitor and its channel: a tick, or the daemon's `bpf_wire` trips the
    -- channel through a clone of its sender (crates/secureops-daemon/src/bpf_wire.rs).
    pub data Event : Type 0 where
      ticked : Tick → Event
      tripped_by_chain : Event

    abbrev pub observe : Event → CostMonitor → CostMonitor
    unfolding tick
    observe (ticked t) m = tick t m
    observe tripped_by_chain m = record m { circuit = tripped }

    unfoldable pub run : List Event → CostMonitor → CostMonitor
    unfolding observe
    run [] m = m
    run (e ∷ es) m = run es (observe e m)
