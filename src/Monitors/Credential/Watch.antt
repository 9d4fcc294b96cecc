-- ===== src/Monitors/Credential/Watch.antt =====
-- What the credential monitor reports, and what it never does.
use secureops.Prelude.{
  ℕ, ◌≡◌, ◌≢◌, refl, ap, true, Option, none, some, List, [], ◌∷◌, arith, String, All, Has-left,
  Has-right, Includes, ◌==◌, ==_iff, str_eq, str_eq_iff, str_eq_refl, Bool-cases, inl, inr,
}
use secureops.Prelude.Map
use secureops.Prelude.Map.{String-Key}
use secureops.Monitors.Credential.{
  Modes, Tick, compare_mode, permission_alert, present_alerts, deleted_alerts, tick_alerts, run,
}

compare_mode-permission :
    (now path : String) (mode : ℕ) (before : Option ℕ)
    → before ≢ some mode
    → Includes (permission_alert path mode now) (compare_mode now path mode before)
compare_mode-permission now path mode none d a h = inr h
compare_mode-permission now path mode (some pm) d a h = elim (Bool-cases (pm == mode)) [
  | inl same ↦ absurd (d (ap some ((==_iff pm mode).0 same)))
  | inr other ↦ rw other h
]

present-permission :
    (now path : String) (mode : ℕ) (prev cur : Modes)
    → Map.get path cur ≡ some mode
    → Map.get path prev ≢ some mode
    → Includes (permission_alert path mode now) (present_alerts now prev cur)
unfolding present_alerts Map.get
present-permission now path mode prev [] e d a h = ground (arith, e)
present-permission now path mode prev ((p, m) ∷ cur) e d a h = elim (Bool-cases (str_eq p path)) [
  | inl here ↦
      let same_path : p ≡ path = (str_eq_iff p path).0 here in
      let same_mode : m ≡ mode = ground (arith, rw here at e) in
      rw (same_path, same_mode)
        (Has-left a (compare_mode now path mode (Map.get path prev)) (present_alerts now prev cur)
          (compare_mode-permission now path mode (Map.get path prev) d a h))
  | inr later ↦
      Has-right a (compare_mode now p m (Map.get p prev)) (present_alerts now prev cur)
        (present-permission now path mode prev cur (rw later at e) d a h)
]

-- A credential file whose mode is not what the scan before found, a new file included, is reported
-- by the tick with its mode, where the mode lets a group or others in.
pub tick_alerts-permission :
    (now path : String) (mode : ℕ) (prev cur : Modes)
    → Map.get path cur ≡ some mode
    → Map.get path prev ≢ some mode
    → Includes (permission_alert path mode now) (tick_alerts now (some prev) cur)
unfolding tick_alerts
tick_alerts-permission now path mode prev cur e d a h =
    Has-left a (present_alerts now prev cur) (deleted_alerts now cur prev)
      (present-permission now path mode prev cur e d a h)

-- Every entry of a scan stands in the scan before it, with its mode.
abbrev pub Within : Modes → Modes → Type 0
Within cur prev = (p : String) (m : ℕ) → Map.get p cur ≡ some m → Map.get p prev ≡ some m

tail-Within :
    (p : String) (m : ℕ) (cur prev : Modes)
    → Map.IsUnique ((p, m) ∷ cur)
    → Within ((p, m) ∷ cur) prev
    → (Map.get p prev ≡ some m) × Within cur prev
unfolding Map.get Map.IsUnique
tail-Within p m cur prev u w =
    (w p m (ground (arith, str_eq_refl p)), λ q g e. w q g (ground (arith, str_eq_iff p q, u.0, e)))

present-none :
    (now : String) (prev cur : Modes)
    → Map.IsUnique cur
    → Within cur prev
    → present_alerts now prev cur ≡ []
unfolding present_alerts Map.IsUnique
present-none now prev [] u w = refl
present-none now prev ((p, m) ∷ cur) u w =
    let (here, rest) = tail-Within p m cur prev u w in
    let same : (m == m) ≡ true = (==_iff m m).1 refl in
    rw (here, same) (present-none now prev cur u.1 rest)

deleted-none :
    (now : String) (cur prev : Modes)
    → Map.IsUnique prev
    → Within prev cur
    → deleted_alerts now cur prev ≡ []
unfolding deleted_alerts Map.IsUnique
deleted-none now cur [] u w = refl
deleted-none now cur ((p, m) ∷ prev) u w =
    let (here, rest) = tail-Within p m prev cur u w in rw here (deleted-none now cur prev u.1 rest)

again-none :
    (cur : Modes) (ticks : List Tick)
    → Map.IsUnique cur
    → All (λ (t : Tick). t.1 ≡ cur) ticks
    → run (some cur) ticks ≡ []
unfolding run tick_alerts
again-none cur [] u h = refl
again-none cur ((now, scan) ∷ ticks) u h =
    rw (h.0, present-none now cur cur u (λ p m e. e), deleted-none now cur cur u (λ p m e. e))
      (again-none cur ticks u h.1)

-- The first scan is taken as it is: a monitor all of whose scans find the same files with the same
-- modes publishes nothing, however open those modes are, so that a credential file that anyone could
-- read when the monitor started is never reported while its mode stays.
pub run-quiet :
    (cur : Modes) (ticks : List Tick)
    → Map.IsUnique cur
    → All (λ (t : Tick). t.1 ≡ cur) ticks
    → run none ticks ≡ []
unfolding run tick_alerts
run-quiet cur [] u h = refl
run-quiet cur ((now, scan) ∷ ticks) u h = rw h.0 (again-none cur ticks u h.1)
