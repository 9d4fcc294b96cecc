-- ===== src/Harden/Tests.antt =====
-- Runs of the hardening crate's tests, and instances of the theorems.
use secureops.Prelude.{
  ℕ, ◌≡◌, refl, ap, subst, true, none, some, [], ◌∷◌, String, str_eq, concat, show, Has, All,
  Result, ok, err, arith, if◌then◌else◌,
}
use secureops.Core.Config.{OpenClawConfig, default_config, default_gateway_config}
use secureops.Checks.Findings.{gw_003}
use secureops.Checks.Gateway.{run}
use secureops.Harden.Files.{
  PathBuf, IoError, Json, ReadsBack, config_path, read_config, write_config,
}
use secureops.Harden.Disk.{path_eq, Disk, disk, disk-IsSound}
use secureops.Harden.Gateway
use secureops.Harden.Gateway.{harden_gateway, action, byte_len, or_gateway}
use secureops.Harden.Gateway.Checked.{hardened, leftover, IsMinor}
use secureops.Harden.Gateway.Fixed.{fix-leftover}
use secureops.Harden.Gateway.Own.{own_leftover}
use secureops.Harden.GatewayCheck
use secureops.Harden.Gateway.Weak.{token_mode, weak_auth, harden_gateway-weak}
use secureops.Harden.ConfigCheck.{ChannelConfig, not_sandboxed, channel_findings, check}
use secureops.Harden.Config
use secureops.Harden.Config.Manual.{fix-manual, fix-twice}
use secureops.Harden.Run.{
  HardeningModule, Manifest, HardenOutcome, fix_all, default_modules, sanitize_timestamp, harden,
}
use secureops.Harden.Run.Original.{original}
use secureops.Harden.Rollback.{rollback, list_backups, strip_suffix}
use secureops.Harden.Rollback.Restored.{rollback-harden}

-- Every printed text reads back as `target`, and any other as `old`.
abbrev reading : OpenClawConfig ℕ → OpenClawConfig ℕ → String → OpenClawConfig ℕ
reading old target text = if str_eq text "new" then target else old

abbrev json : OpenClawConfig ℕ → OpenClawConfig ℕ → Json ℕ
json old target = record {
  from_json_or_default = reading old target;
  to_string_pretty = λ c. ok "new";
}

abbrev text_of : Result IoError String → String
text_of (ok text) = text
text_of (err e) = ""

reads_back :
    (old target : OpenClawConfig ℕ) (text : String)
    → ◌≡◌ {A = Result IoError String} (ok "new") (ok text)
    → reading old target text ≡ target
reads_back old target text e = subst (λ t. reading old target t ≡ target) (ap text_of e) refl

abbrev root : PathBuf
root = "root" ∷ []

abbrev backup : PathBuf
backup = "root" ∷ ".secureops" ∷ "backup" ∷ "2026-06-12T00-00-00Z" ∷ []

abbrev start : Disk
start q = if path_eq q (config_path root) then some "old" else none

abbrev weak : OpenClawConfig ℕ
weak = record default_config { gateway = some (token_mode "hunter2" default_gateway_config) }

abbrev strong_token : String
strong_token = "0123456789abcdef0123456789abcdef0123456789abcdef0123456789abcdef"

abbrev weak_hardened : OpenClawConfig ℕ
weak_hardened = record weak {
  gateway = some (harden_gateway strong_token (token_mode "hunter2" default_gateway_config)).0;
}

weak_reads :
    ReadsBack
      (json weak weak_hardened)
      (Gateway.harden_config disk
        (json weak weak_hardened)
        root
        strong_token
        (read_config disk (json weak weak_hardened) root start)).0
unfolding read_config
weak_reads = reads_back weak weak_hardened

no_errors :
    (Gateway.fix disk (json weak weak_hardened) root strong_token backup start).0.errors ≡ []
unfolding Gateway.fix Gateway.fix_inner write_config
no_errors = refl

fix-leftover_example :
    (run true
        (λ p. true)
        (read_config disk
          (json weak weak_hardened)
          root
          (Gateway.fix disk (json weak weak_hardened) root strong_token backup start).1).gateway
      ≡ leftover true
          (λ p. true)
          (hardened strong_token (token_mode "hunter2" default_gateway_config)))
    × All IsMinor (
        run true
          (λ p. true)
          (read_config disk
            (json weak weak_hardened)
            root
            (Gateway.fix disk (json weak weak_hardened) root strong_token backup start).1).gateway)
    × (GatewayCheck.check
          (read_config disk
            (json weak weak_hardened)
            root
            (Gateway.fix disk (json weak weak_hardened) root strong_token backup start).1).gateway
        ≡ own_leftover (Gateway.harden_auth strong_token (weak_auth "hunter2")).0)
unfolding read_config
fix-leftover_example =
    fix-leftover disk disk-IsSound (json weak weak_hardened) root backup (λ e. ground arith)
      strong_token start true (λ p. true) weak_reads no_errors

harden_gateway-weak_example :
    Has (gw_003 7) (
      run true
        (λ p. true)
        (some (harden_gateway strong_token (token_mode "hunter2" default_gateway_config)).0))
    × Has
        (action "gw-token-strength" "Regenerated stronger auth token" "length=7" "length=64")
        (harden_gateway strong_token (token_mode "hunter2" default_gateway_config)).1
unfolding byte_len concat show
harden_gateway-weak_example =
    harden_gateway-weak strong_token "hunter2" default_gateway_config true (λ p. true) refl
      (ground arith)

abbrev sandboxed : OpenClawConfig ℕ
sandboxed = record default_config {
  sandbox = some (record { mode = some "all"; scope = none; workspace_access = none });
}

abbrev sandboxed_hardened : OpenClawConfig ℕ
sandboxed_hardened = (Config.harden_config sandboxed).0

abbrev general : ChannelConfig
general = record {
  name = "general";
  dm_policy = some "open";
  group_policy = none;
  allowlist = none;
}

once : (Config.fix disk (json sandboxed sandboxed_hardened) root backup start).0.errors ≡ []
unfolding Config.fix write_config
once = refl

abbrev after : Disk
after = (Config.fix disk (json sandboxed sandboxed_hardened) root backup start).1

again : (Config.fix disk (json sandboxed sandboxed_hardened) root backup after).0.errors ≡ []
unfolding Config.fix write_config
again = refl

sandboxed_reads :
    ReadsBack
      (json sandboxed sandboxed_hardened)
      (Config.harden_config (read_config disk (json sandboxed sandboxed_hardened) root start)).0
unfolding read_config
sandboxed_reads = reads_back sandboxed sandboxed_hardened

fix-manual_example :
    check (read_config disk (json sandboxed sandboxed_hardened) root after) (general ∷ [])
    ≡ not_sandboxed none ∷ channel_findings (general ∷ [])
fix-manual_example =
    fix-manual disk disk-IsSound (json sandboxed sandboxed_hardened) root backup (λ e. ground arith)
      start (general ∷ []) sandboxed_reads once

fix-twice_example :
    ((Config.fix disk (json sandboxed sandboxed_hardened) root backup after).0.applied ≡ [])
    × (read_config disk
          (json sandboxed sandboxed_hardened)
          root
          (Config.fix disk (json sandboxed sandboxed_hardened) root backup after).1
        ≡ read_config disk (json sandboxed sandboxed_hardened) root after)
fix-twice_example =
    fix-twice disk disk-IsSound (json sandboxed sandboxed_hardened) root backup (λ e. ground arith)
      start sandboxed_reads once again

-- A module that finds nothing to do.
abbrev idle : ℕ → HardeningModule Disk
idle priority = record {
  name = "idle";
  priority = priority;
  fix = λ dir s. (record { module_name = "idle"; applied = []; skipped = []; errors = [] }, s);
}

abbrev to_manifest : Manifest → Result IoError String
to_manifest m = ok "{}"

abbrev now : String
now = "2026-06-12T00:00:00Z"

abbrev run_all : Result String HardenOutcome × Disk
run_all =
    harden disk to_manifest root
      (default_modules disk (json weak weak_hardened) root strong_token (idle 2) (idle 4) (idle 5))
      now start

abbrev outcome_of : Result String HardenOutcome → HardenOutcome
outcome_of (ok outcome) = outcome
outcome_of (err e) = record { backup_dir = []; results = [] }

harden_ok : run_all.0 ≡ ok (outcome_of run_all.0)
unfolding harden default_modules fix_all Gateway.fix Gateway.fix_inner Config.fix write_config
harden_ok = refl

listed : list_backups disk root run_all.1 ≡ "2026-06-12T00-00-00Z" ∷ []
unfolding list_backups
listed = refl

copied_back : (disk.copy (original root now) (config_path root) run_all.1).0 ≡ ok tt
unfolding harden default_modules fix_all Gateway.fix Gateway.fix_inner Config.fix write_config
    sanitize_timestamp
copied_back = refl

rollback-harden_example :
    (rollback disk root (some (sanitize_timestamp now)) run_all.1).1 (config_path root) ≡ some "old"
rollback-harden_example =
    rollback-harden disk disk-IsSound (json weak weak_hardened) to_manifest root now strong_token
      (idle 2) (idle 4) (idle 5) start "old" (outcome_of run_all.0) "2026-06-12T00-00-00Z" []
      (λ s. refl) (λ s. refl) (λ s. refl) refl harden_ok listed refl copied_back

-- What the run did in between.
harden_test : run_all.1 (config_path root) ≡ some "new"
unfolding harden default_modules fix_all Gateway.fix Gateway.fix_inner Config.fix write_config
harden_test = refl

sanitize_timestamp_test : sanitize_timestamp now ≡ "2026-06-12T00-00-00Z"
unfolding sanitize_timestamp
sanitize_timestamp_test = refl

strip_suffix_test : strip_suffix "-SOUL.md" "main-SOUL.md" ≡ some "main"
unfolding strip_suffix
strip_suffix_test = refl
