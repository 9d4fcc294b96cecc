-- ===== src/Bpf/Tests.antt =====
-- Runs of the bpf crate's tests, and instances of the theorems.
use secureops.Prelude.{ℤ, pos, ◌≡◌, refl, none, some, List, [], ◌∷◌, String, arith}
use secureops.Prelude.Map
use secureops.Prelude.Map.{ℤ-Key}
use secureops.Bpf.Events.{SyscallKind, openat, connect, SyscallEvent, is_secret_read}
use secureops.Bpf.Chain.{observe_at, new, prune}
use secureops.Bpf.Chain.Window.{
  Step, observed, pruned, after, pending, IsReport, observe_at-IsReport,
}

abbrev event : ℤ → SyscallKind → String → SyscallEvent
event pid kind path = record { pid = pid; comm = "agent"; kind = kind; path_or_host = path }

abbrev past : List Step
past =
    pruned 1300
    ∷ observed (event (pos 8) connect "5.6.7.8:443") 1200
    ∷ observed (event (pos 7) openat "/root/.env") 1000
    ∷ []

-- chain.rs:208: a secret read, and a dial-out within the window.
chain_test :
    (observe_at (event (pos 7) connect "1.2.3.4:443") 1400 (after 500 past)).0
    ≡ some (record {
      pid = pos 7;
      comm = "agent";
      cred_path = "/root/.env";
      dest = "1.2.3.4:443";
      gap_ms = 400;
    })
unfolding observe_at after new prune is_secret_read Map.get Map.insert Map.retain
chain_test = refl

-- chain.rs:231: one millisecond too late.
late_test : (observe_at (event (pos 7) connect "1.2.3.4:443") 1501 (after 500 past)).0 ≡ none
unfolding observe_at after new prune is_secret_read Map.get Map.insert Map.retain
late_test = refl

observe_at-IsReport_example :
    IsReport 500 1400
      (event (pos 7) connect "1.2.3.4:443")
      (pending (pos 7) past)
      (observe_at (event (pos 7) connect "1.2.3.4:443") 1400 (after 500 past)).0
observe_at-IsReport_example =
    observe_at-IsReport 500 1400 past (event (pos 7) connect "1.2.3.4:443")
      (omega arith, (omega arith, (omega arith, tt))) refl
