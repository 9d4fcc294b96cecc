-- ===== src/Api/Store/Pages.antt =====
-- `list_findings`: its pages.
use secureops.Prelude.{ℕ, ◌+◌, ◌≤◌, ◌≡◌, ◌++◌, arith, String, pos, skip, take-skip, skip-skip}
use secureops.Api.Models.{FindingFilter}
use secureops.Api.Store.{Mem, limit_of, matching, list_findings}

abbrev pub page : FindingFilter → ℕ → ℕ → FindingFilter
page f offset limit = record f { limit = pos limit; offset = pos offset }

limit_of-pos : (n : ℕ) → 1 ≤ n → limit_of (pos n) ≡ n
limit_of-pos n h = ground arith

-- The page after one that started at an offset and had a limit, both positive, continues it: two
-- pages that follow each other hold what one page with both limits holds, in the same order.
pub list_findings-append :
    (tenant : String) (f : FindingFilter) (offset n m : ℕ) (s : Mem)
    → 1 ≤ n
    → 1 ≤ m
    → list_findings tenant (page f offset n) s ++ list_findings tenant (page f (offset + n) m) s
      ≡ list_findings tenant (page f offset (n + m)) s
unfolding list_findings
list_findings-append tenant f offset n m s hn hm =
    let xs = matching tenant f s.findings in
    rw
      (
        limit_of-pos n hn,
        limit_of-pos m hm,
        limit_of-pos (n + m) (omega arith),
        ← skip-skip offset n xs,
      )
      (take-skip n m (skip offset xs))
