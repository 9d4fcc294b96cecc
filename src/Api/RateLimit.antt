-- ===== src/Api/RateLimit.antt =====
-- crates/secureops-api/src/ratelimit.rs: `RateLimiter`. Seconds and window lengths are natural
-- numbers; `now - start >= window` is written as `start + window <= now`. A count is a u32.
pub mod Budget
use secureops.Prelude.{
  ℕ, ◌+◌, ◌%◌, Bool, true, false, ◌||◌, Option, none, some, List, [], ◌∷◌, String, codes, ends_with,
  concat, length, ltb, leb, if◌then◌else◌,
}
use secureops.Prelude.Map
use secureops.Prelude.Map.{String-Key}

-- The start of a window and the count in it.
abbrev pub Window : Type 0
Window = ℕ × ℕ

pub record RateLimiter : Type 0 where
  pub windows : List (String × Window)
  pub window_secs : ℕ
  pub global_limit : ℕ
  pub auth_limit : ℕ

-- `RateLimiter::new`
abbrev pub new : ℕ → ℕ → ℕ → RateLimiter
new window global auth = record {
  windows = [];
  window_secs = window;
  global_limit = global;
  auth_limit = auth;
}

abbrev pub default_limits : RateLimiter
default_limits = new 60 600 30

abbrev pub is_live : ℕ → ℕ → String → Window → Bool
is_live window now key (start, count) = ltb now (start + window)

-- The map after the opportunistic cleanup.
pub cleaned : ℕ → RateLimiter → List (String × Window)
cleaned now l =
    if ltb 100000 (length l.windows)
    then Map.retain (is_live l.window_secs now) l.windows
    else l.windows

-- The entry of the key, in a window that has not ended.
pub current : ℕ → ℕ → Option Window → Window
current window now none = (now, 0)
current window now (some (start, count)) =
    if leb (start + window) now then (now, 0) else (start, count)

abbrev hit : Window → Window
hit (start, count) = (start, (count + 1) % 4294967296)

abbrev within : ℕ → Window → Bool
within limit (start, count) = leb count limit

unfoldable pub allow : String → ℕ → ℕ → RateLimiter → Bool × RateLimiter
unfolding cleaned current
allow key limit now l =
    let windows = cleaned now l in
    let entry = hit (current l.window_secs now (Map.get key windows)) in
    (within limit entry, record l { windows = Map.insert key entry windows })

unfoldable pub is_auth_path : String → Bool
is_auth_path path =
    ends_with (codes path) (codes "/license/activate")
    || ends_with (codes path) (codes "/auth/oidc/callback")

-- The limit and the key that `enforce` asks `allow` for.
unfoldable pub enforce : String → String → ℕ → RateLimiter → Bool × RateLimiter
unfolding is_auth_path concat
enforce path ip now l =
    if is_auth_path path
    then allow (concat ("auth" ∷ ":" ∷ ip ∷ [])) l.auth_limit now l
    else allow (concat ("global" ∷ ":" ∷ ip ∷ [])) l.global_limit now l
