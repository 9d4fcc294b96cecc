-- ===== src/Proxy/Connection/Denied.antt =====
-- crates/secureops-proxy/src/lib.rs: the events of `handle_connection`.
use secureops.Prelude.{
  ℕ, ◌≡◌, ◌≢◌, ◌⊎◌, inl, inr, refl, subst, true, Has, Bool-cases, Option, none, some, List, [], ◌∷◌,
  All, String, Result, ok, err, any, codes, same, arith,
}
use secureops.Proxy.Parse.{Text, first_line, split_whitespace, parse_connect_target}
use secureops.Proxy.Connection.{
  Decision, allow, deny, escalate, ConnectionRequest, FailMode, closed, open_mode, Net, Event,
  asked, dialed, wrote, copied, request_of, settle, splice, connect_upstream, on_decision,
  on_target, on_words, on_head, read_head, handle_connection, allowlist_authorize,
}

-- A request for a host and a port, as the client names them.
abbrev pub Names : Text → ℕ → ConnectionRequest → Type 0
Names host port req = (req.host.requested_host ≡ some host) × (req.host.dest.port ≡ port)

module _ (n : Net) (mode : FailMode) where
  -- The PDP allows a request, or fails while the proxy fails open.
  abbrev pub Passes : ConnectionRequest → Type 0
  Passes req =
      (n.authorize req ≡ ok allow)
      ⊎ ((mode ≡ open_mode) × ((e : String) × (n.authorize req ≡ err e)))

  -- A dial comes after the question to the PDP, for its host and port, that lets it pass.
  abbrev pub IsJustified : List Event → Event → Type 0
  IsJustified past (dialed host port) =
      (req : ConnectionRequest) × Names host port req × Has (asked req) past × Passes req
  IsJustified past _ = Unit

  -- Every event is justified by those before it, the latest of which comes first in `past`.
  abbrev pub AllJustified : List Event → List Event → Type 0
  AllJustified past [] = Unit
  AllJustified past (e ∷ es) = IsJustified past e × AllJustified (e ∷ past) es

  settle-Passes :
      (req : ConnectionRequest) (m : FailMode) (r : Result String Decision)
      → mode ≡ m
      → n.authorize req ≡ r
      → settle m r ≡ allow
      → Passes req
  unfolding settle
  settle-Passes req m (ok allow) s e h = inl e
  settle-Passes req m (ok deny) s e h = ground arith
  settle-Passes req m (ok escalate) s e h = ground arith
  settle-Passes req closed (err x) s e h = ground arith
  settle-Passes req open_mode (err x) s e h = inr (s, (x, e))

  splice-AllJustified :
      (past : List Event) (r : Result String (Unit {0})) → AllJustified past (splice n r).1
  splice-AllJustified past (ok u) = (tt, (tt, tt))
  splice-AllJustified past (err e) = tt

  connect_upstream-AllJustified :
      (past : List Event) (r : Result String (Unit {0}))
      → AllJustified past (connect_upstream n r).1
  connect_upstream-AllJustified past (ok u) = splice-AllJustified past n.accept
  connect_upstream-AllJustified past (err e) = (tt, tt)

  on_decision-AllJustified :
      (host : Text) (port : ℕ) (d : Decision)
      → settle mode (n.authorize (request_of host port)) ≡ d
      → AllJustified (asked (request_of host port) ∷ []) (on_decision n host port d).1
  on_decision-AllJustified host port allow e = (
    (
      request_of host port,
      (refl, refl),
      inl refl,
      settle-Passes (request_of host port) mode _ refl refl e,
    ),
    connect_upstream-AllJustified _ (n.dial host port),
  )
  on_decision-AllJustified host port deny e = (tt, tt)
  on_decision-AllJustified host port escalate e = (tt, tt)

  on_target-AllJustified : (t : Option (Text × ℕ)) → AllJustified [] (on_target n mode t).1
  on_target-AllJustified none = (tt, tt)
  on_target-AllJustified (some (host, port)) = (tt, on_decision-AllJustified host port _ refl)

  on_words-AllJustified : (words : List Text) → AllJustified [] (on_words n mode words).1
  on_words-AllJustified [] = (tt, tt)
  on_words-AllJustified (method ∷ []) = (tt, tt)
  on_words-AllJustified (method ∷ target ∷ rest) =
      elim (Bool-cases (same method (codes "CONNECT"))) [
        | inl is_connect ↦ rw is_connect (on_target-AllJustified (parse_connect_target target))
        | inr other ↦ rw other (tt, tt)
      ]

  on_head-AllJustified :
      (r : Result String (Option (List ℕ))) → AllJustified [] (on_head n mode r).1
  on_head-AllJustified (err e) = tt
  on_head-AllJustified (ok none) = tt
  on_head-AllJustified (ok (some buf)) =
      on_words-AllJustified (split_whitespace (first_line (n.decode buf)))

  -- Whatever a client sends and however the sockets answer, the proxy dials a host and port only
  -- after it has asked the PDP of a request for exactly that host and port, and the PDP has allowed
  -- it, or has failed while the proxy fails open.
  pub handle_connection-AllJustified : AllJustified [] (handle_connection n mode).1
  unfolding handle_connection
  handle_connection-AllJustified = on_head-AllJustified (read_head [] n.reads)

-- The dialed host is one of the list.
abbrev pub DialsIn : List Text → Event → Type 0
DialsIn hosts (dialed host port) = any (same host) hosts ≡ true
DialsIn hosts _ = Unit

listed :
    (hosts : List Text) (host : Text) (port : ℕ) (req : ConnectionRequest)
    → Names host port req
    → allowlist_authorize hosts req ≡ ok allow
    → any (same host) hosts ≡ true
unfolding allowlist_authorize
listed hosts host port req names e = elim (Bool-cases (any (same host) hosts)) [
  | inl found ↦ found
  | inr missing ↦ ground (arith, e, missing, names.0)
]

never_fails :
    (hosts : List Text) (req : ConnectionRequest) (e : String)
    → allowlist_authorize hosts req ≢ err e
unfolding allowlist_authorize
never_fails hosts req e h = ground arith

passed_listed :
    (n : Net) (hosts : List Text) (host : Text) (port : ℕ) (req : ConnectionRequest)
    → n.authorize ≡ allowlist_authorize hosts
    → Names host port req
    → Passes n closed req
    → any (same host) hosts ≡ true
passed_listed n hosts host port req a names (inl e) =
    listed hosts host port req names (subst (λ f. f req ≡ ok allow) a e)
passed_listed n hosts host port req a names (inr (m, (e, failed_with))) =
    absurd (never_fails hosts req e (subst (λ f. f req ≡ err e) a failed_with))

IsJustified-DialsIn :
    (n : Net) (hosts : List Text) (past : List Event) (e : Event)
    → n.authorize ≡ allowlist_authorize hosts
    → IsJustified n closed past e
    → DialsIn hosts e
IsJustified-DialsIn n hosts past (asked req) a j = tt
IsJustified-DialsIn n hosts past (dialed host port) a (req, names, before, passes) =
    passed_listed n hosts host port req a names passes
IsJustified-DialsIn n hosts past (wrote text) a j = tt
IsJustified-DialsIn n hosts past copied a j = tt

All-DialsIn :
    (n : Net) (hosts : List Text) (past es : List Event)
    → n.authorize ≡ allowlist_authorize hosts
    → AllJustified n closed past es
    → All (DialsIn hosts) es
All-DialsIn n hosts past [] a j = tt
All-DialsIn n hosts past (e ∷ es) a j =
    (IsJustified-DialsIn n hosts past e a j.0, All-DialsIn n hosts (e ∷ past) es a j.1)

-- A proxy that fails closed, in front of an `AllowlistPdp`, dials no host that the list does not
-- have, whatever the client sends.
pub handle_connection-DialsIn :
    (n : Net) (hosts : List Text)
    → n.authorize ≡ allowlist_authorize hosts
    → All (DialsIn hosts) (handle_connection n closed).1
handle_connection-DialsIn n hosts a =
    All-DialsIn n hosts [] _ a (handle_connection-AllJustified n closed)
