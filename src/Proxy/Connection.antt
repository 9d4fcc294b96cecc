-- ===== src/Proxy/Connection.antt =====
-- crates/secureops-proxy/src/lib.rs: `handle_connection` and `AllowlistPdp`. The sockets and
-- the PDP are the parameter `n`, as the answers that they give; what the code does with them is the
-- list of events, the first one first.
pub mod Denied
use secureops.Prelude.{
  ℕ, ◌+◌, Bool, true, false, ◌&&◌, ◌||◌, Option, none, some, List, [], ◌∷◌, ◌++◌, String, Result,
  ok, err, any, codes, length, ltb, same, starts_with, if◌then◌else◌,
}
use secureops.Proxy.Parse.{Text, first_line, split_whitespace, parse_connect_target}

pub data Decision : Type 0 where
  allow deny escalate : Decision

pub record SocketAddr : Type 0 where
  pub ip : String
  pub port : ℕ

pub record PeekedHost : Type 0 where
  pub sni : Option Text
  pub requested_host : Option Text
  pub dest : SocketAddr

pub record ConnectionRequest : Type 0 where
  pub host : PeekedHost
  pub pid : Option ℕ

pub data FailMode : Type 0 where
  closed open_mode : FailMode

-- What one read of the client gives; a read of no bytes is the end.
pub data Read : Type 0 where
  got : List ℕ → Read
  failed : String → Read

pub record Net : Type 0 where
  -- the client's bytes, read by read; after the last it has closed
  pub reads : List Read
  -- `String::from_utf8_lossy`
  pub decode : List ℕ → Text
  -- `PolicyDecisionPoint::authorize`
  pub authorize : ConnectionRequest → Result String Decision
  pub dial : Text → ℕ → Result String (Unit {0})
  -- the write of the 200 response
  pub accept : Result String (Unit {0})
  pub copy_bidirectional : Result String (Unit {0})

pub data Event : Type 0 where
  asked : ConnectionRequest → Event
  dialed : Text → ℕ → Event
  wrote : String → Event
  copied : Event

-- CR LF CR LF
abbrev blank_line : List ℕ
blank_line = 13 ∷ 10 ∷ 13 ∷ 10 ∷ []

abbrev has_blank_line : List ℕ → Bool
has_blank_line [] = false
has_blank_line (b ∷ buf) = starts_with (b ∷ buf) blank_line || has_blank_line buf

-- The loop over the reads: nothing where the client closes before the end of the headers.
unfoldable pub read_head : List ℕ → List Read → Result String (Option (List ℕ))
read_head buf [] = ok none
read_head buf (failed e ∷ rest) = err e
read_head buf (got [] ∷ rest) = ok none
read_head buf (got (b ∷ bytes) ∷ rest) =
    let buf' = buf ++ b ∷ bytes in
    let more = read_head buf' rest in
    if has_blank_line buf' || ltb 16384 (length buf') then ok (some buf') else more

abbrev pub request_of : Text → ℕ → ConnectionRequest
request_of host port = record {
  host = record {
    sni = none;
    requested_host = some host;
    dest = record { ip = "0.0.0.0"; port = port };
  };
  pid = none;
}

-- An error of the PDP is a denial, unless the proxy fails open.
unfoldable pub settle : FailMode → Result String Decision → Decision
settle mode (ok d) = d
settle closed (err e) = deny
settle open_mode (err e) = allow

abbrev bad_request : Result String (Unit {0}) × List Event
bad_request = (ok tt, wrote "HTTP/1.1 400 Bad Request" ∷ [])

abbrev then_do :
    Event → Result String (Unit {0}) × List Event → Result String (Unit {0}) × List Event
then_do e (r, es) = (r, e ∷ es)

module _ (n : Net) where
  -- After the upstream has accepted.
  abbrev pub splice : Result String (Unit {0}) → Result String (Unit {0}) × List Event
  splice (err e) = (err e, [])
  splice (ok u) =
      then_do (wrote "HTTP/1.1 200 Connection Established") (n.copy_bidirectional, copied ∷ [])

  abbrev pub connect_upstream : Result String (Unit {0}) → Result String (Unit {0}) × List Event
  connect_upstream (err e) = (ok tt, wrote "HTTP/1.1 502 Bad Gateway" ∷ [])
  connect_upstream (ok u) = splice n.accept

  abbrev pub on_decision : Text → ℕ → Decision → Result String (Unit {0}) × List Event
  on_decision host port allow = then_do (dialed host port) (connect_upstream (n.dial host port))
  on_decision host port _ = (ok tt, wrote "HTTP/1.1 403 Forbidden" ∷ [])

  abbrev pub on_target : FailMode → Option (Text × ℕ) → Result String (Unit {0}) × List Event
  on_target mode none = bad_request
  on_target mode (some (host, port)) =
      then_do (asked (request_of host port))
        (on_decision host port (settle mode (n.authorize (request_of host port))))

  abbrev pub on_words : FailMode → List Text → Result String (Unit {0}) × List Event
  on_words mode (method ∷ target ∷ rest) =
      if same method (codes "CONNECT")
      then on_target mode (parse_connect_target target)
      else bad_request
  on_words mode _ = bad_request

  abbrev pub on_head :
      FailMode → Result String (Option (List ℕ)) → Result String (Unit {0}) × List Event
  on_head mode (err e) = (err e, [])
  on_head mode (ok none) = (ok tt, [])
  on_head mode (ok (some buf)) = on_words mode (split_whitespace (first_line (n.decode buf)))

  unfoldable pub handle_connection : FailMode → Result String (Unit {0}) × List Event
  unfolding read_head settle
  handle_connection mode = on_head mode (read_head [] n.reads)

abbrev or_else : Option Text → Option Text → Option Text
or_else none b = b
or_else (some a) b = some a

abbrev or_empty : Option Text → Text
or_empty none = []
or_empty (some t) = t

-- `AllowlistPdp::authorize`
unfoldable pub allowlist_authorize : List Text → ConnectionRequest → Result String Decision
allowlist_authorize hosts req =
    let host = or_empty (or_else req.host.requested_host req.host.sni) in
    ok (if any (same host) hosts then allow else deny)
