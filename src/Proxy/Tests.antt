-- ===== src/Proxy/Tests.antt =====
-- Runs of the proxy crate's tests, and instances of the theorems.
use secureops.Prelude.{ℕ, ◌≡◌, refl, none, some, List, [], ◌∷◌, ◌++◌, All, String, codes, arith, ok}
use secureops.Proxy.Parse.{Text, parse_connect_target, first_line, split_whitespace}
use secureops.Proxy.Parse.Target.{decimal, parse_connect_target-decimal}
use secureops.Proxy.Connection.{
  closed, open_mode, got, Net, asked, dialed, wrote, copied, request_of, handle_connection,
  allowlist_authorize,
}
use secureops.Proxy.Connection.Denied.{
  AllJustified, DialsIn, handle_connection-AllJustified, handle_connection-DialsIn,
}

parse_test :
    (parse_connect_target (codes "example.com:443") ≡ some (codes "example.com", 443))
    × (parse_connect_target (codes "example.com") ≡ some (codes "example.com", 443))
    × (parse_connect_target (codes "example.com:99999") ≡ none)
unfolding parse_connect_target
parse_test = (refl, refl, refl)

parse_connect_target-decimal_example :
    parse_connect_target (codes "api.example" ++ 58 ∷ decimal 8443)
    ≡ some (codes "api.example", 8443)
parse_connect_target-decimal_example =
    parse_connect_target-decimal (codes "api.example") 8443 (omega arith)

abbrev hosts : List Text
hosts = codes "good.example" ∷ []

abbrev client : String → Net
client request = record {
  reads = got (codes request) ∷ [];
  decode = λ bytes. bytes;
  authorize = allowlist_authorize hosts;
  dial = λ host port. ok tt;
  accept = ok tt;
  copy_bidirectional = ok tt;
}

-- The request head as a native string: each line ends in CR LF.
abbrev bytes_of : List ℕ → Net
bytes_of bytes = record (client "") { reads = got (bytes ++ 13 ∷ 10 ∷ 13 ∷ 10 ∷ []) ∷ [] }

abbrev evil : Net
evil = bytes_of (codes "CONNECT evil.example:443 HTTP/1.1")

abbrev good : Net
good = bytes_of (codes "CONNECT good.example:443 HTTP/1.1")

denied_test :
    (handle_connection evil closed).1
    ≡ asked (request_of (codes "evil.example") 443) ∷ wrote "HTTP/1.1 403 Forbidden" ∷ []
unfolding handle_connection parse_connect_target allowlist_authorize first_line split_whitespace
denied_test = refl

allowed_test :
    (handle_connection good closed).1
    ≡ asked (request_of (codes "good.example") 443)
      ∷ dialed (codes "good.example") 443
      ∷ wrote "HTTP/1.1 200 Connection Established"
      ∷ copied
      ∷ []
unfolding handle_connection parse_connect_target allowlist_authorize first_line split_whitespace
allowed_test = refl

handle_connection-AllJustified_example :
    AllJustified good open_mode [] (handle_connection good open_mode).1
handle_connection-AllJustified_example = handle_connection-AllJustified good open_mode

handle_connection-DialsIn_example : All (DialsIn hosts) (handle_connection good closed).1
handle_connection-DialsIn_example = handle_connection-DialsIn good hosts refl
