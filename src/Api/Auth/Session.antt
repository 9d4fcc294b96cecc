-- ===== src/Api/Auth/Session.antt =====
-- A session: from a token that the code mints to the principal that a request with it has.
use secureops.Prelude.{ℕ, ◌≡◌, ◌≤◌, refl, some, [], ◌∷◌, ◌++◌, arith, String, ok}
use secureops.Api.Models.{Claims}
use secureops.Api.Store.{Store}
use secureops.Api.Auth.{
  issuer, Text, Crypto, bearer, Header, strip_prefix, issue_jwt, verify_jwt, authenticate,
}

strip_prefix-append : (p s : Text) → strip_prefix p (p ++ s) ≡ some s
unfolding strip_prefix
strip_prefix-append [] s = refl
strip_prefix-append (a ∷ p) s = ground (arith, strip_prefix-append p s)

-- jsonwebtoken decodes what it encoded of the claims with the same secret, as long as the issuer is
-- the expected one and the token has not expired.
abbrev pub DecodesEncoded : Crypto → Claims → Type 0
DecodesEncoded c claims =
    (secret : String) (now : ℕ) (token : Text)
    → c.encode secret claims ≡ ok token
    → now ≤ claims.exp
    → c.decode secret claims.iss now token ≡ some claims

-- Where jsonwebtoken decodes what it encoded, a token minted for claims authenticates, until it
-- expires and whatever API key and store the request meets, as those claims with the issuer pinned.
pub authenticate-issue_jwt :
    (c : Crypto) (S : Store) (secret pepper : String) (claims : Claims) (token : Text) (now : ℕ)
    (api_key : Header) (s : S.State)
    → DecodesEncoded c (record claims { iss = issuer })
    → issue_jwt c secret claims ≡ ok token
    → now ≤ claims.exp
    → authenticate c S secret pepper now (some (some (bearer ++ token))) api_key s
      ≡ ok (record claims { iss = issuer })
unfolding issue_jwt verify_jwt authenticate
authenticate-issue_jwt c S secret pepper claims token now api_key s decodes minted fresh =
    rw (strip_prefix-append bearer token, decodes secret now token minted fresh) refl
