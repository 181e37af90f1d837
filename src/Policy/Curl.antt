-- ===== src/Policy/Curl.antt =====
-- The address and the headers of a probe with curl that src/changes/policy.js allows.
use grouvi_nox.Prelude.{
  Bool, List, Option, String, [], all, any, codes, false, not, select, some, true, ◌||◌, ◌∷◌, ◌≡◌,
  ◌⊎◌,
}
use grouvi_nox.Policy.Texts.{Text, utf16, among, is_blank}
use grouvi_nox.Policy.Proposals.{Url}
use grouvi_nox.Policy.Probes.{is_option}
use grouvi_nox.Policy.Allowed.{CurlArgs, is_loopback, is_metadata}
use grouvi_nox.Policy.CurlWords.{asks_head, with_values, without_values, is_harmless}

-- One address, on the web and without credentials, which is no metadata service, and harmless headers;
-- a request that is no HEAD names a host of the machine.
pub record IsTame (parse_url : Text → Option Url) (args : List String) : Type 0 where
  pub address : String
  pub only : select (λ a. not (is_option a)) (without_values args) ≡ address ∷ []
  pub url : Url
  pub parsed : parse_url (utf16 address) ≡ some url
  pub on_web : among (codes "http:" ∷ codes "https:" ∷ []) url.protocol ≡ true
  pub no_username : is_blank url.username ≡ true
  pub no_password : is_blank url.password ≡ true
  pub no_metadata : is_metadata url.hostname ≡ false
  pub harmless : all is_harmless (with_values args) ≡ true
  pub stays : (any asks_head (without_values args) ≡ true) ⊎ (is_loopback url.hostname ≡ true)

abbrev is_odd_url : Url → Bool
is_odd_url u =
    not (among (codes "http:" ∷ codes "https:" ∷ []) u.protocol)
    || not (is_blank u.username)
    || not (is_blank u.password)
