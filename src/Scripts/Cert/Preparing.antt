-- ===== src/Scripts/Cert/Preparing.antt =====
-- UserCertExternalAuthenticator.py: `prepareForStep`, which takes the certificate from the request.
use Prim.Native.String.{[], ◌∷◌}
use community_edition_setup.Prelude.{
  ℕ, zero, suc, ◌-◌, String, Option, none, some, Bool, true, List, if◌then◌else◌, ltb, ◌=ℕ◌, Result,
  ok, err,
}
use community_edition_setup.Prelude.Text.{starts_with, strip, is_space, length as text_length}
use community_edition_setup.Scripts.Cert.{Settings, RecaptchaCreds}
use community_edition_setup.Scripts.Cert.Steps.{Services, State}

-- `text.replace(sub, "")`, where `skip` characters of an occurrence are still to be left out.
unfoldable pub left_out : String → ℕ → String → String
left_out sub skip [] = []
left_out sub (suc skip) (c ∷ s) = left_out sub skip s
left_out sub zero (c ∷ s) =
    let found = starts_with (c ∷ s) sub in
    let rest = left_out sub (if found then text_length sub - 1 else 0) s in
    if found then rest else c ∷ rest

-- The base64 text of `certFromPemString`.
unfoldable pub pem_body : String → String
pem_body pem =
    strip is_space
      (left_out "-----END CERTIFICATE-----" 0 (left_out "-----BEGIN CERTIFICATE-----" 0 pem))

module _ {Chain : Type 0} (s : Services Chain) (k : Settings Chain) where
  -- `certToString`
  abbrev cert_to_string : Option s.Certificate → Option String
  cert_to_string none = none
  cert_to_string (some cert) = some (s.encode cert)

  abbrev with_cert : State s k → Option String → State s k
  with_cert st text = record st { parameters = record st.parameters { cert_x509 = some text } }

  unfoldable pub store_header : State s k → Result (Option s.Certificate) → State s k × Result Bool
  store_header st (err raised) = (st, err raised)
  store_header st (ok cert) = (with_cert st (cert_to_string cert), ok true)

  unfoldable pub store_attribute : State s k → Option (List s.Certificate) → State s k × Result Bool
  store_attribute st none = (st, ok true)
  store_attribute st (some List.[]) = (st, ok true)
  store_attribute st (some (List.◌∷◌ cert certs)) =
      (with_cert st (cert_to_string (some cert)), ok true)

  -- Step 2, with the header `X-ClientCert` and the certificates of the connection.
  unfoldable pub store_certificate :
      Option String → Option (List s.Certificate) → State s k → State s k × Result Bool
  store_certificate (some header) certs st = store_header st (s.decode (pem_body header))
  store_certificate none certs st = store_attribute st certs

  abbrev pub set_site_key : Option RecaptchaCreds → State s k → State s k
  set_site_key none st = st
  set_site_key (some creds) st = record st {
    parameters = record st.parameters { recaptcha_site_key = some creds.site_key };
  }

  unfoldable pub prepare_for_step :
      Option String → Option (List s.Certificate) → ℕ → State s k → State s k × Result Bool
  prepare_for_step header certs step st =
      if step =ℕ 1
      then (set_site_key k.recaptcha_creds st, ok true)
      else if step =ℕ 2
      then store_certificate header certs st
      else (st, ok (ltb step 4))
