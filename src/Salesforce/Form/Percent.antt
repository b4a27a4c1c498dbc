-- ===== src/Salesforce/Form/Percent.antt =====
-- FormEncode of src/salesforce_oauth_provider.cpp and PercentEncode of src/oauth_pkce.cpp agree.
use duckdb_data.Pkce.Url.{percent_encode_byte, percent_encode}
use duckdb_data.Salesforce.Form.{form_encode}
use duckdb_data.Base.{◌≡◌, refl, [], ◌∷◌, arith, Bytes}

-- The encoder of the token requests and that of the authorization URL give the same text for every
-- value.
pub form_encode-percent_encode : (value : Bytes) → form_encode value ≡ percent_encode value
unfolding form_encode percent_encode percent_encode_byte
form_encode-percent_encode [] = refl
form_encode-percent_encode (c ∷ value) = ground (arith, form_encode-percent_encode value)
