-- ===== src/Tests/Uri.antt =====
-- Runs of the URI recogniser, from uri_test.cc.
use protovalidate_cc.Base.{◌≡◌, refl, true, false, codes}
use protovalidate_cc.Uri.Sound.{
  UriText, UriReference, validate_uri_sound, validate_uri_reference_sound,
}
use protovalidate_cc.Uri.{validate_uri, validate_uri_reference}

uris :
    (validate_uri (codes "https://user@example.com:80/a/%20b?q=1#f") ≡ true)
    × (validate_uri (codes "https://[::1%25eth0]:/") ≡ true)
    × (validate_uri (codes "https://[v1.x]") ≡ true)
    × (validate_uri (codes "./relative") ≡ false)
    × (validate_uri (codes "https://a b") ≡ false)
    × (validate_uri_reference (codes "./relative") ≡ true)
    × (validate_uri_reference (codes "//host/p?%") ≡ false)
    × (validate_uri (codes "https://%F4%90%80%80") ≡ true)
    × (validate_uri (codes "https://%ED%A0%80") ≡ true)
    × (validate_uri (codes "https://[::1:]/") ≡ true)
unfolding validate_uri validate_uri_reference
uris = (refl, refl, refl, refl, refl, refl, refl, refl, refl, refl)

uri_accepted : validate_uri (codes "https://user@example.com:80/a/%20b?q=1#f") ≡ true
unfolding validate_uri
uri_accepted = refl

validate_uri_sound_example : UriText (codes "https://user@example.com:80/a/%20b?q=1#f")
validate_uri_sound_example =
    validate_uri_sound (codes "https://user@example.com:80/a/%20b?q=1#f") uri_accepted

reference_accepted : validate_uri_reference (codes "./relative") ≡ true
unfolding validate_uri_reference
reference_accepted = refl

validate_uri_reference_sound_example : UriReference (codes "./relative")
validate_uri_reference_sound_example =
    validate_uri_reference_sound (codes "./relative") reference_accepted
