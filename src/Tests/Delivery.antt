-- ===== src/Tests/Delivery.antt =====
-- The signed headers of a delivery (src/webhook/protocol.rs) with transparent stand-ins for the crates.
use solodock.Base.{◌≡◌, refl, some, [], ◌∷◌, ok}
use solodock.Base.Text.{strip_prefix, same, Text, lit}
use solodock.Webhook.Protocol.{
  parse_signature, parse_nonce, parse_timestamp, decode_secret, Crates, VerifiedHeaders, verify,
  parse_headers,
}
use solodock.Webhook.Protocol.Window.{Accepted, verify-Accepted}

abbrev crates : Crates
crates = record {
  decode = λ s. some s;
  encode = λ s. s;
  sha256 = λ s. [];
  hmac_sha256 = λ key input. key;
  uuid_to_string = λ id. lit "app";
}

abbrev secret : Text
secret = lit "0123456789abcdef0123456789abcdef"

abbrev headers : VerifiedHeaders
headers = record { timestamp = 1000; nonce = lit "nonce"; nonce_sha256 = []; signature = secret }

-- The header texts of a delivery.
headers_are_read :
    parse_headers crates
      (lit "1000")
      (lit "0123456789abcdef")
      (lit "v1=00ff00ff00ff00ff00ff00ff00ff00ff00ff00ff00ff00ff00ff00ff00ff00ff")
    ≡ ok (record {
      timestamp = 1000;
      nonce = lit "0123456789abcdef";
      nonce_sha256 = [];
      signature =
          0 ∷ 255 ∷ 0 ∷ 255 ∷ 0 ∷ 255 ∷ 0 ∷ 255 ∷ 0 ∷ 255 ∷ 0 ∷ 255 ∷ 0 ∷ 255 ∷ 0 ∷ 255 ∷ 0 ∷ 255
          ∷ 0 ∷ 255 ∷ 0 ∷ 255 ∷ 0 ∷ 255 ∷ 0 ∷ 255 ∷ 0 ∷ 255 ∷ 0 ∷ 255 ∷ 0 ∷ 255 ∷ [];
    })
unfolding parse_headers parse_timestamp parse_nonce parse_signature strip_prefix same
headers_are_read = refl

-- A delivery that is 300 seconds early is accepted, and once more 600 seconds later.
verify-Accepted_example : Accepted crates 1 [] headers secret 700500000000
unfolding verify decode_secret same
verify-Accepted_example = verify-Accepted crates 1 [] headers secret 700500000000 refl
