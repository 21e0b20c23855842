-- ===== src/Webhook/Protocol.antt =====
-- The signed headers of a webhook delivery (src/webhook/protocol.rs). Base64, SHA-256, HMAC and the `uuid`
-- crate are third-party code and parameters; an instant is in nanoseconds since the Unix epoch.
use solodock.Base.{
  ℕ, zero, suc, ◌+◌, ◌-◌, ◌*◌, ◌/◌, ◌%◌, ◌^◌, Bool, true, false, ◌&&◌, ◌||◌, not, Option, none,
  some, List, [], ◌∷◌, ◌++◌, ltb, leb, ◌==◌, if◌then◌else◌, length, all, Result, ok, err, ensure,
  ok_or, ◌>>=◌, ◌>>◌,
}
use solodock.Base.Text.{
  Text, lit, same, is_empty, is_digit, is_lower_hex, strip_prefix, starts_with,
}
use solodock.Database.{Uuid}
pub mod Window

pub data ProtocolError : Type 0 where
  header timestamp secret signature : ProtocolError

pub record VerifiedHeaders : Type 0 where
  pub timestamp : ℕ
  pub nonce : Text
  pub nonce_sha256 : List ℕ
  pub signature : List ℕ

-- `URL_SAFE_NO_PAD`, `Sha256::digest`, HMAC-SHA-256 under a key, and `Uuid::to_string`.
pub record Crates : Type 0 where
  pub decode : Text → Option (List ℕ)
  pub encode : List ℕ → Text
  pub sha256 : List ℕ → List ℕ
  pub hmac_sha256 : List ℕ → List ℕ → List ℕ
  pub uuid_to_string : Uuid → Text

abbrev pub timestamp_window_seconds : ℕ
timestamp_window_seconds = 300

-- The value of a text of digits, after the value `acc` of the digits before it.
unfoldable pub digits_value : ℕ → Text → ℕ
digits_value acc [] = acc
digits_value acc (b ∷ s) = digits_value (acc * 10 + (b - b'0')) s

-- The checks of the timestamp, and `parse::<i64>`, which refuses what does not fit.
unfoldable pub parse_timestamp : Text → Result ProtocolError ℕ
unfolding digits_value
parse_timestamp text = do
  ensure
      (not (
        is_empty text
        || ((ltb 1 (length text) && starts_with (lit "0") text) || not (all is_digit text))))
      ProtocolError.header
  let value = digits_value 0 text
  ensure (ltb value (2 ^ 63)) ProtocolError.header
  ok value

unfoldable pub hex_value : ℕ → Result ProtocolError ℕ
hex_value b =
    if leb b'0' b && leb b b'9'
    then ok (b - b'0')
    else if leb b'a' b && leb b b'f'
    then ok (b - b'a' + 10)
    else err ProtocolError.header

-- `as_chunks::<2>` and the loop over the pairs; an odd byte at the end is no pair.
unfoldable pub hex_pairs : Text → Result ProtocolError (List ℕ)
unfolding hex_value
hex_pairs [] = ok []
hex_pairs (a ∷ []) = ok []
hex_pairs (a ∷ b ∷ s) = do
  high ← hex_value a
  low ← hex_value b
  rest ← hex_pairs s
  ok ((high * 16 + low) ∷ rest)

unfoldable pub parse_signature : Text → Result ProtocolError (List ℕ)
unfolding hex_pairs
parse_signature text = do
  hex ← ok_or (strip_prefix (lit "v1=") text) ProtocolError.header
  ensure (length hex == 64 && all is_lower_hex hex) ProtocolError.header
  hex_pairs hex

-- `{n}` of a number that fits in an `i64`: 20 digits are enough.
unfoldable pub decimal : ℕ → ℕ → Text
decimal zero n = []
decimal (suc fuel) n =
    let rest = decimal fuel (n / 10) in
    if ltb n 10 then (n + b'0') ∷ [] else rest ++ (n % 10 + b'0') ∷ []

-- `{:x}` of a digest.
unfoldable pub hex_digit : ℕ → ℕ
hex_digit n = if ltb n 10 then n + b'0' else n - 10 + b'a'

unfoldable pub hex_text : List ℕ → Text
unfolding hex_digit
hex_text [] = []
hex_text (b ∷ s) = hex_digit (b / 16) ∷ hex_digit (b % 16) ∷ hex_text s

module _ (crates : Crates) where
  unfoldable pub parse_nonce : Text → Result ProtocolError (Unit {0})
  parse_nonce nonce = do
    decoded ← ok_or (crates.decode nonce) ProtocolError.header
    ensure (length decoded == 16 && same (crates.encode decoded) nonce) ProtocolError.header

  unfoldable pub parse_headers : Text → Text → Text → Result ProtocolError VerifiedHeaders
  unfolding parse_timestamp parse_nonce parse_signature
  parse_headers sent nonce signed = do
    seconds ← parse_timestamp sent
    parse_nonce nonce
    bytes ← parse_signature signed
    ok (record {
      timestamp = seconds;
      nonce = nonce;
      nonce_sha256 = crates.sha256 nonce;
      signature = bytes;
    })

  unfoldable pub signing_input : Uuid → List ℕ → ℕ → Text → Text
  unfolding decimal hex_text
  signing_input app_id body sent nonce =
      lit "solodock-webhook-v1"
      ++ 10 ∷ decimal 20 sent
      ++ 10 ∷ nonce
      ++ 10 ∷ lit "POST"
      ++ 10 ∷ lit "/hooks/v1/apps/"
      ++ crates.uuid_to_string app_id
      ++ lit "/registry"
      ++ 10 ∷ hex_text (crates.sha256 body)

  unfoldable pub decode_secret : Text → Result ProtocolError (List ℕ)
  decode_secret encoded = do
    decoded ← ok_or (crates.decode encoded) ProtocolError.secret
    ensure (length decoded == 32 && same (crates.encode decoded) encoded) ProtocolError.secret
    ok decoded

  -- `verify` checks the decoded secret again, with the same result.
  unfoldable pub verify :
      Uuid → List ℕ → VerifiedHeaders → Text → ℕ → Result ProtocolError (Unit {0})
  unfolding decode_secret signing_input
  verify app_id raw_body headers encoded now = do
    let seconds = now / 1000000000
    ensure
        (leb (seconds - headers.timestamp) timestamp_window_seconds
          && leb (headers.timestamp - seconds) timestamp_window_seconds)
        ProtocolError.timestamp
    decoded ← decode_secret encoded
    ensure (length decoded == 32 && same (crates.encode decoded) encoded) ProtocolError.secret
    let input = signing_input app_id raw_body headers.timestamp headers.nonce
    ensure (same (crates.hmac_sha256 decoded input) headers.signature) ProtocolError.signature
