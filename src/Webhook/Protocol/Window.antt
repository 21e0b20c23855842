-- ===== src/Webhook/Protocol/Window.antt =====
-- Which deliveries `verify` accepts, and for how long (src/webhook/protocol.rs).
use solodock.Base.{
  sym, ◌∙◌, ap, ℕ, ◌+◌, ◌-◌, ◌/◌, ◌≤◌, ◌≡◌, inl, inr, Bool, true, ◌&&◌, some, List, Option-cases,
  Bool-cases, Result-cases, Result, ok, err, length, arith, leb, ◌==◌, ==_iff,
}
use solodock.Base.Text.{Text, same, same_iff}
use solodock.Database.{Uuid}
use solodock.Webhook.Protocol.{
  timestamp_window_seconds, Crates, VerifiedHeaders, ProtocolError, verify, decode_secret,
  signing_input,
}

abbrev from_ok {ℓ} : {A : Type ℓ} → A → Result ProtocolError A → A
from_ok a (ok b) = b
from_ok a (err e) = a

and_true : (a b : Bool) → a && b ≡ true → (a ≡ true) × (b ≡ true)
and_true a b h = ground arith

module _ (crates : Crates) where
  -- What an accepted delivery has: a timestamp at most 300 seconds from the second of the check, and the
  -- signature under the 32 bytes of the secret.
  pub record Accepted (app_id : Uuid) (raw_body : List ℕ) (headers : VerifiedHeaders)
      (encoded : Text) (now : ℕ) : Type 0 where
    pub not_late : now / 1000000000 ≤ headers.timestamp + 300
    pub not_early : headers.timestamp ≤ now / 1000000000 + 300
    pub key : List ℕ
    pub key_bytes : length key ≡ 32
    pub decodes : crates.decode encoded ≡ some key
    pub signed :
        crates.hmac_sha256 key
          (signing_input crates app_id raw_body headers.timestamp headers.nonce)
        ≡ headers.signature

  decode_secret_lem :
      (encoded : Text) (key : List ℕ)
      → decode_secret crates encoded ≡ ok key
      → (crates.decode encoded ≡ some key) × (length key ≡ 32)
  unfolding decode_secret
  decode_secret_lem encoded key h = elim (Option-cases (crates.decode encoded)) [
    | inl e ↦ let bad = rw (decode_secret, e) at h in cc
    | inr (bytes, e) ↦
        elim (Bool-cases (length bytes == 32 && same (crates.encode bytes) encoded)) [
          | inr f ↦ let bad = rw (decode_secret, e, f) at h in cc
          | inl t ↦
              let same_key = ap (from_ok key) (rw (decode_secret, e, t) at h) in
              (e ∙ ap some same_key, ap length (sym same_key) ∙ (==_iff _ _).0 (and_true _ _ t).0)
        ]
  ]

  -- A delivery that `verify` accepts has a timestamp at most 300 seconds from the second of the check,
  -- and is signed, with the application, the timestamp, the nonce and the body, under the 32 bytes that
  -- the secret encodes.
  pub verify-Accepted :
      (app_id : Uuid) (raw_body : List ℕ) (headers : VerifiedHeaders) (encoded : Text) (now : ℕ)
      → verify crates app_id raw_body headers encoded now ≡ ok tt
      → Accepted app_id raw_body headers encoded now
  unfolding verify decode_secret
  verify-Accepted app_id raw_body headers encoded now h =
      let seconds = now / 1000000000 in
      elim (Bool-cases (
        leb (seconds - headers.timestamp) timestamp_window_seconds
        && leb (headers.timestamp - seconds) timestamp_window_seconds)) [
          | inr f ↦ let bad = rw (verify, f) at h in cc
          | inl t ↦ elim (Result-cases (decode_secret crates encoded)) [
            | inr (e, f) ↦ let bad = rw (verify, t, f) at h in cc
            | inl (key, k) ↦
                elim (Bool-cases (length key == 32 && same (crates.encode key) encoded)) [
                  | inr f ↦ let bad = rw (verify, t, k, f) at h in cc
                  | inl again ↦
                      elim (Bool-cases (
                        same
                          (crates.hmac_sha256 key
                            (signing_input crates app_id raw_body headers.timestamp headers.nonce))
                          headers.signature)) [
                            | inr f ↦ let bad = rw (verify, t, k, again, f) at h in cc
                            | inl signed ↦
                                let (d, n) = decode_secret_lem encoded key k in
                                record {
                                  not_late = ground arith;
                                  not_early = ground arith;
                                  key = key;
                                  key_bytes = n;
                                  decodes = d;
                                  signed = (same_iff _ _).0 signed;
                                }
                          ]
                ]
          ]
        ]

  -- The checks that accept the same signed headers are 600 seconds apart at most, counted in whole
  -- seconds.
  pub verify_span :
      (app_id : Uuid) (raw_body other_body : List ℕ) (headers : VerifiedHeaders)
      (encoded other : Text) (now later : ℕ)
      → verify crates app_id raw_body headers encoded now ≡ ok tt
      → verify crates app_id other_body headers other later ≡ ok tt
      → later / 1000000000 ≤ now / 1000000000 + 600
  verify_span app_id raw_body other_body headers encoded other now later h k =
      let first = verify-Accepted app_id raw_body headers encoded now h in
      let second = verify-Accepted app_id other_body headers other later k in
      omega (arith, first.not_early, second.not_late)
