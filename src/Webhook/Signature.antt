-- ===== src/Webhook/Signature.antt =====
-- packages/api/src/modules/webhook/signature.ts. Node's crypto and `Number` are arguments. Arithmetic on
-- numbers is exact here: a double's rounding is left out.
use Prim.Native.String.{◌++◌}
use mini_rewards_integration.Prelude.{
  ℕ, ◌+◌, ◌*◌, ◌^◌, ◌≤◌, String, Bool, false, not, ◌≡◌, ◌↔◌, Option, none, some, ◌==◌, inl, inr,
  refl, arith, eq_iff, eq_refl, ltb, eqb, or_default, Option-cases, if◌then◌else◌,
}
use mini_rewards_integration.Prelude.Int.{ℤ, pos, pos_part, neg_part, sub_ℕ, ◌+ℤ◌, negate, abs}

-- A finite double: `numerator / 2 ^ bits`.
pub record Finite : Type 0 where
  pub numerator : ℤ
  pub bits : ℕ

-- The double of a whole number.
abbrev pub whole : ℕ → Finite
whole n = record { numerator = pos n; bits = 0 }

pub record Crypto : Type 0 where
  -- `createHmac('sha256', secret).update(message).digest('hex')`
  pub hmac : String → String → String
  -- `Buffer.from(text, 'utf8').length`, and `timingSafeEqual` on two such buffers
  pub byte_length : String → ℕ
  pub timing_safe_equal : String → String → Bool
  -- `Number(text)`; none where it is not finite
  pub number : String → Option Finite

abbrev pub replay_window_ms : ℕ
replay_window_ms = 5 * 60 * 1000

unfoldable pub sign : Crypto → String → String → String → String
sign crypto secret timestamp raw_body = crypto.hmac secret (timestamp ++ "." ++ raw_body)

pub data SignatureFailure : Type 0 where
  missing_signature missing_timestamp malformed_timestamp timestamp_outside_window
        signature_mismatch :
      SignatureFailure

pub data VerificationResult : Type 0 where
  valid : VerificationResult
  invalid : SignatureFailure → VerificationResult

pub record VerifyInput : Type 0 where
  pub secret : String
  pub raw_body : String
  pub signature : Option String
  pub timestamp : Option String
  pub now : Option ℕ

-- JavaScript's truth of an optional text: it is there and not empty.
abbrev pub given : Option String → Option String
given none = none
given (some s) = if s == "" then none else some s

-- `seconds * 1000`
abbrev pub milliseconds : ℤ → ℤ
milliseconds seconds = sub_ℕ (pos_part seconds * 1000) (neg_part seconds * 1000)

-- `Math.abs(now.getTime() - sentAtSeconds * 1000)`, over the denominator of `sentAtSeconds`
unfoldable pub age_ms : ℕ → Finite → ℕ
age_ms now sent_at_seconds =
    abs (pos (now * 2 ^ sent_at_seconds.bits) +ℤ negate (milliseconds sent_at_seconds.numerator))

-- `ageMs > REPLAY_WINDOW_MS`, over the same denominator
unfoldable pub outside_window : ℕ → Finite → Bool
outside_window now sent_at_seconds =
    ltb (replay_window_ms * 2 ^ sent_at_seconds.bits) (age_ms now sent_at_seconds)

-- With both headers there, and what `Number` makes of the timestamp: the signature first, then its age.
unfoldable pub verify_aged :
    Crypto → ℕ → VerifyInput → String → String → Option Finite → VerificationResult
verify_aged crypto now input signature timestamp none = invalid malformed_timestamp
verify_aged crypto now input signature timestamp (some sent_at_seconds) =
    let expected = sign crypto input.secret timestamp input.raw_body in
    if not (eqb (crypto.byte_length expected) (crypto.byte_length signature))
    then invalid signature_mismatch
    else if not (crypto.timing_safe_equal expected signature)
    then invalid signature_mismatch
    else if outside_window now sent_at_seconds
    then invalid timestamp_outside_window
    else valid

unfoldable pub verify_given :
    Crypto → ℕ → VerifyInput → Option String → Option String → VerificationResult
verify_given crypto now input none timestamp = invalid missing_signature
verify_given crypto now input (some signature) none = invalid missing_timestamp
verify_given crypto now input (some signature) (some timestamp) =
    verify_aged crypto now input signature timestamp (crypto.number timestamp)

unfoldable pub verify_signature : Crypto → ℕ → VerifyInput → VerificationResult
verify_signature crypto clock input =
    verify_given crypto (or_default input.now clock) input (given input.signature)
      (given input.timestamp)

-- A request that its sender signed, sent at a number of seconds that is no more than the window before
-- the clock, and no more than it after: with the milliseconds sent as `numerator * 1000 / 2 ^ bits`, and
-- each side brought over that denominator.
pub record IsAuthentic (crypto : Crypto) (clock : ℕ) (input : VerifyInput) : Type 0 where
  pub signature : String
  pub timestamp : String
  pub sent : Finite
  pub signed : given input.signature ≡ some signature
  pub dated : given input.timestamp ≡ some timestamp
  pub genuine : signature ≡ sign crypto input.secret timestamp input.raw_body
  pub numbered : crypto.number timestamp ≡ some sent
  pub not_stale :
      or_default input.now clock * 2 ^ sent.bits + 1000 * neg_part sent.numerator
      ≤ 1000 * pos_part sent.numerator + 5 * 60 * 1000 * 2 ^ sent.bits
  pub not_early :
      1000 * pos_part sent.numerator
      ≤ or_default input.now clock * 2 ^ sent.bits
        + 1000 * neg_part sent.numerator
        + 5 * 60 * 1000 * 2 ^ sent.bits

-- A distance is within a width exactly when neither end is further than that from the other.
within_iff :
    (a w p n : ℕ)
    → (abs (pos a +ℤ negate (sub_ℕ (p * 1000) (n * 1000))) ≤ w)
      ↔ ((a + 1000 * n ≤ 1000 * p + w) × (1000 * p ≤ a + 1000 * n + w))
unfolding ◌+ℤ◌ negate
within_iff a w p n = (λ h. (ground arith, ground arith), λ h. ground (arith, h.0, h.1))

-- The window, from either side.
outside_window_iff :
    (now : ℕ) (sent : Finite)
    → (outside_window now sent ≡ false) ↔ (
        (now * 2 ^ sent.bits + 1000 * neg_part sent.numerator
          ≤ 1000 * pos_part sent.numerator + 5 * 60 * 1000 * 2 ^ sent.bits)
        × (1000 * pos_part sent.numerator
            ≤ now * 2 ^ sent.bits + 1000 * neg_part sent.numerator + 5 * 60 * 1000 * 2 ^ sent.bits))
unfolding outside_window age_ms
outside_window_iff now sent =
    let near =
      within_iff (now * 2 ^ sent.bits) (5 * 60 * 1000 * 2 ^ sent.bits) (pos_part sent.numerator)
        (neg_part sent.numerator) in
    (λ h. near.0 (ground arith), λ h. let close = near.1 h in ground arith)

module _ (crypto : Crypto)
    (same_bytes : (a b : String)
      → crypto.byte_length a ≡ crypto.byte_length b
      → crypto.timing_safe_equal a b ≡ (a == b))
    (clock : ℕ) (input : VerifyInput) where
  abbrev now : ℕ
  now = or_default input.now clock

  verify_aged_sound :
      (signature timestamp : String) (sent : Finite)
      → verify_aged crypto now input signature timestamp (some sent) ≡ valid
      → (signature ≡ sign crypto input.secret timestamp input.raw_body)
        × (outside_window now sent ≡ false)
  unfolding verify_aged
  verify_aged_sound signature timestamp sent h =
      let expected = sign crypto input.secret timestamp input.raw_body in
      ground (arith, h, same_bytes expected signature, eq_iff expected signature)

  verify_aged_complete :
      (signature timestamp : String) (sent : Finite)
      → signature ≡ sign crypto input.secret timestamp input.raw_body
      → outside_window now sent ≡ false
      → verify_aged crypto now input signature timestamp (some sent) ≡ valid
  unfolding verify_aged
  verify_aged_complete signature timestamp sent e recent =
      let expected = sign crypto input.secret timestamp input.raw_body in
      rw e (ground (arith, same_bytes expected expected refl, eq_refl expected))

  malformed_invalid : (s t : String) → verify_aged crypto now input s t none ≡ valid → ⊥
  unfolding verify_aged
  malformed_invalid s t h = cc

  authentic :
      (s t : Option String)
      → given input.signature ≡ s
      → given input.timestamp ≡ t
      → verify_given crypto now input s t ≡ valid
      → IsAuthentic crypto clock input
  unfolding verify_given
  authentic none t es et h = cc
  authentic (some s) none es et h = cc
  authentic (some s) (some t) es et h = elim (Option-cases (crypto.number t)) [
    | inl malformed ↦ absurd (malformed_invalid s t (rw malformed at h))
    | inr (sent, numbered) ↦
        let sound = verify_aged_sound s t sent (rw numbered at h) in
        let recent = (outside_window_iff now sent).0 sound.1 in
        record {
          signature = s;
          timestamp = t;
          sent = sent;
          signed = es;
          dated = et;
          genuine = sound.0;
          numbered = numbered;
          not_stale = recent.0;
          not_early = recent.1;
        }
  ]

  -- A request verifies exactly when both headers are there, the signature is the keyed hash of the
  -- timestamp and the raw body, and the timestamp is a number of seconds that is, as milliseconds, at
  -- most five minutes before and at most five minutes after the clock. (Of `timingSafeEqual`: on
  -- buffers of one length it is equality.)
  pub verify_signature_iff :
      (verify_signature crypto clock input ≡ valid) ↔ IsAuthentic crypto clock input
  unfolding verify_signature verify_given
  verify_signature_iff = (
    authentic (given input.signature) (given input.timestamp) refl refl,
    λ a.
        let recent = (outside_window_iff now a.sent).1 (a.not_stale, a.not_early) in
        rw (a.signed, a.dated, a.numbered)
          (verify_aged_complete a.signature a.timestamp a.sent a.genuine recent),
  )
