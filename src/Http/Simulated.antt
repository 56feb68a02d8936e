-- ===== src/Http/Simulated.antt =====
-- The simulator of packages/api/src/modules/dev/dev.routes.ts and the check of the webhook's signature.
use mini_rewards_integration.Prelude.{ℕ, ◌≤◌, ◌/◌, arith, String, false, ◌≡◌, refl, some, ◌==◌}
use mini_rewards_integration.Webhook.Signature.{sign, whole, valid, verify_signature_iff}
use mini_rewards_integration.Webhook.Route.{verification}
use mini_rewards_integration.Http.Forms.{SimulateInput}
use mini_rewards_integration.Http.Admin.{Simulation, simulated_body, simulated_request}

-- The request that the simulator sends to the webhook verifies there, whatever activity it simulates and
-- whatever the clock says. (Of Node: `timingSafeEqual` on buffers of one length is equality, a digest
-- is not empty, and a whole number up to the clock's is written as a text that is not empty and that
-- `Number` reads back.)
pub simulated_request_verifies :
    (simulation : Simulation) (input : SimulateInput)
    → ((a b : String)
        → simulation.context.crypto.byte_length a ≡ simulation.context.crypto.byte_length b
        → simulation.context.crypto.timing_safe_equal a b ≡ (a == b))
    → ((key message : String) → (simulation.context.crypto.hmac key message == "") ≡ false)
    → ((n : ℕ)
        → n ≤ simulation.context.run.now
        → ((simulation.show_number n == "") ≡ false)
          × (simulation.context.crypto.number (simulation.show_number n) ≡ some (whole n)))
    → verification simulation.context (simulated_request simulation input) ≡ valid
unfolding simulated_request sign
simulated_request_verifies simulation input same_bytes digests numbers =
    let context = simulation.context in
    let seconds = context.run.now / 1000 in
    let timestamp = simulation.show_number seconds in
    let raw_body = simulated_body simulation input in
    let (dated, numbered) = numbers seconds (omega arith) in
    (verify_signature_iff context.crypto same_bytes context.run.now _).1 (record {
      signature = sign context.crypto context.webhook_secret timestamp raw_body;
      timestamp = timestamp;
      sent = whole seconds;
      signed = rw (digests context.webhook_secret _) refl;
      dated = rw dated refl;
      genuine = refl;
      numbered = numbered;
      not_stale = omega arith;
      not_early = omega arith;
    })
