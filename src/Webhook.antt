-- ===== src/Webhook.antt =====
-- The admission of webhook deliveries (webhook/): the rate limiter, and the signed
-- headers of a delivery.
pub mod Rate
pub mod Protocol
