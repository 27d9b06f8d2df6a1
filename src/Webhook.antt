-- ===== src/Webhook.antt =====
-- The webhooks (webhook/).
pub mod Dispatcher
