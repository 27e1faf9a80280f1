-- ===== src/Governor.antt =====
-- The outbound rate governors: `Discord` for the webhooks, `Provider` for the threat-intelligence
-- services.
pub mod Discord
pub mod Provider
