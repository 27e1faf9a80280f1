-- ===== src/Intel.antt =====
-- native/threat_intel: the worker that runs the lookups in the background, the cache of what the
-- providers answered, the HTTP helper, the providers, the broker, and the store of the API keys.
pub mod Worker
pub mod Cache
pub mod Http
pub mod Broker
pub mod Observables
pub mod Providers
pub mod Parameters
