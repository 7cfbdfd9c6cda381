-- ===== src/Gateway.antt =====
-- pan-gateway/src: the agents that a gateway serves.
pub mod Pool
