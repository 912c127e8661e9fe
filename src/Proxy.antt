-- ===== src/Proxy.antt =====
-- proxy/: the circuit breaker, the origin client, the load balancer and its health checker.
pub mod Circuit
pub mod Origin
pub mod Balancer
pub mod Health
