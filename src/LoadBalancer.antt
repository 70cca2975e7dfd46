-- ===== src/LoadBalancer.antt =====
-- load-balancer/
pub mod Servers
pub mod RoundRobin
pub mod LeastConnections
pub mod Forward
pub mod Classic
pub mod Smooth
pub mod Tests
