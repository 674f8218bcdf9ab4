-- ===== src/Peserver.antt =====
-- The servers of peserver/src: the interface that the load balancer and the workers share (api.rs),
-- and the decisions of the load balancer (lb.rs).
pub mod Api
pub mod LoadBalancer
mod Tests
