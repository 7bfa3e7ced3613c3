-- ===== src/Rpc.antt =====
-- web-ui/src/app/api/rpc/route.ts: the load balancer and the handlers of the RPC proxy.
pub mod Balancer
pub mod Post
pub mod Health
