-- ===== src/AlbLog.antt =====
-- internal/alb-log: the access logs of the load balancer, and their conversion to CSV.
pub mod Entry
pub mod Table
pub mod Agrees
