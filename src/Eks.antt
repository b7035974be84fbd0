-- ===== src/Eks.antt =====
-- internal/eks: the tester that creates and deletes an EKS cluster with what it needs.
pub mod Flag
pub mod Role
pub mod KeyPair
pub mod Upload
pub mod Vpc
pub mod Cluster
pub mod Cni
pub mod Nodes
pub mod Asg
pub mod Worker
pub mod Alb
pub mod Tester
