-- ===== src/Sandbox.antt =====
-- sandbox/k8s_sandbox.py and sandbox/runner.py.
pub mod Results
pub mod Logs
pub mod Manifest
pub mod Cluster
pub mod Kubernetes
pub mod Runner
pub mod Local
