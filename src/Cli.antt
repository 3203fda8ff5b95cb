-- ===== src/Cli.antt =====
-- Commands of cmd/ecnet/cli that change the cluster.
pub mod Confirm
pub mod Uninstall
pub mod Namespaces
