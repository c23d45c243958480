-- ===== src/Local.antt =====
-- lib/linyaps_local.c and package_list_append of lib/linyaps_util.c: the packages that are
-- installed, read from a state file or from `ll-cli`.
pub mod Packages
pub mod Capture
pub mod Installed
pub mod Examples
