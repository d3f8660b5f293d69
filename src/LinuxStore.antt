-- ===== src/LinuxStore.antt =====
-- src/platform/linux/temporal-policy-store.c and src/platform/linux/cinnamon-interface.c: the store of
-- the temporal policy on Linux, and the settings of the desktop that it seeds from and mirrors to.
pub mod Desktop
pub mod Store
pub mod Laws
pub mod Mirror
pub mod Document
