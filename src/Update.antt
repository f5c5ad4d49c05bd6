-- ===== src/Update.antt =====
-- The updater: signed metadata (update_manifest.py), the state of the installation and the releases
-- on disk (update_store.py), and the transaction that activates a release (updater.py).
pub mod Version
pub mod Install
pub mod Manifest
pub mod Machine
pub mod Store
pub mod Recovery
pub mod Switch
pub mod Check
