-- ===== src/MasterController.antt =====
-- Parts of master_controller.py.
pub mod Multicast
