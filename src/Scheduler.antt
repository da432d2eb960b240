-- ===== src/Scheduler.antt =====
-- scheduler.py
pub mod Decimals
pub mod Resource
pub mod ScalarResource
pub mod RangeResource
pub mod Devices
pub mod Agent
pub mod PhysicalNode
pub mod Offers
pub mod Launch
pub mod LaunchQueue
pub mod StatusUpdate
pub mod FakePhysicalTask
pub mod PhysicalTask
