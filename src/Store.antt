-- ===== src/Store.antt =====
-- store.go: the persisted users, devices and virtual networks. The methods stand in the children,
-- one for each kind of record; each runs under the store's lock from beginning to end.
pub mod Data
pub mod Users
pub mod Devices
pub mod Networks
pub mod VirtualIp
pub mod Calls
mod Tests
