-- ===== src/Net.antt =====
-- src/net: addresses, subnets and network interfaces.
pub mod Boost
pub mod Cidr
pub mod Subnet
pub mod Addr
pub mod Netlink
pub mod Nic
pub mod Device
pub mod Commands
pub mod Mac
