-- ===== src/Netlink.antt =====
-- src/netlink and include/sancus/netlink.h: messages and attributes in memory, and the receiver.
-- The layouts of `struct nlmsghdr` (16 bytes: length, type, flags, sequence, port) and of
-- `struct nlattr` (4 bytes: length, type) are those that the kernel's interface fixes; integers are
-- little-endian.
pub mod Wire
pub mod Msg
pub mod Attr
pub mod Area
pub mod Put
pub mod Layout
pub mod Build
pub mod Parse
pub mod Validate
pub mod Defects
mod Tests
