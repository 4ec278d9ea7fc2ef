-- ===== src/Dhcp.antt =====
-- The events of the DHCP clients, source/WanManager/wanmgr_dhcpv4_apis.c and wanmgr_dhcpv6_apis.c:
-- what a message of a client does to the interface.
pub mod Event4
pub mod Event6
pub mod Frame
pub mod Renewal
pub mod Connect
pub mod Core
pub mod Prefix
