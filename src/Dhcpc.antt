-- ===== src/Dhcpc.antt =====
-- The DHCP client tables of the data model: source/TR-181/middle_layer_src/wanmgr_dml_dhcpv4.c, with
-- source/WanManager/wanmgr_dhcpv4_internal.c and wanmgr_dhcpv4_apis.c behind it, and the options that the
-- DHCPv6 client sends, of wanmgr_dhcpv6_apis.c.
pub mod Links
pub mod Table
pub mod Data4
pub mod Backend4
pub mod Registry4
pub mod Client4
pub mod Options4
pub mod Start4
pub mod Access4
pub mod Requests4
pub mod Sent6
