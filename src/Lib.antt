-- ===== src/Lib.antt =====
-- The WAN manager of RDK-B: which interface carries the WAN, and when.
--
-- The program keeps one table of WAN interfaces (source/WanManager/wanmgr_data.c). One policy thread,
-- chosen by the configuration, walks over the table, selects an interface, sets its flag
-- `Wan.ActiveLink`, and starts the interface state machine on it; the state machine of an interface
-- and the data model threads change the same table, under the same recursive mutex.
--
--   Common      numbers of the machine's `INT` and `UINT`, tests, lists
--   Dml         the types of source/TR-181/include/wanmgr_dml.h
--   Store       source/WanManager/wanmgr_data.c and wanmgr_data.h: `Database` is `gWanMgrDataBase`;
--               a getter that locks returns the database with the mutex held once more
--   Select      `WanMgr_Policy_FM_SelectWANActive` of the four policies, and its specification
--   Policy      the four policies of source/WanManager/wanmgr_policy_*_impl.c. `Control` has what
--               they share, `Fixed` is wanmgr_policy_fm_impl.c, `FixedOnBootup` is
--               wanmgr_policy_fmob_impl.c, `Priority` is wanmgr_policy_pp_impl.c, and
--               `PriorityOnBootup` is wanmgr_policy_ppob_impl.c. Each state and each transition of
--               the source is a function of its own, whose comment names it
--   Net         the checks of source/WanManager/wanmgr_net_utils.c for another interface with the same
--               priority and type
--   Interface   source/WanManager/wanmgr_interface_sm.c. `Outside` is what it calls and asks, `Address`
--               and `Status` are its helpers with those of wanmgr_sysevents.c, `Transitions` and
--               `States` are wan_transition_* and wan_state_*, and `Thread` is its thread. `Graph`,
--               `Runs` and `Leases` are about a pass of its `switch`, `Frame`, `Passes` and `System`
--               about the table that it shares with the policy, `Lost` and `Tunnel` about runs, and
--               `Bridge` about the LAN bridge
--   Dhcp        the DHCP events of wanmgr_dhcpv4_apis.c and wanmgr_dhcpv6_apis.c, which the thread of
--               the interface state machine handles before each `switch`: `Event4` and `Event6`
--   Dhcpc       the tables of DHCPv4 clients and of their options, which the message bus reads and
--               writes. `Links` is the lists of source/TR-181/middle_layer_src/wanmgr_rdkbus_apis.c,
--               `Table` what the three tables do in the same way, `Data4` the records of
--               source/WanManager/wanmgr_dhcpv4_apis.h and wanmgr_dhcpv4_internal.h, `Backend4` the
--               functions of wanmgr_dhcpv4_apis.c below the tables, `Registry4` and `Start4`
--               wanmgr_dhcpv4_internal.c, `Client4`, `Options4` and `Access4` the functions of
--               source/TR-181/middle_layer_src/wanmgr_dml_dhcpv4.c. `Requests4` is the calls that the
--               bus makes, one after another. `Sent6` is the options that the DHCPv6 client sends, from
--               wanmgr_dhcpv6_apis.c, with the loop of wanmgr_dhcpv6_internal.c that reads them
--   DataModel   the parameters of an interface that the message bus reads and writes, from
--               source/TR-181/middle_layer_src/wanmgr_dml_iface_apis.c. A parameter's name is a
--               constructor, and a value of an enumeration one of its enumerators
--   Ipc         the arrival of a DHCP message, from source/WanManager/wanmgr_ipc.c, with at most five
--               rounds, as in the source
--   Tests       a gateway with three interfaces
--
-- A pass of a policy loop is one step, from the end of the wait to the end of the loop's body, with
-- `ANSC_STATUS_FAILURE` as a state of its own, since the code returns it in place of a state. What
-- the other threads do comes between two passes, as a change of the table; that they act only there
-- is a simplification, which the code's locks make true for an active interface and not for the
-- others. Calls out of the policies (the platform status, the start of a state machine) are a trace
-- of effects. A loop over the table is structural recursion on the number of its rounds, so no fuel
-- is needed; a table with less than 2^31 entries is part of `IsWellFormed`, since an index has to fit
-- in an `INT`. The compile-time switch WAN_ENABLE_STANDBY of the primary priority policy is a
-- parameter.
--
-- The interface state machine and the DHCP events call sysevent, syscfg, the DHCP clients, the health
-- check and shell commands. A call is an entry of a log, with its arguments; where the code looks at
-- an answer, `Env` gives it, as a function of the calls so far, and nothing is assumed of it unless a
-- theorem says so. A thread has its log, its state and its controller, and shares the table with the
-- policy; `System` lets the passes of all of them come in any order. FEATURE_IPOE_HEALTH_CHECK is a
-- parameter; FEATURE_MAPT is off, since the code under it does not compile. The loop that waits for
-- the LAN bridge has 15 rounds in the source and in the model.
--
-- In the DHCP client tables an `ULONG` has 32 bits, and a handle of an entry is its instance number,
-- under which the list is searched; a handle whose entry is deleted is not used again. Texts have no
-- bound, where the source has arrays, and `_ansc_strcpy` into them is a copy. What the HAL answers is
-- the record `Hal`; memory is given with any contents, and the failure of an allocation is modelled
-- where an entry is added. The registry's folder, when there is one, holds what was last written to it,
-- and calls on it do not fail. For the options that the DHCPv6 client sends, syscfg holds what was last
-- stored under a key, a numeral is the number, the array can be allocated and the file opened; what
-- syscfg_unset does to a slot is a parameter.
--
-- Not modelled: the other tables of the DHCPv6 client, the scan of the DHCPv4 options and the texts of lists
-- of addresses, the other parts of the files of the DHCP clients and of the system events, the
-- sockets of the IPC server, the rest of the data model, and all that only calls libraries or the system.
pub mod Common
pub mod Dml
pub mod Store
pub mod Select
pub mod Dhcp
pub mod Dhcpc
pub mod DataModel
pub mod Ipc
pub mod Interface
pub mod Net
pub mod Policy
pub mod Tests
