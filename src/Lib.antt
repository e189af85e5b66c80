-- ===== src/Lib.antt =====
-- Model of l2tpns, an L2TP network server: it takes the PPP sessions of L2TP tunnels, gives them
-- addresses, filters and shapes their traffic, announces their routes by BGP, and keeps a cluster
-- of servers in step, of which one is the master.
--
-- The parts of the program and their files here (paths are from the repository's root):
--   Rle       cluster.c: rle_compress and rle_decompress, the run-length code of heartbeats, and
--             the table entries that hb_add_type packs and cluster_process_heartbeat reads.
--   Cluster   cluster.c: the list of peers with cluster_add_peer and cluster_set_master,
--             cluster_check_slaves and the election of cluster_check_master;
--             Cluster.Catchup: cluster_catchup_slave and the ring of heartbeats sent;
--             Cluster.Changes: type_changed, the queue of what a heartbeat carries;
--             Cluster.Heartbeat: how cluster_process_heartbeat takes or refuses a heartbeat, and
--             the header of cluster_heartbeat; Cluster.Sync: cluster_recv_session and its like and
--             cluster_check_sessions, by which a slave counts what it lacks; Cluster.Takeover: the
--             end of cluster_check_master, where the winner takes over the tables.
--   Session   l2tpns.c, cluster.c: the session table with its counters (increment_counter,
--             cluster_handle_bytes), its shaping (throttle_session, on the filters of Tbf) and its
--             free list.
--   Tbf       tbf.c: the token bucket filters: queues, credit, and the timer chain of those that
--             wait. A filter is `Tbf`, the table with its chain is `Tbfs`.
--   Ppp       ppp.c, l2tpns.h: the automata of the PPP option negotiation with their restart timers,
--             how processlcp and its timeout drive that of LCP, and (Ppp.Options) what it answers to
--             the options of a ConfigReq.
--   L2tp      l2tpns.c: the control connection of a tunnel: tunnelsend, controlnull, controladd,
--             processudp from the sequence number to the AVPs, and the resending of
--             regular_cleanups; L2tp.Delivery: two ends with a line between them.
--   Avp       l2tpns.c: the AVPs of L2TP messages: control16 and its like, which write them, the loop
--             of processudp that reads them, unhide_value, and the messages sent.
--   Bgp       bgp.c: the sorted lists of announced routes and the update flags of the peers.
--   IpFilter  l2tpns.c: ip_filter, the access lists, and find_filter, which names them.
--   IpMap     l2tpns.c: lookup_ipmap, cache_ipmap and sessionbyip, the four-level table from
--             addresses to sessions, which also holds the free addresses of the pool.
--   Ipv6Map   l2tpns.c: lookup_ipv6map and cache_ipv6map, the radix tree of IPv6 prefixes.
--   Pool      l2tpns.c: assign_ip_address, free_ip_address and rebuild_address_pool. Its state,
--             `Addresses`, has the pool, the sessions and the table of IpMap, which frees and
--             rebuilds change along.
--   Control   control.c: pack_control and unpack_control, the packets of nsctl.
--   Prelude   the shared names: lists measured by native numbers, tests, and 32-bit words.
--
-- How the code corresponds: a C struct is a record with the fields that the modelled functions
-- read or write, under their own names; a function that changes static variables takes the record
-- of them and returns it; output parameters and return values are the components of the result. A
-- list stands for a buffer with its size, for a linked list or for the used part of an array; a
-- table that is only indexed is a function from ℕ. Integers are numbers, reduced modulo 2 ^ w
-- where the C type is w bits wide and the code can pass its bounds; an `int` that may be negative
-- is its 32-bit pattern. What malloc and the like return is an argument, as are the contents of
-- memory that the code reads before it writes there.
--
-- Fuel: compress_from and decompress_from take the length of their source, and every round takes
-- a byte of it; resend_from takes HB_HISTORY_SIZE, as a slave that is further behind is killed;
-- read_options and last_sent_lcp take the bytes that are left, as an option has one at least;
-- read_avps is given the rounds, and ends within one more than the bytes unless an AVP has the
-- length 0; timer_loop has the code's own count. Every other loop is structural recursion.
--
-- Not modelled: sockets, configuration, the command line (cli.c) and logging, which change none of
-- the state here; what L2TP messages do to tunnels and sessions, the other options of PPP and its
-- other protocols, RADIUS, DHCPv6, PPPoE and the plugins, whose packets are another layer; and of
-- the parts above what the notes at the head of their files leave out.
pub mod Prelude
pub mod Rle
pub mod Tbf
pub mod Bgp
pub mod IpFilter
pub mod Control
pub mod Cluster
pub mod IpMap
pub mod Pool
pub mod Ipv6Map
pub mod Session
pub mod Ppp
pub mod L2tp
pub mod Avp
