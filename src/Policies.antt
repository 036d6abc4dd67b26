-- ===== src/Policies.antt =====
-- cassandra/policies.py (and `Host` of cassandra/pool.py): the data that the load balancing
-- policies share, and Python's sets of hosts, which are compared by address.
pub mod Hosts
pub mod RoundRobin
pub mod DcAware
pub mod Reconnection
pub mod Retry
pub mod Wrappers
pub use Hosts.{Host, HostDistance, ignored, local, remote, Query}
