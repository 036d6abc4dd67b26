-- ===== src/Lib.antt =====
-- The core logic of the Python driver for Apache Cassandra (the package cassandra/): how a request is
-- given a host and a stream id, is retried, and gets its timestamp; how messages are put into frames and
-- read from the socket; and how statements are run concurrently.
--
-- A session sends a request through a ResponseFuture. It asks the load balancing policy for a query
-- plan, walks down it, borrows a stream id of a connection to the next host, and waits for the response
-- or the timer. A failure is put to the retry policy. The policies hear of hosts going up and down
-- through HostStateListener; TokenAwarePolicy asks the token map for the replicas of a routing key. A
-- pool whose host is down reconnects after the delays of the reconnection policy.
--
-- Files and sources:
--   Prelude          names and lemmas that are shared: tests on numbers (Tests), lists with native
--                    lengths (Lists), dicts with text keys (Dict), integers (Int), Python's strict
--                    UTF-8 codec (Utf8)
--   Policies/Hosts   Host and HostDistance of cassandra/pool.py and cassandra/policies.py; sets of
--                    hosts, as lists without repeats (Sets)
--   Policies/RoundRobin, Policies/DcAware, Policies/Wrappers
--                    RoundRobinPolicy, WhiteListRoundRobinPolicy (RoundRobin/WhiteList),
--                    DCAwareRoundRobinPolicy, TokenAwarePolicy and HostFilterPolicy of
--                    cassandra/policies.py: `populate`, `distance`, `make_query_plan`, `on_up`, `on_down`,
--                    `on_add`, `on_remove` are the functions of these names, and `notify` runs listener
--                    calls. The child of a wrapper is the record LoadBalancingPolicy.
--   Policies/Retry   RetryPolicy and FallthroughRetryPolicy (Default) and
--                    DowngradingConsistencyRetryPolicy (Downgrading)
--   Policies/Reconnection
--                    the schedules of ConstantReconnectionPolicy and ExponentialReconnectionPolicy
--   Timestamps       MonotonicTimestampGenerator of cassandra/timestamps.py
--   Connection/Streams
--                    the stream ids of Connection in cassandra/connection.py, with `borrow_connection`
--                    and `return_connection` of HostConnection in cassandra/pool.py and `_on_timeout` of
--                    ResponseFuture in cassandra/cluster.py. `step` is an event at the connection's lock.
--   Connection/Frames
--                    `_read_frame_header`, `_reset_frame` and `process_io_buffer` of Connection in
--                    cassandra/connection.py; `receive` is `handle_read` of cassandra/io/asyncorereactor.py,
--                    with what one call of it receives; Headers and Sent join them with Protocol/Messages
--   Marshal          cassandra/marshal.py: the fixed widths (Fixed), `varint_pack` (Varint), the zig-zag
--                    and vint encodings (Vint, Vints)
--   Protocol         the functions `read_byte` to `write_inet` of cassandra/protocol.py, with the round trips of
--                    the elements (Elements) and of the maps (Maps); `encode_message` and
--                    `_write_header` of _ProtocolHandler (Messages)
--   Concurrent       _ConcurrentExecutor and ConcurrentExecutorListResults of cassandra/concurrent.py:
--                    `execute_next` is `_execute_next` with `_execute`, `put_result` is `_put_result`,
--                    `results` is `_results`, and `step` is the response of a request or a task of the session
--   Cqlengine        ListUpdateClause (ListUpdates), SetUpdateClause (SetUpdates), MapUpdateClause without
--                    an operation and MapDeleteClause (MapUpdates) of cassandra/cqlengine/statements.py;
--                    `unicode` is `__unicode__`, the assignments with the ids of their values; `execute`
--                    and `apply_entries` are what the server makes of them with the values that
--                    `update_context` writes. Servers that reverse a list put before are left out.
--   Pool             HostConnection of cassandra/pool.py: `return_broken` is `return_connection` of a
--                    defunct connection up to its lock, `start_replacing` what is under the lock, and
--                    `begin_replace`, `end_replace` and `finish_replace` are the three
--                    parts of `_replace`, between which other events fall
--   Pool/Connections HostConnectionPool of cassandra/pool.py: `begin_create` and `end_create` are the two parts
--                    of `_create_new_connection`, `begin_replace` and `end_replace` those of
--                    `_retrying_replace`, `add_conn` is the part of `_add_conn_if_under_max` that connects
--   ResponseFuture   ResponseFuture of cassandra/cluster.py: `query` is `_query`, `retry_request` is
--                    `_retry`, `after_prepare` is `_execute_after_prepare`, `run_task` is what the
--                    executor runs (`_retry_task`, `_reprepare` and the end of a schema change),
--                    `keyspace_completed` is `_set_keyspace_completed`, and `step` is a response, a task, a
--                    speculative execution, the timer or the callback of the pools after SET KEYSPACE;
--                    Keyspaces has `_set_keyspace_for_all_pools` of Session, which calls that back, with
--                    `_set_keyspace_for_all_conns` of HostConnection
--   Metadata         TokenMap, SimpleStrategy and the keyspace updates of Metadata in
--                    cassandra/metadata.py; Metadata/Lookup has the replicas of a token, Metadata/Cache and Fresh
--                    the maps that are kept for each keyspace
--   Tests            the theorems at concrete inputs, and runs of the definitions
--
-- Each handler is one atomic step, but those that are cut in parts as said above: concurrent callers are sequences of events in any order. A plan is
-- consumed at once, so a host event falls before or after it. Python's errors are values: Option, or a
-- result type of the model. Clock readings, random numbers, the resolution of names, the order of a
-- set, the outcomes at the pools and the server's responses are arguments. `bisect_right` is written
-- as its documented result. Text is a list of code points, and bytes are numbers below 256. Loops are
-- recursion on a list or on a number that counts what is left; `process_rounds` and `unpack_rounds` have at
-- least as many rounds as there are bytes, since each round takes a byte or ends the loop, and the bit
-- and byte loops of Marshal as many as the number itself.
--
-- Not modelled: the bodies of the messages, the reactors, the handshake, the compressors, the
-- control connection, NetworkTopologyStrategy, the schema parsers, the CQL types, most of the object
-- mapper and the compiled extensions. In ResponseFuture, paging, tracing, metrics and the contents of
-- callbacks are left out; whose callback is registered under the stream id that the request has kept, its
-- own or that of another request, is a choice of the event that needs it. In Connection/Streams, the connection stays open and the encoder
-- does not raise. In Connection/Frames, `process_msg` is the list of what it is given, and a
-- connection that a ProtocolError has defuncted goes on being fed. Concurrent leaves out the generator of
-- results, and takes `_results` where it is woken. In Pool/Connections, waiting for a connection and the keyspace are
-- left out, and the maximum is one of the connections in use and being opened: trashed connections, which stay
-- open until nothing is in flight on them, are not counted by the code either.
pub mod Prelude
pub mod Policies
pub mod Timestamps
pub mod Connection
pub mod ResponseFuture
pub mod Metadata
pub mod Pool
pub mod Marshal
pub mod Protocol
pub mod Concurrent
pub mod Cqlengine
mod Tests
