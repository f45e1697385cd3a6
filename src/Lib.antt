-- ===== src/Lib.antt =====
-- Drip: tunnels from a public server to services behind a client. This library models the core of
-- the server and of the shared packages, and proves what makes it correct.
--
-- A client opens a connection to the server (internal/server/tcp) and registers a tunnel with the
-- manager (internal/server/tunnel), which checks the limits and keeps the tunnel under a subdomain.
-- The proxy (internal/server/proxy) finds the tunnel of a request by its subdomain. Client and
-- server speak in frames (internal/shared/protocol) that lie in pooled buffers
-- (internal/shared/pool). A TCP tunnel has a port of its own and a group of multiplexed sessions
-- (internal/server/tcp), which the client's pool of sessions (internal/client/tcp) opens.
--
-- Base.antt and the files of Base/ hold what the parts share: tests, lists, sums, texts as lists of
-- bytes, maps as association lists, channels and signed integers.
-- Protocol/Pool.antt is internal/shared/pool/buffer_pool.go: the size classes that `Get` takes a
-- buffer from and `Put` gives it back to.
-- Protocol/Frame.antt is internal/shared/protocol/frame.go: `WriteFrame` on a writer that may fail
-- after any number of bytes, `ReadFrame` on the bytes that are still to come, `Release`.
-- Protocol/Writer.antt is internal/shared/protocol/writer.go: the operations of `FrameWriter`; in
-- Protocol/Writer/Steps.antt the senders (`WriteFrameWithCancel`, `WriteControl`), the write loop and
-- the callers of `Close`, `Flush` and the setters take steps in any order. A send on a closed queue
-- ends the program.
-- Netutil.antt, Netutil/Access.antt and Netutil/ClientIp.antt are internal/shared/netutil/ipaccess.go and
-- ip.go: allow and deny lists, and the address of the client of a request. What package net reads from
-- texts is a parameter (`Parsers`).
-- Utils/UrlBuilder.antt is internal/shared/utils/url_builder.go: the addresses of tunnels.
-- Utils/Subdomain.antt is internal/shared/utils/subdomain.go: `ValidateSubdomain` with its regular
-- expression, `IsReserved`, `GenerateSubdomain` over given random numbers.
-- Tunnel/RateLimiter.antt is internal/server/tunnel/rate_limiter.go: `CheckAndIncrement` and
-- `Cleanup`.
-- Tunnel/Connection.antt is internal/server/tunnel/connection.go: `Send` in its two steps, `Close`,
-- the write pump, the counters; in Tunnel/Connection/Streams.antt the counter of open streams under the
-- atomic operations of many goroutines.
-- Tunnel/Manager.antt and Tunnel/Manager/Removal.antt are internal/server/tunnel/manager.go: the
-- shards, and `RegisterWithIP`, `Unregister`, `CleanupStale`, `Shutdown`, `Get`, `List`, `Count`.
-- Tunnel/Manager/Interleaving.antt takes the locked steps of many goroutines one by one, in any order.
-- Tcp/PortAllocator.antt is internal/server/tcp/port_allocator.go: `Allocate`, `AllocateSpecific` and
-- `Release`, where what `net.Listen` answers is an argument.
-- Tcp/ConnectionGroup.antt and Tcp/GroupManager.antt are internal/server/tcp/connection_group.go and
-- connection_group_manager.go: the sessions of a tunnel, their heartbeat, the groups by tunnel.
-- Tcp/ConnectionGroup/Streams.antt is `OpenStream`.
-- Tcp/Registration.antt is internal/server/tcp/registration_handler.go: `Register`, with
-- `parseTCPSubdomainPort`.
-- Tcp/Lifecycle.antt is internal/server/tcp/lifecycle_manager.go, and `Handle` and `Close` of
-- connection.go, with data_connection_handler.go and the first part of tunnel.go: a client's connection
-- from its first bytes to its end.
-- Proxy/AuthLimiter.antt, Proxy/Sessions.antt and Proxy/Bearer.antt are
-- internal/server/proxy/auth_handler.go: failed logins by address, login sessions, bearer tokens.
-- Proxy/Routing.antt, Proxy/Headers.antt and Proxy/Handler.antt are internal/server/proxy/handler.go:
-- the subdomain of a host, the headers of an answer, and `ServeHTTP` up to the stream that it opens.
-- Wsutil/Conn.antt is internal/shared/wsutil/conn.go: `Read`, `Write` and `Close` over a web socket.
-- Client/Pool.antt and Client/Pool/Scaling.antt are internal/client/tcp/pool_client.go, pool_session.go
-- and session_scaler.go: the sessions of a client, and the scaler that opens and closes them.
--
-- Times and random numbers are arguments. Sizes and counts are natural numbers; the byte counters
-- and the counter of open streams are 64-bit words with their wrap-around. The loop that removes idle
-- sessions takes fuel, one round for each session and one more, since each round but the last takes a
-- session out of its candidates. Every other loop runs over a list or over a number of rounds that the
-- code fixes (32 shards, 10 attempts for a subdomain, 3 for a stream, one for each port). The write
-- loop of a frame writer is a step relation.
-- Left out are log lines, Prometheus metrics, and what travels over the network beyond the bytes of
-- a frame.
pub mod Base
pub mod Client
pub mod Protocol
pub mod Proxy
pub mod Utils
pub mod Tunnel
pub mod Tcp
pub mod Netutil
pub mod Wsutil
