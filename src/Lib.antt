-- ===== src/Lib.antt =====
-- A verification library of go-vnet, a virtual private network: a server tunnels IP packets between
-- the clients of its networks. It hands out addresses from a pool (common/addresses), routes
-- packets by a prefix trie whose targets are sessions (common/router), counts usage against a quota
-- (common/quota) and limits rates (common/rate). A client reads packets from its device, sends them
-- over a connection per destination (vnet/client) and keeps its routes in step with the server
-- (vnet/server).
--
-- Base: names of the library that all modules use, Boolean tests and lists on the native numbers,
-- Option as a failure, and integers (Base/Int).
-- Router: common/router/router.go. `TrieNode` and `Router` are the types of that name; one loop of
-- the model (`lookup_loop`, `insert_loop`, `remove_loop`) is the loop of the IPv4 and of the IPv6
-- method, which differ in their number of rounds only. `none` of the outer Option is a panic.
-- Router/Table has the trie as a map from prefixes to targets, Router/Lookup and Router/Updates the
-- methods on it, Router/Packets `Route` and `RouteBatch`, Router/Cidr the printing of addresses,
-- and Router/Listing `Range`, `Keys` and `MD5`. The digest is modelled as the sequence of
-- characters that is written to the hash.
-- Addresses: common/addresses/ip_pool.go, with its set of allocated addresses as the list of their
-- texts. Addresses/Texts is about the printing of addresses, Addresses/Construction, /Assignment,
-- /Random and /Specific about the operations, Addresses/Lifecycle about histories of them, and
-- Addresses/Storing about `Bytes` and `LoadFromData`; package json is a parameter.
-- Quota: common/quota/quota.go. The values handed to the storage adaptor are a list.
-- Rate: common/rate/limiter.go, with the clock as an argument. Rate/Bucket reads the integers of a
-- limiter as the numbers of a bucket, Rate/Bounds and Rate/Overflow are about AllowN, Rate/Returns
-- about PutBack and PutBackFromLast. Rate/Smooth is common/rate/smooth_limiter.go, on int64, with
-- Rate/Spacing.
-- Protocol: common/protocol/protocol.go, the frames on a stream, with the codecs as parameters;
-- Protocol/Batches has the batches of BatchWrite and ParseBatch, Protocol/Codecs the codecs of
-- encryptor.go and compressor.go, and Protocol/Codecs/Laws that they keep what the frames rest on.
-- Protocol/Compressing has these laws, Protocol/Roundtrip the way there and back. The two buffers
-- of a transport are modelled by the room that they leave.
-- SessionConn: common/session/session_conn.go, the messages of a stream connection.
-- Pool: common/pool/pool.go, with the `sync.Pool` behind the channel as a parameter.
-- SessionQuic: common/session/session_quic.go, messages in datagrams: SessionQuic/Headers has the
-- header of a fragment, /Slots and /Reassembly a partial message, /Chunks the cutting of a message,
-- /Delivery both sides.
-- Hub: vnet/client/hub/hub_tx.go. Hub.antt has a round of `txLoop` and what `txLoopN` collects,
-- Hub/Batches, /Flushing and /Delivery where the packets go, Hub/Collecting what is written at
-- once. Hub/Destination is the `Destination` with its connections, with tryP2P and replaceP2P of
-- vnet/client/client_p2p.go; its child Once is about the replacement of a connection, Negotiating
-- about the first one, Draining about its loop, Failing about a write that fails. Hub/Receiving is
-- the loop of `HandleRx` of vnet/client/hub/hub_rx.go.
-- Server: vnet/server/server.go, `negotiation`, `proxy` and the choice of a limiter, with
-- Server/Negotiation, /Forwarding and /Limiters about them. Server/Sessions has the maps of the
-- server (also session.go and network.go), Server/Lifecycle is about their entries. A server's
-- router and pool of addresses are maps there, as Router and Addresses justify.
-- Tcp: vnet/client/client_tcp.go and vnet/server/server_tcp.go, the first packet of a connection
-- and what the server does with it: a connection is handed over to a session that waits, or its
-- dispatch waits, without an acknowledgement; Tcp/Dispatching is about both sides together.
-- Tcp/Links is `tcpClient` with its connections, from Setup to Close, Tcp/Links/Closed about their
-- end (with Counting). Tcp/Links/Sending puts it under a `Destination`, as its `TxAdaptor`;
-- Tcp/Links/Stuck is about a write that fails there.
-- Client: vnet/client/sync_router.go, with Client/Routes, /Peers and /Reconnecting. Keys are
-- numbers with a parameter for their texts.
-- P2p: vnet/client/client_p2p.go, the evaluation of a stream by both clients (P2p/Agreement) and
-- the way back to the server (P2p/Fallback).
-- Calls: vnet/client/manager.go and vnet/server/manager.go, calls of the server's functions;
-- package json is a parameter. Calls/Channels is about the channel of a call, Calls/Responses about
-- its response.
-- Lifetime: vnet/client/client.go, what a client opens and closes, with Lifetime/Balance.
-- Requests: common/session/request.go, with Requests/Splitting and Requests/Exchange.
-- Metrics: common/metrics/transport.go and vnet/server/loop.go, with Metrics/Sessions and
-- Metrics/Network.
-- Networks: manager/server/internal/logic/network/network.go and vnet/server/network_mgr.go;
-- Networks/Backed is about both together. Networks/Devices is device.go of the same folder, on the
-- pool of Addresses, and Networks/Locked about the addresses that it leaves taken.
-- Flow: manager/server/internal/logic/quota/flow.go and quota.go, the records of used quotas, with
-- Flow/Totals.
--
-- Bounds: arithmetic on uint16, uint32, uint64, int64 and bytes is written out with its
-- wrap-around, as far as the code that is modelled can reach it. The loops are recursive on the
-- number of rounds that the source gives them or on what arrives, so that no fuel is needed; the
-- rounds of a destination's loop are counted, and as many as events are waiting are enough.
-- Package net, the clock, the random source, the codecs, the connections, what a peer or the server
-- answers and the storage adaptor are parameters.
-- A write on a TCP connection that the client has closed fails.
-- A method runs alone: its atomic accesses and its mutex are not interleaved with other calls.
-- Not modelled: the handshake and its encryption, the transports of server and client (QUIC, the
-- peer-to-peer host, and of TCP the server's side behind the first packet), the reading and writing
-- of the device, the manager's HTTP API and generated database access, the creation of devices and
-- configuration. They are mostly calls of third-party packages.
pub mod Base
pub mod Router
pub mod Addresses
pub mod Quota
pub mod Rate
pub mod Protocol
pub mod SessionConn
pub mod Pool
pub mod Hub
pub mod SessionQuic
pub mod Server
pub mod Client
pub mod Flow
pub mod Tcp
pub mod Requests
pub mod Metrics
pub mod P2p
pub mod Calls
pub mod Networks
pub mod Lifetime
