-- ===== src/Lib.antt =====
-- NatPunch: a tunnel server, whose clients keep one TCP stream to it, over which a multiplexer
-- carries many connections, and a registry of clients, tunnels and hosts.
--
-- The multiplexer, lib/natpunch_mux (folder Mux). A frame is written by `muxPackager.Pack` and read
-- by `UnPack` (netpackager.go, Mux/Frame). Frames to send wait in the three lanes of `priorityQueue`
-- (queue.go, Mux/Priority); each lane is a `bufChain` (Mux/Chain) of rings, `bufDequeue`
-- (Mux/Dequeue), whose two indexes share a word. A connection has two windows (conn.go): the sender
-- cuts a buffer into segments as far as the window goes (`sendWindow`, Mux/SendWindow), the receiver
-- queues them (`receiveWindowQueue`, Mux/ReceiveQueue), hands out their bytes and acknowledges them
-- (`receiveWindow`, Mux/ReceiveWindow); both keep a wait flag, a size and a count in one word
-- (`window`, Mux/Window). Connections stand in `connMap` (map.go) under numbers from `getId` (mux.go,
-- Mux/ConnMap). The token bucket of a limited connection is in rate.go (Mux/Bucket).
--
-- A connection with its windows is `conn` (conn.go, Mux/Conn), and `Mux` itself (mux.go, Mux/Session)
-- takes the frames that come in to it, numbers and hands over new ones and closes them all; one round
-- of `conn.Write`, `conn.Read`, `writeSession` and `ping` and all that may happen to a mux are in
-- Mux/Session/Traffic.
--
-- The registry, lib/file (folder File). `NewClient` and what it checks (db.go, file.go, File/Clients),
-- the look-up of a client by what it presents (File/Credentials), tunnels (File/Tasks), the routing
-- of a request to a host (File/Hosts), the choice of a target (obj.go, File/Targets), the connection
-- slots and flow counters of a client (File/Counters) and the pages of the panel (File/Pages).
--
-- The port multiplexer, lib/pmux (file Pmux, folder Pmux), tells the connections of one port apart by
-- their first bytes and the Host line of a request (`process`, `cutHeaderLine` of pmux.go) and plays
-- those bytes back (`PortConn` of pconn.go, Pmux/Playback).
--
-- The SOCKS5 server, server/proxy/socks5.go (Proxy/Socks5), from the greeting over the login to the
-- request that is handed on, as a conversation over a connection (Proxy/Talk).
--
-- Every proxy hands its connections to `DealClient` (server/proxy/base.go, globalconn.go,
-- Proxy/Forward), which counts them, refuses black addresses and forwards the others.
--
-- The bridge, bridge/bridge.go (file Bridge, folder Bridge), knows which client is connected, by an
-- entry with a signal connection and a tunnel, which is a multiplexer. `cliProcess` lets a client in
-- by its key, in conversation with `NewConn` of client/control.go (Bridge/Handshake); `typeDeal` makes
-- its connection the signal or the tunnel, or starts the exchange of a configuration; `ping` and
-- `DelClient` remove clients (Bridge), and all of it in any order is Bridge/Traffic. `getConfig` writes
-- to the registry what a client says about itself, its hosts and its tunnels (Bridge/Config, with the
-- tunnels in Bridge/Config/Tasks and the loop over messages in Bridge/Config/Loop).
-- `GetHealthFromClient` takes targets out and puts them back (Bridge/Health), and the proxies open
-- connections to a client by `SendLinkInfo` (Bridge/Sending). Ports as text and lists of strings are
-- those of lib/common/util.go (Common).
--
-- The cache of lib/cache/lru.go (Cache) and the limiter of lib/rate (Rate), whose goroutine samples
-- the rate that the panel shows.
--
-- The client and the server write each other values on `Conn` (lib/conn/conn.go, Link), with the
-- helpers of lib/common/util.go.
--
-- How the code is read. A struct is a record and a method a function with the Go name in the
-- spelling of this library; an error is `none`, `err` or a constructor of the result. Machine words
-- are natural numbers with the remainders written out. A method of the multiplexer that loops on
-- compare-and-swap is one atomic step, so that interleavings inside a method are not modelled; a
-- loop that waits for another goroutine is a constructor of the result (`spins`, `waits`, `parks`,
-- `stuck`, `blocked`, `retries`). A map is a list of entries, ranged over in its order. Strings are
-- lists of bytes, in UTF-8 where white space is cut off or letters are folded. The counter of hosts
-- is kept as the bits of its int32. `half` is 2^31 or 2^63, by the width of an int. Names drawn at
-- random, password hashes and key digests are arguments, and so is the window size that `calcSize`
-- computes in floating point. A connection of the bridge is a number, a multiplexer has the number
-- of its connection, and a channel is the list of what was sent on it, with no limit at which a
-- sender waits. What an operation asks of the system (whether a file is saved, a port opens or an
-- answer is written) is an argument.
--
-- Fuel. `write_loop` runs on the acknowledgements that come in, and a buffer that fits the free
-- window needs one round for each byte and one more. `search_from` has one round more than there are
-- clients or tunnels, and `get_id` one more than there are connections; both are enough, for `get_id` while the
-- counter is far from the end of its range. The loop of `NewClient` over drawn keys runs on the list
-- of draws. `search_host` has one unit for each byte of the connection, and each line takes one at
-- least; `release` has one more than the queue has slots, `Rate.chunks` one for each byte asked for, and
-- `close_within` one call of `Mux.Close`, inside which another would wait for itself.
-- `get_health_from_client` has one round for each report and one for the end.
--
-- Not modelled: the goroutines, timers, buffer pools and sockets of the multiplexer, its bandwidth
-- and latency estimates, the JSON files of the registry, the listeners of the port multiplexer, the
-- copying behind a forwarded connection, the other proxies, the listeners and deadlines of the bridge
-- and the addresses that a client reports for the panel, the rest of the client, the list of running
-- services of the server, the panel, the commands and the installer.

pub mod Base
pub mod Common
pub mod Bridge
pub mod File
pub mod Proxy
pub mod Pmux
pub mod Cache
pub mod Rate
pub mod Link
pub mod Mux
