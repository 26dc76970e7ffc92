-- ===== src/Lib.antt =====
-- Verification of the titan tunnel server (the module titan-ipoverlay): the SOCKS5 front end, the
-- users and nodes that the service keeps in Redis, the RPC methods that change them, the accounts'
-- side of the tunnel manager, the tunnels to the nodes with both their ends, the manager's choice
-- of a server for a node, and how a node finds its server.
--
-- The program: a client speaks SOCKS5 to a server (ippop), which checks its name and password and
-- hands the connection, or the UDP packets of an association, to the tunnel of the node that the
-- user is bound to. The node's program (client) makes the connection to the target. A node asks an
-- access point (manager) for its server and opens a websocket to it, the tunnel, over which all
-- sessions of the node run. Users, nodes and who is bound to what are in Redis; RPC methods create users
-- and bind and switch their nodes.
--
-- Prelude is what the files share: lists, Go strings as lists of bytes, Boolean tests on native
-- numbers, Go maps (Prelude/Maps), and the state of code that may fail (Prelude/State): what was
-- written before an error stays written.
--
-- Socks5 is ippop/api/socks5.
--   Socks5/Net: package net as a parameter, with its documented laws (NetLaws).
--   Socks5/Wire: a connection as the bytes still to be read and those written.
--   Socks5/Protocol, Socks5/Datagram: protocol.go. readAddrSpec, replySocks5Client, newRequest;
--     newDatagramFromBytes, datagram.Bytes, NewDatagram, parseAddress, toAddress.
--   Socks5/Auth, Socks5/Request: socks5.go. authenticate, userPassAuth; serveSocks5Conn,
--     handleSocks5Request, handleSocks5Connect. A call of the handler is the value returned.
--     Auth/Sent and Request/Sent: the bytes that a client has sent when these succeed.
--   Socks5/Counters: useripcount.go and userudpcount.go.
--   Socks5/Associate: handleSocks5Associate and userUDPCount.decr as steps of any number of
--     connections, one access to the shared state a step; a schedule says who runs and what the
--     environment answers, so every interleaving is a run.
--   Socks5/Udp: udp.go. listen over the range of ports, handleUDPConn for one packet.
--   In Associate.Counts and Associate.Servers "in every interleaving" is every schedule from a
--     start with empty maps.
--
-- Model is ippop/api/model.
--   Model/StructMap: structmap.go, a struct as its list of fields with their tags; strconv and fmt
--     are a parameter (StrconvLaws). Structs with string, bool and integer fields only.
--   Model/Redis: the client as a parameter. View is what can be seen of a database, `apply` what a
--     command is documented to do to it, RedisLaws that commands that succeed do it. Nothing is
--     assumed of a command that fails.
--   Model/Records, Model/Store: user.go, node.go and reidskey.go. Model/Bind: bind.go.
--   Model/Bind/Effects and Consistency: a node is seen as its Binding: its user, whether it is bound,
--     free and online. A Binding is consistent where a free node is neither bound nor has a user,
--     and a node with a user is bound.
--   Model/MemoryRedis, Model/Samples: a database in memory that has the laws, on which the examples
--     run.
--
-- Rpc is ippop/rpc/internal/logic: Rpc/Checks is check.go, Rpc/Users the methods that create,
-- modify, delete, start, stop users, Rpc/Routes SwitchUserRouteNode and GetUser. A response with
-- an ErrMsg is an error, as a nil response is. The clock, MD5 and the answer of the API server are
-- parameters.
--
-- Ws is part of ippop/api/ws: Ws/Access is HandleUserAuth, which answers the front end's question
-- about a password; Ws/Traffic the counts of the users' traffic and the timer that saves them;
-- Ws/Offline what becomes of a node and its user when the node's tunnel ends.
--
-- Tunnel is the tunnel between a server and a node: ippop/api/ws/{tunnel,tcpproxy,udpproxy}.go at
-- the server's end, client/tunnel at the node's.
--   Tunnel/Message: the messages, with protobuf as a parameter (ProtoLaws: a message is read back,
--     only a string that is not UTF-8 cannot be written); a websocket's direction as a queue that
--     takes messages until it breaks; a TCP connection whose failed write is final.
--   Tunnel/Server, Tunnel/Server/Messages, Tunnel/Node: one session at each end, with its entries in
--     the maps (waitList, proxys; proxySessions, proxyUDPs), its goroutine and its connection. A function is what runs
--     between two points where its goroutine blocks: acceptSocks5TCPConn is accept_socks5_tcp_conn,
--     start_select, resume or on_timeout, store_proxy, read_user and stop_user. `taken` and
--     `fetched` record what was read.
--   Tunnel/World: all sessions of a server and a node, their websocket, and one event for each such
--     step of any session, each round of a read loop, and each way a direction or an end stops; a
--     schedule is a list of events, so every interleaving is a run. A session id is fresh: the
--     sessions of a new world are idle, and accept_socks5_tcp_conn starts an idle one.
--   Tunnel/Pipe: what is under way for one session (Ledger), what its steps and those
--     of other sessions write (Writes), and the invariant from the user to the target (Down, Run).
--   Tunnel/Panics: the type assertions of the server on the entries of proxys. Tunnel/Calm: the nil
--     connection of the node. A panic ends the node's program. At the server it ends the step of a
--     session's goroutine, which socks5 recovers, or the tunnel's read loop, which net/http recovers;
--     one of the manager's own goroutine ends the server.
--   Tunnel/Keepalive: the pings; a tunnel is in the manager's map until its read loop ends.
--   The rate limiters only delay, and a failure of their wait is ignored, so they are left out. What
--   time decides (timeouts, ticks) is an event.
--
-- Manager is the choice of a server for a node: manager/model/node.go (Manager/Store, with Redis as
-- a parameter: a command that fails has been carried out or not) and
-- manager/internal/logic/getnodepoplogic.go (Manager/Pops, with Room, Choice and Limits for the loops,
-- Requests for what a request can do and for runs of requests, Sticky for the node's own server,
-- Assigned and Counted for Redis without failing writes). Requests are handled one after another: two
-- at once can both find the last place of a server, which is not modelled.
--
-- Client is how a node finds its server: getPop and getAccessPoint of client/tunnel/tunnel.go
-- (Client/Access) and the list of bootstraps with its file, client/bootstrap/mgr.go
-- (Client/Bootstrap). HTTP, JSON and the file system are parameters.
--
-- An int64 or int32 is its bit pattern; a comparison of two int64 is on patterns moved by 2^63,
-- and a product is modulo 2^64. There is no fuel: the loops are structural, over the bytes that
-- are left, the ports of the range or the fields of a struct.
--
-- Not modelled: the accept loops, deadlines and sockets themselves; acceptWebsocket, the cache of
-- users and the end of a tunnel's session on a new connection of the same node; the HTTP proxy
-- (ippop/httpproxy), the other methods of the manager, the lists of users and nodes; generated code
-- (pb) beyond the messages of the tunnel, configuration and handlers of go-zero. A failing
-- transaction of ippop/api/model is not modelled beyond its error, since Redis may or may not have
-- run it.
pub mod Prelude
pub mod Socks5
pub mod Model
pub mod Rpc
pub mod Ws
pub mod Tunnel
pub mod Manager
pub mod Client
