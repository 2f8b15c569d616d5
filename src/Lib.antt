-- ===== src/Lib.antt =====
-- Verification of gateway-lite, the signalling gateway of a peer-to-peer network. Nodes log in over
-- a websocket and keep a session; messages go through one queue to a handler for their main type; a
-- web interface manages users, devices and virtual networks, which a JSON file keeps.
--
-- The parts, and where each is modelled:
--   - Clock: times as nanoseconds since the zero time of time.Time. An operation reads the clock once,
--     as its argument `now`, unless it says otherwise; the module totp is the record `Totp`.
--   - Protocol: protocol.go. `Slice` is a Go byte slice with its capacity, `Header` the two headers
--     and the frame of newMessage, `NodeId` the number of a node, `Constants` the message types,
--     `Messages` the packets, with encoding/json as the record `Json`. A packet has the fields that
--     the gateway uses.
--   - LoginGuard and Password: loginsecurity.go. The guard is a map of records by key.
--   - Version and Crypto: common.go. A buffer is its whole array, and a slice or index out of range is
--     the result `panic`; AES in CBC mode is the record `Cipher`, with its laws in `IsCipher`.
--   - Store: store.go. `Data` has the records, load and save, `Users`, `Devices` and `Networks` the
--     methods, `VirtualIp` the allocation of addresses, with net.ParseCIDR as a parameter, and `Calls`
--     sequences of methods. What the disk makes of the data in a save is an argument of each method, a
--     `Disk`, and so is the formatted time; encoding/json on the file is the record `StoreJson`. A
--     loop over a map visits it in the order of a `MapOrder`, any permutation.
--   - Gateway: wssession.go, udpsession.go and notify.go. A `World` has the sessions in a heap, by
--     reference, the session map from node numbers to references, the permissions, the store, the
--     counts of connection results and the two queues; handlers run in a monad over it, whose outcomes
--     are done, failed, panicked and blocked. `Connection` is the login of a node (handleLogin) and
--     the end of a session (readLoop), `Loops` the loops writeLoop, dealOne and notifyLoop, each in
--     one go.
--   - Handlers: the message handlers over that world, one module each: `Push` for pushhandler.go,
--     `Sdwan` for sdwanhandler.go, `Query` for queryhandler.go, `Nat` for nathandler.go, `Login` for
--     loginhandler.go, `Report` for reporthandler.go and `Relay` for relayhandler.go. `Dispatch` is
--     one round of the loop of msghandler.go, with registerHandler and the table of handlers that main
--     of openp2p.go fills. `Stable`, `Sound` and `Round` relate them to the properties of the world
--     that Gateway/Stable describes, and `Safe` to the panics.
--   - Web: web.go and webmgmt.go, the requests of the web interface over the same world. `Routes` has
--     the routes of runWeb with the middleware, `Accounts` login, registration and profile, `Devices`
--     the requests that go to a device, `Sdwan` the networks and their members. golang-jwt is the
--     record `Jwt`, with its law in Web/Login; what gin reads of a request is a `Request`. While a
--     request waits for a device, the rest of the gateway is a function of the world, `meanwhile`.
--   - System: all of these as one sequence of events over one world, in `Safety` what they come to for
--     the messages of a node, and in `Start` what main of openp2p.go leaves before the first of them.
--   - Goroutines: the goroutines of one session of wssession.go as step relations over its channel and
--     flags: the writers (write, writeBuff), writeLoop and the end of readLoop. `Order`, `Closing` and
--     `Stall` are about their runs, and `Runs` relates them to `Loops` of the gateway. `Workers` has
--     the queue of messages and the sixteen workers of msghandler.go and openp2p.go, between them the
--     other events of `System`.
--   - Ports: what the connections bring: readLoop of wssession.go with the queue, UDPServer.run of
--     udpsession.go with its buffer, tcpServer of tcpserver.go and initStun of openp2p.go. What a
--     connection yields is a list of reads.
--   - Logger: log.go: NewLogger, the filter and the outputs of a message and one tick of checkFile.
--     The package os is the record `Os`, and the text that fmt makes of a message is an argument.
--   - Environment: the helpers of common.go that read the host, and parseParams of openp2p.go, with
--     what they read as arguments. `Sample` has what the tests share.
--
-- Bounds: the loop of allocVirtualIP has the source's own bound, 2 ^ 24 rounds. A number of 64 bits
-- has at most 20 decimal digits, the fuel of `format_uint`. In the world of the gateway the channel
-- of a session is what it has taken and its write loop has not sent, and a send that waits for the
-- write loop is taken to go through: writeBuff and dealOne do not wait there, as they do in the code
-- on a full channel whose write loop has ended. The ten places of the channel are those of
-- `Goroutines`, where a writer waits for room, and `Stall` is about a writer that waits for good.
-- The ten places of rspCh are in the world, since only a web request empties it, and the thousand of
-- the queue of messages are in `Goroutines/Workers`. That the store's JSON gives its data back is a
-- hypothesis of the restart, and a null in the place of a record in the file is taken not to occur.
-- The loop of defaultNodeName has nine rounds, one more than the bytes that a name can lack.
--
-- Not modelled: the page of the web interface (webui.go), the routes and the report of
-- sessionMgr.run in wssession.go, UDPServer.stop, which nothing calls, and netInfo and execOutput of
-- common.go, which only ask the network or the host. The mutexes do not appear: each method of a
-- component is one step, and so is the handling of a message by a worker or of a web request, but
-- for the wait in it; a session's test of `running`, its sends and the two statements that end it
-- are steps of their own in `Goroutines`. A read of a variable sees the last write to it, although
-- sess.running is not synchronized.
mod Common
pub mod Clock
pub mod Protocol
pub mod Version
pub mod LoginGuard
pub mod Password
pub mod Crypto
pub mod Store
pub mod Gateway
pub mod Handlers
pub mod Web
pub mod System
pub mod Environment
pub mod Logger
pub mod Goroutines
pub mod Ports
pub mod Sample
