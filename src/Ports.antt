-- ===== src/Ports.antt =====
-- What the connections of the gateway bring: `readLoop` of wssession.go, the UDP servers of
-- udpsession.go, the echo of tcpserver.go, and `initStun` of openp2p.go, which starts these two. What
-- a connection yields is a list of reads, the oldest first.
pub mod Datagram
mod Tests
use gateway_lite.Gateway.Connection.{read_error}
use gateway_lite.Common.Int.{pos}
use gateway_lite.Protocol.Slice.{Slice}
use gateway_lite.Goroutines.Workers.{Ctx}
use gateway_lite.Gateway.{◌>>=◌, ◌>>◌, M, World, pure, UdpAddr, udp, wss}
use gateway_lite.Common.{
  Bool, none, some, [], nat_eq, bytes_eq, Bytes, List, ℕ, Option, utf8, ◌∷◌, if◌then◌else◌, take,
  replicate, ◌&&◌, ◌-◌, length,
}

-- The size of the buffer of a UDP read.
abbrev pub udp_buffer_size : ℕ
udp_buffer_size = 1600

-- msg[:len] of a new buffer that a datagram was read into: what does not fit is cut off, and the bytes
-- behind it are zero.
unfoldable pub datagram : Bytes → Slice
datagram payload =
    let got = take udp_buffer_size payload in
    record { bytes = got; spare = replicate (udp_buffer_size - length got) 0 }

-- A read of a UDP connection: a datagram with its address, or an error.
pub data UdpRead : Type 0 where
  udp_data : UdpAddr → Bytes → UdpRead
  udp_error : UdpRead

-- The address of a failed read, which is nil.
abbrev no_addr : UdpAddr
no_addr = record { ip = utf8 "<nil>"; port = pos 0 }

-- UDPServer.run: what goes to the queue. The empty message of a failed read goes there too, and ends
-- the loop.
unfoldable pub run : List UdpRead → List Ctx
run [] = []
run (udp_data addr payload ∷ reads) = record { sess = udp addr; msg = datagram payload } ∷ run reads
run (udp_error ∷ reads) = record { sess = udp no_addr; msg = datagram [] } ∷ []

-- A read of a websocket connection: a binary message in the slice that the connection makes of it, a
-- message of another type, or an error.
pub data WsRead : Type 0 where
  binary : Slice → WsRead
  other_type : Bytes → WsRead
  read_failed : WsRead

-- readLoop: what goes to the queue, and what becomes of the gateway. An error ends the session.
unfoldable pub read_loop : ℕ → List WsRead → World → List Ctx × World
read_loop ref [] w = ([], w)
read_loop ref (binary msg ∷ reads) w =
    let rest = read_loop ref reads w in (record { sess = wss ref; msg = msg } ∷ rest.0, rest.1)
read_loop ref (other_type msg ∷ reads) w = read_loop ref reads w
read_loop ref (read_failed ∷ reads) w = ([], (read_error ref w).0)

-- A read of eight bytes of a TCP connection, or its end.
pub data TcpRead : Type 0 where
  tcp_data : Bytes → TcpRead
  tcp_error : TcpRead

-- The loop of tcpServer over one connection: every read is answered with the address of the client.
unfoldable pub echo : Bytes → List TcpRead → List Bytes
echo remote [] = []
echo remote (tcp_data got ∷ reads) = remote ∷ echo remote reads
echo remote (tcp_error ∷ reads) = []

abbrev pub ifconfig_port1 : ℕ
ifconfig_port1 = 27180

abbrev pub ifconfig_port2 : ℕ
ifconfig_port2 = 27181

abbrev pub udp_port1 : ℕ
udp_port1 = 27182

abbrev pub udp_port2 : ℕ
udp_port2 = 27183

abbrev pub stun_ports : List ℕ
stun_ports = ifconfig_port1 ∷ ifconfig_port2 ∷ udp_port1 ∷ udp_port2 ∷ []

-- newUDPServer on each port, in their order: the servers that run. The first port on which the system
-- does not listen ends the loop.
unfoldable pub listen_each : (ℕ → Bool) → List ℕ → List ℕ
listen_each listens [] = []
listen_each listens (port ∷ ports) =
    let rest = listen_each listens ports in if listens port then port ∷ rest else []

-- initStun: the TCP servers, which panic where they cannot listen, and the UDP servers.
unfoldable pub init_stun : (ℕ → Bool) → (ℕ → Bool) → Option (List ℕ)
unfolding listen_each
init_stun tcp_listens udp_listens =
    if tcp_listens ifconfig_port1 && tcp_listens ifconfig_port2
    then some (listen_each udp_listens stun_ports)
    else none
