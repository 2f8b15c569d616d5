-- ===== src/Handlers/Report.antt =====
-- reporthandler.go: what a node reports of itself, of its answers and of its connections.
use gateway_lite.Common.{
  Bytes, [], bytes_eq, if◌then◌else◌, insert, lookup, nat_eq, none, some, utf8, ℕ, ◌+◌, ◌==◌, ◌||◌,
}
use gateway_lite.Version.{parse_major_ver}
use gateway_lite.Protocol.Slice.{Slice, slice_from}
use gateway_lite.Protocol.Header.{header_size}
use gateway_lite.Protocol.NodeId.{node_name_to_id}
use gateway_lite.Protocol.Constants.{
  msg_report, report_basic, report_query, report_apps, report_connect, report_basic_rsp,
  push_report_log,
}
use gateway_lite.Protocol.Messages.{Json, ReportBasic, null}
use gateway_lite.Store.Data.{StoreDevice, Disk}
use gateway_lite.Store.Devices.{upsert_device}
use gateway_lite.Gateway.{
  World, Session, Sender, M, ◌>>=◌, ◌>>◌, pure, or_fail, or_panic, modify, read_header, as_wss,
  session, put_session, write, send_rsp, push_notify_chan,
}

-- The session with what the node reports.
unfoldable pub enrich : ReportBasic → Session → Session
enrich req s = record s {
  os = req.os;
  mac = req.mac;
  lan_ip = req.lan_ip;
  has_ipv4 = req.has_ipv4;
  has_upnp_or_natpmp = req.has_upnp_or_natpmp;
  ipv6 = req.ipv6;
  version = req.version;
  major_ver = parse_major_ver req.version;
}

-- The device that is stored of a session, active at this formatted time.
unfoldable pub device_of : Session → Bytes → StoreDevice
device_of s stamp = record {
  name = s.node;
  user = s.user;
  os = s.os;
  mac = s.mac;
  lan_ip = s.lan_ip;
  ipv4 = s.ipv4;
  ipv6 = s.ipv6;
  nat_type = s.nat_type;
  bandwidth = s.share_band_width;
  version = s.version;
  remark = [];
  addtime = [];
  activetime = stamp;
}

-- connectResult[key]++
unfoldable pub count : Bytes → World → World
count key w = record w {
  connect_result =
      insert key (elim (lookup key w.connect_result) [ none ↦ 1 | some n ↦ n + 1 ])
        w.connect_result;
}

abbrev pub total_ok : Bytes
total_ok = utf8 "totalP2PConnectOK"

module _ (json : Json) where
  unfoldable pub basic : Disk → Bytes → ℕ → Slice → M (Unit {0})
  basic disk stamp ref msg = do
    body ← or_panic (slice_from header_size msg)
    req ← or_fail (json.report_basic body) (utf8 "wrong ReportBasic")
    old ← session ref
    let sess = enrich req old
    modify (put_session ref sess)
    push_notify_chan sess.node
    write json ref msg_report report_basic_rsp null
    modify (λ w. record w { store = upsert_device disk stamp w.store (device_of sess stamp) })

  -- Every result is counted, under the text of its error; a failure is remembered by the peer.
  unfoldable pub connected : ℕ → ℕ → Slice → M (Unit {0})
  unfolding count
  connected now ref msg = do
    body ← or_panic (slice_from header_size msg)
    req ← or_fail (json.report_connect body) (utf8 "wrong MsgReportConnect")
    sess ← session ref
    modify (count req.error)
    if req.error == []
        then modify (count total_ok)
        else modify (
            put_session ref (record sess {
              fail_nodes = insert (node_name_to_id req.peer_node) now sess.fail_nodes;
            }))

  -- An answer that a web request waits for.
  unfoldable pub answered : ℕ → Slice → M (Unit {0})
  answered ref msg = do body ← or_panic (slice_from header_size msg); send_rsp ref body

  unfoldable pub handle : Disk → Bytes → ℕ → Sender → Slice → M (Unit {0})
  unfolding answered
  handle disk stamp now sender msg = do
    head ← read_header msg
    ref ← as_wss sender
    if head.sub_type == report_basic
        then basic disk stamp ref msg
        else if head.sub_type == report_query
            || head.sub_type == report_apps
            || head.sub_type == push_report_log
        then answered ref msg
        else if head.sub_type == report_connect
        then connected now ref msg
        else pure tt
