-- ===== src/Handlers/Safe/Report.antt =====
-- reporthandler.go: no panic on a message that holds both headers.
use gateway_lite.Protocol.Constants.{msg_report, report_basic_rsp}
use gateway_lite.Gateway.Stable.{push_notify_chan-Keeps}
use gateway_lite.Protocol.Header.{header_size}
use gateway_lite.Protocol.Slice.Laws.{slice_from-long}
use gateway_lite.Store.Data.{Disk}
use gateway_lite.Handlers.Report.{answered, basic, connected, count, enrich}
use gateway_lite.Handlers.Safe.{
  IsLong, IsSafe, IsReady, entered-IsSafe, parsed-IsSafe, session-IsSafe, IsReady-IsStable,
  and_then-IsSafe, write-IsSafe,
}
use gateway_lite.Protocol.Slice.{Slice}
use gateway_lite.Protocol.Messages.{Json, null}
use gateway_lite.Handlers.Report
use gateway_lite.Gateway.{
  wss, push_notify_chan, World, send_rsp, chan_size, put_session, rsp_ch_size, write,
}
use gateway_lite.Common.{
  refl, inl, inr, [], nat_eq, bytes_eq, Bytes, ℕ, Bool-cases, ltb, length, arith, ◌-◌, ◌==◌,
}

notify-IsSafe : (node : Bytes) (v : World) → IsSafe (push_notify_chan node v)
unfolding push_notify_chan
notify-IsSafe node v = elim (Bool-cases (ltb (length v.online_nodes) (chan_size - 100))) [
  | inl y ↦ rw (y, push_notify_chan) (λ q. cc q)
  | inr n ↦ rw (n, push_notify_chan) (λ q. cc q)
]

module _ (json : Json) (ref : ℕ) (msg : Slice) (l : IsLong msg) where
  basic-IsSafe :
      (disk : Disk) (stamp : Bytes) (w : World)
      → IsReady ref ref w
      → IsSafe (basic json disk stamp ref msg w)
  unfolding basic enrich
  basic-IsSafe disk stamp w p =
      parsed-IsSafe header_size msg json.report_basic _ _ w (omega (arith, l.long)) (λ req.
        session-IsSafe ref _ w p.first (λ s e.
          let t = enrich req s in
          let v = put_session ref t w in
          let ready = IsReady-IsStable ref ref in
          let o = push_notify_chan t.node v in
          let r =
            push_notify_chan-Keeps (IsReady ref ref) ready t.node v
              (ready.put ref s t w e refl refl refl p) in
          and_then-IsSafe o.0 o.1 _ (notify-IsSafe t.node v) (λ u.
            and_then-IsSafe _ (write json ref msg_report report_basic_rsp null o.0).1 _
              (write-IsSafe json ref _ _ _ o.0 r.live r.first) (λ a q. cc q))))

  connected-IsSafe :
      (now : ℕ) (w : World) → IsReady ref ref w → IsSafe (connected json now ref msg w)
  unfolding connected count
  connected-IsSafe now w p =
      parsed-IsSafe header_size msg json.report_connect _ _ w (omega (arith, l.long)) (λ req.
        session-IsSafe ref _ w p.first (λ s e. elim (Bool-cases (req.error == [])) [
          | inl y ↦ rw y (λ q. cc q)
          | inr n ↦ rw n (λ q. cc q)
        ]))

  answered-IsSafe : (w : World) → IsReady ref ref w → IsSafe (answered json ref msg w)
  unfolding answered send_rsp
  answered-IsSafe w p = rw (slice_from-long header_size msg (omega (arith, l.long))) (
      session-IsSafe ref _ w p.first (λ s e. elim (Bool-cases (ltb (length s.rsp_ch) rsp_ch_size)) [
        | inl y ↦ rw y (λ q. cc q)
        | inr n ↦ rw n (λ q. cc q)
      ]))

  pub report-IsSafe :
      (disk : Disk) (stamp : Bytes) (now : ℕ) (w : World)
      → IsReady ref ref w
      → IsSafe (Report.handle json disk stamp now (wss ref) msg w)
  unfolding Report.handle
  report-IsSafe disk stamp now w p = entered-IsSafe msg ref _ w l (λ head.
      ground (arith, basic-IsSafe disk stamp w p, answered-IsSafe w p, connected-IsSafe now w p))
