-- ===== src/Web/Answers.antt =====
-- Which waiting answer of a device a web request takes.
use gateway_lite.Protocol.Constants.{msg_push, push_report_apps, push_report_log}
use gateway_lite.Protocol.Header.{new_message}
use gateway_lite.Protocol.NodeId.{node_name_to_id}
use gateway_lite.Web.{Host, Request, text}
use gateway_lite.Protocol.Messages.{Json, Packet, report_log_req_of, null}
use gateway_lite.Web.Devices.{
  get_device_log, list_apps, take_rsp, wait_rsp, wait_more, with_session, find_session, pop_rsp,
  log_request, answer_with,
}
use gateway_lite.Common.{
  refl, none, some, true, false, inl, inr, [], nat_eq, bytes_eq, ℕ, List, Bytes, Option, lookup,
  ◌∷◌, ◌≡◌, Option-cases, ◌++◌, lookup-insert_self,
}
use gateway_lite.Gateway.{
  ◌>>=◌, done, write, write_buff, session, World, Session, put_session, and_then,
}

-- A session of the world that runs, with these answers waiting.
abbrev pub Waits : ℕ → List Bytes → World → Type 0
Waits ref l w =
    (s : Session) × (lookup ref w.sessions ≡ some s)
    × (s.running ≡ true)
    × (s.closed ≡ false)
    × (s.rsp_ch ≡ l)

write_buff-Waits :
    (ref : ℕ) (msg : Bytes) (l : List Bytes) (w : World)
    → Waits ref l w
    → ((write_buff ref msg w).1 ≡ done tt) × Waits ref l (write_buff ref msg w).0
unfolding write_buff session
write_buff-Waits ref msg l w (s, e, go, c, q) =
    let t = record s { write_ch = s.write_ch ++ msg ∷ [] } in
    let whole : write_buff ref msg w ≡ (put_session ref t w, done tt) =
      rw (e, write_buff, go, c) refl in
    rw whole (refl, (t, lookup-insert_self ref t w.sessions, go, c, q))

-- A request to the device leaves the answers.
write-Waits :
    (json : Json) (ref main_type sub_type : ℕ) (packet : Packet) (l : List Bytes) (w : World)
    → Waits ref l w
    → ((write json ref main_type sub_type packet w).1 ≡ done tt)
      × Waits ref l (write json ref main_type sub_type packet w).0
unfolding write
write-Waits json ref main_type sub_type packet l w a =
    elim (Option-cases (new_message main_type sub_type (json.marshal packet))) [
      | inl e ↦ rw (e, write) (refl, a)
      | inr (msg, e) ↦ rw (e, write) (write_buff-Waits ref msg l w a)
    ]

take_rsp-none : (ref : ℕ) (w : World) → Waits ref [] w → take_rsp ref w ≡ (w, done none)
unfolding take_rsp session pop_rsp
take_rsp-none ref w (s, e, go, c, q) = rw (e, take_rsp, q) refl

take_rsp-some :
    (ref : ℕ) (b : Bytes) (bs : List Bytes) (w : World)
    → Waits ref (b ∷ bs) w
    → ((take_rsp ref w).1 ≡ done (some b)) × Waits ref bs (take_rsp ref w).0
unfolding take_rsp session pop_rsp
take_rsp-some ref b bs w (s, e, go, c, q) =
    let t = record s { rsp_ch = bs } in
    let whole : take_rsp ref w ≡ (put_session ref t w, done (some b)) = rw (e, take_rsp, q) refl in
    rw whole (refl, (t, lookup-insert_self ref t w.sessions, go, c, refl))

-- An answer that waits is taken at once.
wait_rsp-old :
    (host : Host) (ref : ℕ) (b : Bytes) (bs : List Bytes) (w : World)
    → Waits ref (b ∷ bs) w
    → (wait_rsp host ref w).1 ≡ done (some b)
unfolding wait_rsp wait_more
wait_rsp-old host ref b bs w a = rw ((take_rsp-some ref b bs w a).0) refl

-- Where none waits, the one that comes in the meantime is taken.
wait_rsp-new :
    (host : Host) (ref : ℕ) (b : Bytes) (w : World)
    → Waits ref [] w
    → Waits ref (b ∷ []) (host.meanwhile w)
    → (wait_rsp host ref w).1 ≡ done (some b)
unfolding wait_rsp wait_more
wait_rsp-new host ref b w a k =
    rw (take_rsp-none ref w a) ((take_rsp-some ref b [] (host.meanwhile w) k).0)

-- listApps of a device that is online with an answer left over from an earlier request answers with
-- this old answer, whatever the device sends while the request waits.
pub list_apps-old :
    (host : Host) (r : Request) (w : World) (ref : ℕ) (b : Bytes) (bs : List Bytes)
    → lookup (node_name_to_id r.name) w.all_sessions ≡ some ref
    → Waits ref (b ∷ bs) w
    → (list_apps host r w).1 ≡ done (record { status = 200; body = text b })
unfolding list_apps with_session find_session
list_apps-old host r w ref b bs e a =
    let k = write-Waits host.json ref msg_push push_report_apps null (b ∷ bs) w a in
    let v = (write host.json ref msg_push push_report_apps null w).0 in
    let o = wait_rsp-old host ref b bs v k.1 in rw (e, with_session, k.0, o) refl

-- getDeviceLog of a device that is online, with at most one answer left over, answers with what the
-- device sends while the request waits.
pub get_device_log-new :
    (host : Host) (r : Request) (w : World) (ref : ℕ) (old : Option Bytes) (b : Bytes)
    → lookup (node_name_to_id r.name) w.all_sessions ≡ some ref
    → Waits ref (elim old [ none ↦ [] | some a ↦ a ∷ [] ]) w
    → ((v : World) → Waits ref [] v → Waits ref (b ∷ []) (host.meanwhile v))
    → (get_device_log host r w).1 ≡ done (record { status = 200; body = text b })
unfolding get_device_log with_session find_session
get_device_log-new host r w ref old b e a sends = rest old a
  where
    packet : Packet
    packet = report_log_req_of (log_request r)

    answered :
        (v : World)
        → Waits ref [] v
        → (and_then
            (write host.json ref msg_push push_report_log packet v).0
            (write host.json ref msg_push push_report_log packet v).1
            (λ u. wait_rsp host ref >>= answer_with 200)).1
          ≡ done (record { status = 200; body = text b })
    answered v q =
        let k = write-Waits host.json ref msg_push push_report_log packet [] v q in
        let x = (write host.json ref msg_push push_report_log packet v).0 in
        let o = wait_rsp-new host ref b x k.1 (sends x k.1) in rw (k.0, o) refl

    rest :
        (old : Option Bytes)
        → Waits ref (elim old [ none ↦ [] | some a ↦ a ∷ [] ]) w
        → (get_device_log host r w).1 ≡ done (record { status = 200; body = text b })
    rest none q = rw (e, get_device_log, with_session, take_rsp-none ref w q) (answered w q)
    rest (some c) q =
        let t = take_rsp-some ref c [] w q in
        rw (e, get_device_log, with_session, t.0) (answered (take_rsp ref w).0 t.1)
