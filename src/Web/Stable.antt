-- ===== src/Web/Stable.antt =====
-- The requests of Web/Accounts and Web/Devices (web.go, webmgmt.go), and the properties of the world
-- that Gateway/Stable describes.
use gateway_lite.Protocol.NodeId.{node_name_to_id}
use gateway_lite.Protocol.Constants.{msg_push, push_report_apps, push_report_log, push_restart}
use gateway_lite.Web.Devices.{
  edit_node, get_device_log, list_apps, push_app, push_edit, rename, restart_device, take_rsp,
  wait_rsp, with_session, answer_with, find_session, pop_rsp, wait_more, log_request,
}
use gateway_lite.Store.Calls.{step, adds, updates, renames}
use gateway_lite.Password.{constant_time_equal}
use gateway_lite.Store.Users.{get_user, add_user, update_user_profile}
use gateway_lite.Store.Data.{StoreUser}
use gateway_lite.LoginGuard.{allowed}
use gateway_lite.Protocol.Messages.{ProfileInfo, EditNode, app_info_of, null, report_log_req_of}
use gateway_lite.Web.Accounts.{
  accept, check_password, enter_user, get_profile, login_as, register_user, update_profile,
  web_login, ask_guard, change_profile, refuse, register_checked, guard_key, claim_of, new_user,
}
use gateway_lite.Web.{Host, Request, Response}
use gateway_lite.Gateway.{World, M, Session, write}
use gateway_lite.Common.{
  Bytes, none, some, inl, inr, nat_eq, bytes_eq, Option-cases, Option, arith, Bool-cases, refl, [],
  ℕ, lookup, List, ◌≡◌, ◌∷◌,
}
use gateway_lite.Gateway.Stable.{IsStable, Keeps, and_then-Keeps, write-Keeps, session-Keeps}

module _ (P : World → Type 0) (stable : IsStable P) (host : Host) where
  -- Accounts.
  pub accept-Keeps :
      (key : Bytes) (req : ProfileInfo) (u : StoreUser) → Keeps P (accept host key req u)
  unfolding accept
  accept-Keeps key req u w p =
      elim (Option-cases (host.jwt.sign host.secret (claim_of host req u))) [
        | inl e ↦ rw e (stable.guarded _ w p)
        | inr (token, e) ↦ rw e (stable.guarded _ w p)
      ]

  pub check_password-Keeps :
      (key : Bytes) (req : ProfileInfo) (o : Option StoreUser)
      → Keeps P (check_password host key req o)
  unfolding check_password refuse
  check_password-Keeps key req none w p = stable.guarded _ w p
  check_password-Keeps key req (some u) w p =
      elim (Bool-cases (constant_time_equal u.password req.password)) [
        | inl y ↦ rw y (accept-Keeps key req u w p)
        | inr n ↦ rw n (stable.guarded _ w p)
      ]

  pub login_as-Keeps : (key : Bytes) (req : ProfileInfo) → Keeps P (login_as host key req)
  unfolding login_as ask_guard
  login_as-Keeps key req w p =
      let a = allowed w.guard key host.now host.later in
      elim (Bool-cases a.1.0) [
        | inl y ↦ rw y (check_password-Keeps key req _ _ (stable.guarded a.0 w p))
        | inr n ↦ rw n (stable.guarded a.0 w p)
      ]

  pub web_login-Keeps : (r : Request) → Keeps P (web_login host r)
  unfolding web_login
  web_login-Keeps r w p = elim (Option-cases (host.web_json.profile_info r.body)) [
    | inl e ↦ rw (e, web_login) p
    | inr (req, e) ↦ rw (e, web_login) (login_as-Keeps (guard_key r req) req w p)
  ]

  pub enter_user-Keeps : (u : StoreUser) → Keeps P (enter_user host u)
  unfolding enter_user step
  enter_user-Keeps u w p =
      let q = stable.store host.disk host.stamp (adds u) w p in
      elim (Option-cases (add_user host.disk host.stamp w.store u).1) [
        | inl e ↦ rw (e, enter_user) q
        | inr (t, e) ↦ rw (e, enter_user) q
      ]

  pub register_user-Keeps : (r : Request) → Keeps P (register_user host r)
  unfolding register_user register_checked
  register_user-Keeps r w p = elim (Option-cases (host.web_json.profile_info r.body)) [
    | inl e ↦ rw (e, register_user) p
    | inr (req, e) ↦
        rw (e, register_user) (ground (arith, p, enter_user-Keeps (new_user req host.stamp) w p))
  ]

  pub get_profile-Keeps : (user : Bytes) → Keeps P (get_profile user)
  unfolding get_profile
  get_profile-Keeps user w p = elim (Option-cases (get_user w.store user)) [
    | inl e ↦ rw (e, get_profile) p
    | inr (u, e) ↦ rw (e, get_profile) p
  ]

  pub update_profile-Keeps : (user : Bytes) (r : Request) → Keeps P (update_profile host user r)
  unfolding update_profile change_profile step
  update_profile-Keeps user r w p = elim (Option-cases (host.web_json.profile_info r.body)) [
    | inl e ↦ rw (e, update_profile) p
    | inr (req, e) ↦
        let q = stable.store host.disk host.stamp (updates user req.email req.phone) w p in
        rw (e, update_profile)
          (elim (Option-cases (update_user_profile host.disk w.store user req.email req.phone).1) [
            | inl f ↦ rw (f, change_profile) q
            | inr (t, f) ↦ rw (f, change_profile) q
          ])
  ]

  -- Devices.
  pub with_session-Keeps :
      (name : Bytes) (f : ℕ → M Response)
      → ((ref : ℕ) → Keeps P (f ref))
      → Keeps P (with_session name f)
  unfolding with_session find_session
  with_session-Keeps name f k w p =
      elim (Option-cases (lookup (node_name_to_id name) w.all_sessions)) [
        | inl e ↦ rw (e, with_session) p
        | inr (ref, e) ↦ rw (e, with_session) (k ref w p)
      ]

  pub take_rsp-Keeps : (ref : ℕ) → Keeps P (take_rsp ref)
  unfolding take_rsp pop_rsp
  take_rsp-Keeps ref =
      session-Keeps P ref (λ s. pop_rsp ref s s.rsp_ch) (λ s w e p. popped s s.rsp_ch w e p)
    where
      popped :
          (s : Session) (l : List Bytes) (w : World)
          → lookup ref w.sessions ≡ some s
          → P w
          → P (pop_rsp ref s l w).0
      popped s [] w e p = p
      popped s (b ∷ bs) w e p = stable.put ref s (record s { rsp_ch = bs }) w e refl refl refl p

  module _ (quiet : (w : World) → P w → P (host.meanwhile w)) where
    pub wait_rsp-Keeps : (ref : ℕ) → Keeps P (wait_rsp host ref)
    unfolding wait_rsp wait_more
    wait_rsp-Keeps ref w p =
        and_then-Keeps P (take_rsp ref w).0 (take_rsp ref w).1 (wait_more host ref)
          (take_rsp-Keeps ref w p) waited
      where
        waited : (o : Option Bytes) → Keeps P (wait_more host ref o)
        waited none v q = take_rsp-Keeps ref (host.meanwhile v) (quiet v q)
        waited (some b) v q = q

    pub answer_with-Keeps : (status : ℕ) (o : Option Bytes) → Keeps P (answer_with status o)
    answer_with-Keeps status none w p = p
    answer_with-Keeps status (some b) w p = p

    pub list_apps-Keeps : (r : Request) → Keeps P (list_apps host r)
    unfolding list_apps
    list_apps-Keeps r = with_session-Keeps r.name _ (λ ref w p.
        and_then-Keeps P _ (write host.json ref msg_push push_report_apps null w).1 _
          (write-Keeps P stable host.json ref _ _ _ w p)
          (λ u v q.
            and_then-Keeps P _ (wait_rsp host ref v).1 _ (wait_rsp-Keeps ref v q)
              (answer_with-Keeps 404)))

    pub get_device_log-Keeps : (r : Request) → Keeps P (get_device_log host r)
    unfolding get_device_log
    get_device_log-Keeps r = with_session-Keeps r.name _ (λ ref w p.
        and_then-Keeps P _ (take_rsp ref w).1 _ (take_rsp-Keeps ref w p) (λ stale v q.
          and_then-Keeps P _
            (write host.json ref msg_push push_report_log (report_log_req_of (log_request r)) v).1 _
            (write-Keeps P stable host.json ref _ _ _ v q)
            (λ u x a.
              and_then-Keeps P _ (wait_rsp host ref x).1 _ (wait_rsp-Keeps ref x a)
                (answer_with-Keeps 200))))

  pub push_app-Keeps :
      (sub_type : ℕ) (r : Request) (ref : ℕ) → Keeps P (push_app host sub_type r ref)
  unfolding push_app
  push_app-Keeps sub_type r ref w p = elim (Option-cases (host.web_json.app_info r.body)) [
    | inl e ↦ rw (e, push_app) p
    | inr (app, e) ↦
        rw (e, push_app)
          (and_then-Keeps P _ (write host.json ref msg_push sub_type (app_info_of app) w).1 _
            (write-Keeps P stable host.json ref _ _ _ w p) (λ u v q. q))
  ]

  pub restart_device-Keeps : (r : Request) → Keeps P (restart_device host r)
  unfolding restart_device
  restart_device-Keeps r = with_session-Keeps r.name _ (λ ref w p.
      and_then-Keeps P _ (write host.json ref msg_push push_restart null w).1 _
        (write-Keeps P stable host.json ref _ _ _ w p) (λ u v q. q))

  pub rename-Keeps : (name new_name : Bytes) (w : World) → P w → P (rename host name new_name w)
  unfolding rename step
  rename-Keeps name new_name w p =
      let q = stable.store host.disk host.stamp (renames name new_name) w p in ground arith

  pub push_edit-Keeps : (req : EditNode) (o : Option ℕ) → Keeps P (push_edit host req o)
  unfolding push_edit
  push_edit-Keeps req none w p = p
  push_edit-Keeps req (some ref) w p = write-Keeps P stable host.json ref _ _ _ w p

  pub edit_node-Keeps : (r : Request) → Keeps P (edit_node host r)
  unfolding edit_node find_session
  edit_node-Keeps r w p = elim (Option-cases (host.web_json.edit_node r.body)) [
    | inl e ↦ rw (e, edit_node) p
    | inr (req, e) ↦
        rw (e, edit_node)
          (let o = lookup (node_name_to_id r.name) w.all_sessions in
            and_then-Keeps P _ (push_edit host req o w).1 _ (push_edit-Keeps req o w p)
              (λ u v q. rename-Keeps r.name req.new_name v q))
  ]
