-- ===== src/Controller/Dispatch.antt =====
-- The requests of ControllerAccess::HandlePacket one by one, and the tables of the manager.
use ipop_tincan.Prelude.{
  ℕ, arith, ◌≡◌, refl, Option, none, some, List, Bytes, codes, nat_eq, bytes_eq, Holds, Holds-bind,
  if◌then◌else◌, Bool, either, ◌>>=◌, pure, not, [], ◌++◌,
}
use ipop_tincan.Map.{find}
use ipop_tincan.Text.{is_empty}
use ipop_tincan.Manager.{Manager}
use ipop_tincan.Manager.Types.{Address, Call}
use ipop_tincan.Manager.Links.{Link, create_transport}
use ipop_tincan.Manager.Links.Safety.{IsConsistent}
use ipop_tincan.Manager.Links.Creation.{create_transport-IsConsistent}
use ipop_tincan.Manager.Links.Removal.{destroy_transport-IsConsistent}
use ipop_tincan.Manager.Candidates.{create_connections}
use ipop_tincan.Xmpp.{Network, Jids, login}
use ipop_tincan.Xmpp.Session.{IsTimed, login-IsTimed}
use ipop_tincan.Controller.{
  Rpc, register_svc, create_link, set_local_ip, set_remote_ip, trim_link, set_cb_endpoint,
  get_state, set_logging, set_translation, set_switchmode, set_trimpolicy, echo_request, echo_reply,
  set_network_ignore_list, other, Json, Env, Effect, Controller, k_default_xmpp_port,
}
use ipop_tincan.Controller.State.{send_state}
use ipop_tincan.Controller.Requests
use ipop_tincan.Controller.Requests.{
  link_up, link_of, dispatch, handle_message, handle_packet, Result,
}
use ipop_tincan.Controller.Tables.{
  setup-IsConsistent, add_ip_mapping-IsConsistent, create_connections-IsConsistent,
}

-- The session keeps its timer, and hears nothing of peers.
abbrev pub Onward : Network → Network → Type 0
Onward n n' =
    (IsTimed n → IsTimed n') × (n'.presence_time ≡ n.presence_time) × (n'.g_uid_map ≡ n.g_uid_map)

pub Onward-same : (n : Network) → Onward n n
Onward-same n = ((λ t. t), refl, refl)

login-Onward :
    (jids : Jids) (now : ℕ) (n : Network) (user pass pcid : Bytes) (server : Address)
    → Onward n (login jids now n user pass pcid server).0
login-Onward jids now n user pass pcid server = (
  login-IsTimed jids now n user pass pcid server,
  unfold login in ground arith,
  unfold login in ground arith,
)

-- The manager's tables agree, and the table of methods and the queues are as before.
abbrev pub Good : Controller → Controller × List Effect → Type 0
Good c r =
    IsConsistent r.0.manager
    × (r.0.rpc_calls ≡ c.rpc_calls)
    × Onward c.network r.0.network
    × (r.0.queues ≡ c.queues)

link_up-IsConsistent :
    (env : Env) (m : Manager) (l : Link) (cas : Bytes)
    → IsConsistent m
    → find env.fresh.transport m.transport_map ≡ none
    → Holds (λ r. IsConsistent r.0) (link_up env m l cas)
unfolding link_up
link_up-IsConsistent env m l cas c fresh =
    let made = create_transport-IsConsistent env.lib m env.fresh l c fresh in
    either (Holds (λ (r : Manager × List Call). IsConsistent r.0)) (is_empty cas)
      (some
        ((create_transport env.lib m env.fresh l).0, (create_transport env.lib m env.fresh l).2))
      _ made
      (join (create_connections env.lib (create_transport env.lib m env.fresh l).0 l.uid cas)
        (create_connections-IsConsistent env.lib _ l.uid cas made))
  where
    join :
        (o : Option (Manager × Bool × List Call))
        → Holds (λ (r : Manager × Bool × List Call). IsConsistent r.0) o
        → Holds
            (λ (r : Manager × List Call). IsConsistent r.0)
            (o >>= λ r. pure (r.0, (create_transport env.lib m env.fresh l).2 ++ r.2))
    join none h = tt
    join (some r) h = h

module _ (env : Env) (c : Controller) (root : Json) (ok : IsConsistent c.manager)
    (fresh : find env.fresh.transport c.manager.transport_map ≡ none) where
  do_register_svc-Good : Holds (Good c) (Requests.do_register_svc env c root)
  unfolding Requests.do_register_svc
  do_register_svc-Good = Holds-bind (Good c) (root.as_string (codes "username")) _ (λ user.
      Holds-bind (Good c) (root.as_string (codes "password")) _ (λ pass.
        Holds-bind (Good c) (root.as_string (codes "host")) _ (λ host.
          Holds-bind (Good c)
            (if root.is_member (codes "port")
              then root.as_int (codes "port")
              else some k_default_xmpp_port)
            _
            (λ port. (
              ok,
              refl,
              login-Onward env.jids env.now c.network user pass c.manager.tincan_id
                  (record { host = host; port = port }),
              refl,
            )))))

  do_create_link-Good : Holds (Good c) (Requests.do_create_link env c root)
  unfolding Requests.do_create_link
  do_create_link-Good = Holds-bind (Good c) (link_of root) _ (λ l.
      Holds-bind (Good c) (root.as_string (codes "cas")) _ (λ cas.
        step (link_up env c.manager l cas) (link_up-IsConsistent env c.manager l cas ok fresh)))
    where
      step :
          (o : Option (Manager × List Call))
          → Holds (λ r. IsConsistent r.0) o
          → Holds (Good c) (o >>= λ r. pure (Requests.with_manager c r))
      step none h = tt
      step (some r) h = (h, refl, Onward-same c.network, refl)

  do_set_local_ip-Good : Holds (Good c) (Requests.do_set_local_ip env c root)
  unfolding Requests.do_set_local_ip
  do_set_local_ip-Good = Holds-bind (Good c) (root.as_string (codes "uid")) _ (λ uid.
      Holds-bind (Good c) (root.as_string (codes "ip4")) _ (λ ip4.
        Holds-bind (Good c) (root.as_string (codes "ip6")) _ (λ ip6.
          Holds-bind (Good c) (root.as_int (codes "ip4_mask")) _ (λ a.
            Holds-bind (Good c) (root.as_int (codes "ip6_mask")) _ (λ b.
              Holds-bind (Good c) (root.as_int (codes "subnet_mask")) _ (λ s.
                Holds-bind (Good c) (root.as_int (codes "switchmode")) _ (λ w. (
                  setup-IsConsistent env.lib c.manager uid ip4 a ip6 b s w ok,
                  refl,
                  Onward-same c.network,
                  refl,
                ))))))))

  do_set_remote_ip-Good : Holds (Good c) (Requests.do_set_remote_ip env c root)
  unfolding Requests.do_set_remote_ip
  do_set_remote_ip-Good = Holds-bind (Good c) (root.as_string (codes "uid")) _ (λ uid.
      Holds-bind (Good c) (root.as_string (codes "ip4")) _ (λ ip4.
        Holds-bind (Good c) (root.as_string (codes "ip6")) _ (λ ip6. (
          add_ip_mapping-IsConsistent env.lib c.manager uid ip4 ip6 ok,
          refl,
          Onward-same c.network,
          refl,
        ))))

  do_trim_link-Good : Holds (Good c) (Requests.do_trim_link c root)
  unfolding Requests.do_trim_link
  do_trim_link-Good =
      Holds-bind (Good c) (root.as_string (codes "uid")) _ (λ uid.
        (destroy_transport-IsConsistent c.manager uid ok, refl, Onward-same c.network, refl))

  do_set_cb_endpoint-Good :
      (addr : Address) → Holds (Good c) (Requests.do_set_cb_endpoint c root addr)
  unfolding Requests.do_set_cb_endpoint
  do_set_cb_endpoint-Good addr = Holds-bind (Good c) (root.as_string (codes "ip")) _ (λ ip.
      Holds-bind (Good c) (root.as_int (codes "port")) _ (λ port. (
        record {
          keyed = ok.keyed;
          registered = ok.registered;
          owned = ok.owned;
          short_owned = ok.short_owned;
        },
        refl,
        Onward-same c.network,
        refl,
      )))

  do_set_network_ignore_list-Good : Holds (Good c) (Requests.do_set_network_ignore_list c root)
  unfolding Requests.do_set_network_ignore_list
  do_set_network_ignore_list-Good =
      either (Holds (Good c)) (not (root.is_array (codes "network_ignore_list"))) (some (c, [])) _
        (ok, refl, Onward-same c.network, refl)
        (Holds-bind (Good c) (root.strings (codes "network_ignore_list")) _
          (λ names. (ok, refl, Onward-same c.network, refl)))

  do_other-Good : (method : Bytes) → Holds (Good c) (Requests.do_other c root method)
  unfolding Requests.do_other
  do_other-Good method = Holds-bind (Good c) (root.as_int (codes "overlay_id")) _ (λ o.
      Holds-bind (Good c) (root.as_string (codes "uid")) _ (λ uid.
        Holds-bind (Good c) (root.as_string (codes "data")) _
          (λ text. (ok, refl, Onward-same c.network, refl))))

  pub dispatch-Good :
      (method : Bytes) (addr : Address) (rpc : Rpc)
      → Holds (Good c) (dispatch env c root method addr rpc)
  unfolding dispatch
  dispatch-Good method addr register_svc = do_register_svc-Good
  dispatch-Good method addr create_link = do_create_link-Good
  dispatch-Good method addr set_local_ip = do_set_local_ip-Good
  dispatch-Good method addr set_remote_ip = do_set_remote_ip-Good
  dispatch-Good method addr trim_link = do_trim_link-Good
  dispatch-Good method addr set_cb_endpoint = do_set_cb_endpoint-Good addr
  dispatch-Good method addr get_state = Holds-bind (Good c) (root.as_string (codes "uid")) _ (λ uid.
      Holds-bind (Good c) (root.as_bool (codes "stats")) _ (λ b.
        Holds-bind (Good c) (send_state env c uid b addr) _
          (λ effects. (ok, refl, Onward-same c.network, refl))))
  dispatch-Good method addr set_logging =
      Holds-bind (Good c) (root.as_int (codes "logging")) _
        (λ l. (ok, refl, Onward-same c.network, refl))
  dispatch-Good method addr set_translation =
      Holds-bind (Good c) (root.as_int (codes "translate")) _
        (λ l. (ok, refl, Onward-same c.network, refl))
  dispatch-Good method addr set_switchmode =
      Holds-bind (Good c) (root.as_int (codes "switchmode")) _
        (λ l. (ok, refl, Onward-same c.network, refl))
  dispatch-Good method addr set_trimpolicy =
      Holds-bind (Good c) (root.as_bool (codes "trim_enabled")) _ (λ l. (
        record {
          keyed = ok.keyed;
          registered = ok.registered;
          owned = ok.owned;
          short_owned = ok.short_owned;
        },
        refl,
        Onward-same c.network,
        refl,
      ))
  dispatch-Good method addr echo_request =
      Holds-bind (Good c) (root.as_string (codes "msg")) _
        (λ l. (ok, refl, Onward-same c.network, refl))
  dispatch-Good method addr echo_reply = (ok, refl, Onward-same c.network, refl)
  dispatch-Good method addr set_network_ignore_list = do_set_network_ignore_list-Good
  dispatch-Good method addr other = do_other-Good method
