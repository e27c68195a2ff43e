-- ===== src/Controller/Answering.antt =====
-- Which requests of the controller ControllerAccess::HandlePacket takes to their end.
use ipop_tincan.Prelude.{
  ℕ, suc, zero, ◌<◌, ◌≡◌, refl, inl, inr, Bool, not, Option, none, some, List, [], ◌∷◌, ◌++◌, Bytes,
  codes, nat_eq, bytes_eq, arith, length, take, Returns, bind-Returns, not_none-Returns, ◌>>=◌,
  nat_beq, ltb, ◌||◌, if◌then◌else◌, either,
}
use ipop_tincan.Text.{is_empty}
use ipop_tincan.Text.Words.{extract, extract-words}
use ipop_tincan.Manager.{Manager, Libjingle}
use ipop_tincan.Manager.Types.{Address, Candidate}
use ipop_tincan.Manager.Links.{Link, create_transport}
use ipop_tincan.Manager.Candidates.{read_loop, add_candidate, create_connections}
use ipop_tincan.Manager.Report.States.{IsWired, get_state_total}
use ipop_tincan.Controller.{
  Rpc, register_svc, create_link, set_local_ip, set_remote_ip, trim_link, set_cb_endpoint,
  get_state, set_logging, set_translation, set_switchmode, set_trimpolicy, echo_request, echo_reply,
  set_network_ignore_list, other, Json, Env, Controller, k_default_xmpp_port, lookup_rpc,
}
use ipop_tincan.Text.CString.{c_string}
use ipop_tincan.Text.Fields.{Free}
use ipop_tincan.Wire.{k_tincan_packet, k_icc_control, k_icc_packet}
use ipop_tincan.Controller.Framing.{message_of-frame}
use ipop_tincan.Controller.State.{friends_of, send_state}
use ipop_tincan.Controller.Requests.{
  link_of, link_up, dispatch, handle_message, handle_packet, do_register_svc, do_create_link,
  do_set_local_ip, do_set_remote_ip, do_trim_link, do_set_cb_endpoint, do_set_network_ignore_list,
  do_other,
}

-- The members that a request is asked for, by the type that they are converted to.
pub record Members : Type 0 where
  pub texts : List Bytes
  pub ints : List Bytes
  pub flags : List Bytes

abbrev pub members : Rpc → Members
members register_svc = record {
  texts = codes "username" ∷ codes "password" ∷ codes "host" ∷ [];
  ints = codes "port" ∷ [];
  flags = [];
}
members create_link = record {
  texts =
      codes "uid"
      ∷ codes "fpr"
      ∷ codes "stun"
      ∷ codes "turn"
      ∷ codes "turn_user"
      ∷ codes "turn_pass"
      ∷ codes "cas"
      ∷ [];
  ints = codes "overlay_id" ∷ [];
  flags = codes "sec" ∷ [];
}
members set_local_ip = record {
  texts = codes "uid" ∷ codes "ip4" ∷ codes "ip6" ∷ [];
  ints = codes "ip4_mask" ∷ codes "ip6_mask" ∷ codes "subnet_mask" ∷ codes "switchmode" ∷ [];
  flags = [];
}
members set_remote_ip = record {
  texts = codes "uid" ∷ codes "ip4" ∷ codes "ip6" ∷ [];
  ints = [];
  flags = [];
}
members trim_link = record { texts = codes "uid" ∷ []; ints = []; flags = [] }
members set_cb_endpoint = record { texts = codes "ip" ∷ []; ints = codes "port" ∷ []; flags = [] }
members get_state = record { texts = codes "uid" ∷ []; ints = []; flags = codes "stats" ∷ [] }
members set_logging = record { texts = []; ints = codes "logging" ∷ []; flags = [] }
members set_translation = record { texts = []; ints = codes "translate" ∷ []; flags = [] }
members set_switchmode = record { texts = []; ints = codes "switchmode" ∷ []; flags = [] }
members set_trimpolicy = record { texts = []; ints = []; flags = codes "trim_enabled" ∷ [] }
members echo_request = record { texts = codes "msg" ∷ []; ints = []; flags = [] }
members echo_reply = record { texts = []; ints = []; flags = [] }
members set_network_ignore_list = record { texts = []; ints = []; flags = [] }
members other = record {
  texts = codes "uid" ∷ codes "data" ∷ [];
  ints = codes "overlay_id" ∷ [];
  flags = [];
}

abbrev pub AllReturn {ℓ} : {A : Type ℓ} → (Bytes → Option A) → List Bytes → Type ℓ
AllReturn f [] = Unit
AllReturn f (name ∷ names) = Returns (f name) × AllReturn f names

-- The members can be converted, and the strings of an array too.
pub record IsTyped (root : Json) (rpc : Rpc) : Type 0 where
  pub texts : AllReturn root.as_string (members rpc).texts
  pub ints : AllReturn root.as_int (members rpc).ints
  pub flags : AllReturn root.as_bool (members rpc).flags
  pub strings : Returns (root.strings (codes "network_ignore_list"))

read_loop-Returns :
    (lib : Libjingle) (fuel : ℕ) (s : Bytes) (cs : List Candidate)
    → length s < fuel
    → Returns (read_loop lib fuel s cs)
unfolding read_loop
read_loop-Returns lib zero s cs h = elim h [ ]
read_loop-Returns lib (suc fuel) s cs h = elim (extract-words s) [
  | inl (e, f) ↦ rw (e, read_loop) (_, refl)
  | inr (c, w, e, f, k) ↦
      rw (e, read_loop)
        (rw e
          (read_loop-Returns lib fuel (extract s).1 (add_candidate lib (c ∷ w) cs) (omega arith)))
]

pub create_connections-Returns :
    (lib : Libjingle) (m : Manager) (uid text : Bytes) → Returns (create_connections lib m uid text)
unfolding create_connections
create_connections-Returns lib m uid text =
    let (cs, e) = read_loop-Returns lib (suc (length text)) text [] (omega arith) in
    not_none-Returns _ (λ h. ground (arith, e, h))

link_up-Returns : (env : Env) (m : Manager) (l : Link) (cas : Bytes) → Returns (link_up env m l cas)
unfolding link_up
link_up-Returns env m l cas =
    either Returns (is_empty cas) _ _ (_, refl)
      (bind-Returns
        (create_connections env.lib (create_transport env.lib m env.fresh l).0 l.uid cas) _
        (create_connections-Returns env.lib (create_transport env.lib m env.fresh l).0 l.uid cas)
        (λ r e. (_, refl)))

-- A member that is there, and then the rest.
chain {ℓ κ} :
    {A : Type ℓ} {B : Type κ} {o : Option A} {f : A → Option B}
    → Returns o
    → ((a : A) → Returns (f a))
    → Returns (o >>= f)
chain {o = o} {f = f} r h = bind-Returns o f r (λ a e. h a)

module _ (env : Env) (c : Controller) (root : Json) where
  do_register_svc-Returns : IsTyped root register_svc → Returns (do_register_svc env c root)
  unfolding do_register_svc
  do_register_svc-Returns t =
      let (user, (pass, (host, u))) = t.texts in
      chain user (λ a. chain pass (λ b. chain host (λ d.
        chain
          (either Returns (root.is_member (codes "port")) _ (some k_default_xmpp_port) t.ints.0
            (_, refl))
          (λ f. (_, refl)))))

  link_of-Returns : IsTyped root create_link → Returns (link_of root)
  unfolding link_of
  link_of-Returns t =
      let (uid, (fpr, (stun, (turn, (user, (pass, (cas, u))))))) = t.texts in
      chain t.ints.0 (λ a. chain uid (λ a. chain fpr (λ a. chain stun (λ a.
        chain turn (λ a. chain user (λ a. chain pass (λ a. chain t.flags.0 (λ a. (_, refl)))))))))

  do_create_link-Returns : IsTyped root create_link → Returns (do_create_link env c root)
  unfolding do_create_link
  do_create_link-Returns t =
      let (uid, (fpr, (stun, (turn, (user, (pass, (cas, u))))))) = t.texts in
      chain (link_of-Returns t)
        (λ l. chain cas (λ a. chain (link_up-Returns env c.manager l a) (λ r. (_, refl))))

  do_set_local_ip-Returns : IsTyped root set_local_ip → Returns (do_set_local_ip env c root)
  unfolding do_set_local_ip
  do_set_local_ip-Returns t =
      let (uid, (ip4, (ip6, u))) = t.texts in
      let (mask4, (mask6, (subnet, (switch, v)))) = t.ints in
      chain uid (λ a. chain ip4 (λ a. chain ip6 (λ a.
        chain mask4 (λ a. chain mask6 (λ a. chain subnet (λ a. chain switch (λ a. (_, refl))))))))

  do_set_remote_ip-Returns : IsTyped root set_remote_ip → Returns (do_set_remote_ip env c root)
  unfolding do_set_remote_ip
  do_set_remote_ip-Returns t =
      let (uid, (ip4, (ip6, u))) = t.texts in
      chain uid (λ a. chain ip4 (λ a. chain ip6 (λ a. (_, refl))))

  send_state-Returns :
      (uid : Bytes) (get_stats : Bool) (addr : Address)
      → IsWired env.net c.manager
      → Returns (send_state env c uid get_stats addr)
  unfolding send_state
  send_state-Returns uid get_stats addr wired =
      let (peers, made, says) =
        get_state_total env.reporter env.net c.manager (friends_of env c uid) get_stats wired in
      chain (peers, made) (λ p. (_, refl))

  dispatch-Returns :
      (method : Bytes) (addr : Address) (rpc : Rpc)
      → IsTyped root rpc
      → IsWired env.net c.manager
      → Returns (dispatch env c root method addr rpc)
  unfolding dispatch do_trim_link do_set_cb_endpoint do_set_network_ignore_list do_other
  dispatch-Returns method addr register_svc t w = do_register_svc-Returns t
  dispatch-Returns method addr create_link t w = do_create_link-Returns t
  dispatch-Returns method addr set_local_ip t w = do_set_local_ip-Returns t
  dispatch-Returns method addr set_remote_ip t w = do_set_remote_ip-Returns t
  dispatch-Returns method addr trim_link t w = chain t.texts.0 (λ a. (_, refl))
  dispatch-Returns method addr set_cb_endpoint t w =
      chain t.texts.0 (λ a. chain t.ints.0 (λ a. (_, refl)))
  dispatch-Returns method addr get_state t w =
      chain t.texts.0 (λ uid.
        chain t.flags.0 (λ b. chain (send_state-Returns uid b addr w) (λ effects. (_, refl))))
  dispatch-Returns method addr set_logging t w = chain t.ints.0 (λ a. (_, refl))
  dispatch-Returns method addr set_translation t w = chain t.ints.0 (λ a. (_, refl))
  dispatch-Returns method addr set_switchmode t w = chain t.ints.0 (λ a. (_, refl))
  dispatch-Returns method addr set_trimpolicy t w = chain t.flags.0 (λ a. (_, refl))
  dispatch-Returns method addr echo_request t w = chain t.texts.0 (λ a. (_, refl))
  dispatch-Returns method addr echo_reply t w = (_, refl)
  dispatch-Returns method addr set_network_ignore_list t w =
      either Returns (not (root.is_array (codes "network_ignore_list"))) _ _ (_, refl)
        (chain t.strings (λ a. (_, refl)))
  dispatch-Returns method addr other t w =
      let (uid, (text, u)) = t.texts in
      chain t.ints.0 (λ a. chain uid (λ a. chain text (λ a. (_, refl))))

-- Every request whose root names a method as a string is handled to its end, if the members that the
-- method is asked for can be converted to the types that the code asks for, and every link that is
-- online has its channel.
pub handle_message_total :
    (env : Env) (c : Controller) (message method : Bytes) (addr : Address)
    → (env.parse message).1.as_string (codes "m") ≡ some method
    → IsTyped (env.parse message).1 (lookup_rpc method c.rpc_calls).0
    → IsWired env.net c.manager
    → Returns (handle_message env c message addr)
unfolding handle_message
handle_message_total env c message method addr named t w =
    let (rpc, calls) = lookup_rpc method c.rpc_calls in
    rw named (
      chain
        (dispatch-Returns env (record c { rpc_calls = calls }) (env.parse message).1 method addr rpc
          t w)
        (λ r. (_, refl)))

-- A datagram that is read as a request of the right types: it and the memory behind it hold a C
-- string that covers it.
pub record IsRequest (env : Env) (c : Controller) (version kind : ℕ) (payload behind : Bytes)
    : Type 0 where
  pub whole : Free 0 (version ∷ kind ∷ payload)
  pub after : Bytes
  pub ends : c_string behind ≡ some after
  pub method : Bytes
  pub named : (env.parse (payload ++ take 2 after)).1.as_string (codes "m") ≡ some method
  pub typed : IsTyped (env.parse (payload ++ take 2 after)).1 (lookup_rpc method c.rpc_calls).0
  pub wired : IsWired env.net c.manager

long :
    {A : Type 0} (payload : Bytes) (x : A)
    → Returns (if ltb (suc (suc (length payload))) 2 then none else some x)
long payload x = (x, ground arith)

pub handle_packet-IsRequest :
    (env : Env) (c : Controller) (version kind : ℕ) (payload behind : Bytes) (addr : Address)
    → IsRequest env c version kind payload behind
    → Returns (handle_packet env c (version ∷ kind ∷ payload) behind addr)
unfolding handle_packet
handle_packet-IsRequest env c version kind payload behind addr r =
    either Returns (nat_beq kind k_tincan_packet) _ _ (long payload _) (
      either Returns (nat_beq kind k_icc_control || nat_beq kind k_icc_packet) _ _ (long payload _)
        (rw (message_of-frame version kind payload r.after behind r.whole r.ends) (
          handle_message_total env c (payload ++ take 2 r.after) r.method addr r.named r.typed
            r.wired)))
