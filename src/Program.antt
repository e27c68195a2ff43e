-- ===== src/Program.antt =====
-- The whole program: what main of src/tincan.cc connects, the PeerSignalSender of
-- src/tincanconnectionmanager.h, and everything that reaches a running node as one kind of events.
pub mod Sound
pub mod Keeping
pub mod Steps
pub mod Progress
pub mod Wiring
pub mod Tunnel
pub mod Relaying
pub mod Launch
pub mod Meeting
use ipop_tincan.Prelude.{
  ℕ, zero, suc, Bool, true, false, Option, none, some, List, [], ◌∷◌, ◌++◌, Bytes, codes, nat_eq,
  map, ◌>>=◌, pure, if◌then◌else◌,
}
use ipop_tincan.Map.{Map, empty, find, insert}
use ipop_tincan.Manager
use ipop_tincan.Manager.{Manager}
use ipop_tincan.Manager.Types.{Address, Candidate, Call, send_to_peer}
use ipop_tincan.Manager.Types
use ipop_tincan.Manager.Queues.{Queues}
use ipop_tincan.Manager.Queues
use ipop_tincan.Manager.Packets
use ipop_tincan.Manager.Packets.Delivery.{Moment, dispatched}
use ipop_tincan.Manager.Candidates
use ipop_tincan.Manager.Signals
use ipop_tincan.Xmpp
use ipop_tincan.Xmpp.{XmppCall, Stanza, State, handle_stanza}
use ipop_tincan.Xmpp.Timer.{deliver}
use ipop_tincan.Xmpp.Session.{fresh}
use ipop_tincan.Controller
use ipop_tincan.Controller.{Controller, Env, Effect, libjingle, xmpp, init_map}
use ipop_tincan.Controller.Requests.{handle_packet}
use ipop_tincan.Start.{k_tap_name, k_udp_port, Interface, free_ip, parse_args}

-- The two kinds of PeerSignalSenderInterface.
pub data Service : Type 0 where
  controller_access xmpp_network : Service

-- `services` is service_map_ of the PeerSignalSender, `udp_port` the global kUdpPort.
pub record Program : Type 0 where
  pub controller : Controller
  pub services : Map ℕ Service
  pub udp_port : ℕ

unfoldable pub add_service : ℕ → Service → Map ℕ Service → Map ℕ Service
add_service overlay_id sender services = insert overlay_id sender services

-- PeerSignalSender::SendToPeer; `none` is a call through the null pointer that operator[] adds for an
-- overlay that is not there.
unfoldable pub send_through : Env → Program → ℕ → Bytes → Bytes → Bytes → Option (List Effect)
send_through env p overlay_id uid text type = elim (find overlay_id p.services) [
  | none ↦ none
  | some controller_access ↦ some (Controller.send_to_peer env p.controller uid text type)
  | some xmpp_network ↦ some (map xmpp (Xmpp.send_to_peer p.controller.network uid text type))
]

-- A call of the connection manager: signal_sender_->SendToPeer goes through the services.
unfoldable pub carry : Env → Program → Call → Option (List Effect)
unfolding send_through
carry env p (send_to_peer overlay_id uid text type) = send_through env p overlay_id uid text type
carry env p call = some (libjingle call ∷ [])

unfoldable pub carry_all : Env → Program → List Call → Option (List Effect)
carry_all env p [] = some []
carry_all env p (call ∷ calls) = do
  effects ← carry env p call
  more ← carry_all env p calls
  pure (effects ++ more)

-- The signal HandlePeer of XmppNetwork is connected to TinCanConnectionManager::HandlePeer.
unfoldable pub carry_xmpp : Env → Program → List XmppCall → Option (List Effect)
unfolding carry_all
carry_xmpp env p [] = some []
carry_xmpp env p (Xmpp.handle_peer uid text type ∷ calls) = do
  effects ← carry_all env p (Signals.handle_peer uid text type)
  more ← carry_xmpp env p calls
  pure (effects ++ more)
carry_xmpp env p (call ∷ calls) = do more ← carry_xmpp env p calls; pure (xmpp call ∷ more)

-- What reaches a running node.
pub data Event : Type 0 where
  -- a datagram of the controller, and the memory behind it
  datagram : Bytes → Bytes → Address → Event
  -- the slots that CreateTransport connects
  candidates_ready : ℕ → List Candidate → Event
  allocation_done : ℕ → Event
  rw_changed : ℕ → Event
  request_signaling : ℕ → Event
  link_packet : ℕ → Bytes → Event
  relay_connection : Bool → ℕ → Event
  -- ipop-tap: a packet of the device, and a read of the device's writer
  tap_sends : Bytes → Event
  tap_reads : ℕ → Event
  -- a posted message of the packet handling thread, with the bytes that `new` leaves
  queue_signal : ℕ → Event
  -- the XMPP session: the own JID and a stanza, the timer, the engine's state
  stanza : Bytes → Stanza → Event
  timer : Bool → Event
  engine : Bytes → State → Event

abbrev pub with_manager : Program → Manager → Program
with_manager p m = record p { controller = record p.controller { manager = m } }

abbrev pub with_queues : Program → Queues → Program
with_queues p q = record p { controller = record p.controller { queues = q } }

abbrev pub with_network : Program → Xmpp.Network → Program
with_network p n = record p { controller = record p.controller { network = n } }

abbrev pub moment : Env → ℕ → Program → Moment
moment env unset p = record { net = env.net; unset = unset; manager = p.controller.manager }

-- The packet handling thread handles a message only if one is posted.
unfoldable pub on_queue_signal : Env → ℕ → Program → Option (Program × List Effect)
on_queue_signal env unset p = do
  (q, calls) ← dispatched env.lib (moment env unset p) p.controller.queues
  pure (with_queues p q, map libjingle calls)

-- ProcessStart with a stanza that HandleStanza has queued.
unfoldable pub on_stanza : Env → Bytes → Stanza → Program → Option (Program × List Effect)
unfolding carry_xmpp
on_stanza env own s p = do
  (n, calls) ← Xmpp.process_start env.jids own env.now p.controller.network s
  effects ← carry_xmpp env (with_network p n) calls
  pure (with_network p n, effects)

-- `none`: the handler goes through a null pointer, throws, or waits for a packet.
unfoldable pub step : Env → Event → Program → Option (Program × List Effect)
unfolding on_stanza on_queue_signal
step env (datagram packet behind addr) p = do
  (c, effects) ← handle_packet env p.controller packet behind addr
  pure (record p { controller = c }, effects)
step env (candidates_ready t cs) p = do
  m ← Candidates.on_candidates_ready env.lib p.controller.manager t cs
  pure (with_manager p m, [])
step env (allocation_done t) p = do
  (m, calls) ← Candidates.on_candidates_allocation_done p.controller.manager t
  effects ← carry_all env p calls
  pure (with_manager p m, effects)
step env (rw_changed t) p = do
  (m, calls) ← Signals.on_rw_change_state env.net p.controller.manager t
  effects ← carry_all env p calls
  pure (with_manager p m, effects)
step env (request_signaling t) p = some (p, map libjingle (Signals.on_request_signaling t))
step env (link_packet channel packet) p = some (
  with_queues p (
      Packets.on_read_packet env.lib env.net p.controller.manager p.controller.queues channel
        packet),
  [],
)
step env (relay_connection is_relay connection) p =
    some
      (p, map libjingle (Signals.handle_connection_signal p.controller.manager is_relay connection))
step env (tap_sends packet) p =
    some (with_queues p (Queues.do_packet_send p.controller.queues packet).0, [])
step env (tap_reads len) p = do
  (q, packet) ← Queues.do_packet_recv p.controller.queues len
  pure (with_queues p q, [])
step env (queue_signal unset) p = on_queue_signal env unset p
step env (stanza own s) p = if handle_stanza s then on_stanza env own s p else some (p, [])
step env (timer child_error) p =
    let (n, calls) = deliver child_error env.now p.controller.network in
    some (with_network p n, map xmpp calls)
step env (engine jid state) p =
    let (n, calls) = Xmpp.on_state_change jid state p.controller.network in
    some (with_network p n, map xmpp calls)

-- The two services of main.
unfoldable pub services : Map ℕ Service
unfolding add_service
services = add_service 1 xmpp_network (add_service 0 controller_access empty)

-- What main does not determine: the random number of the manager's constructor, and the members that
-- the constructor of XmppNetwork leaves unset.
pub record Chance : Type 0 where
  pub tiebreaker : ℕ
  pub xmpp_state : State
  pub on_msg_counter : ℕ

-- The objects of main, with the address that get_free_network_ip has left.
unfoldable pub new_program : Chance → Bytes → ℕ → Bytes → Bytes → Program
unfolding services
new_program chance tap_name port mac ip = record {
  controller = record {
    manager = Manager.set_ip ip (Manager.init chance.tiebreaker tap_name);
    network = fresh chance.xmpp_state chance.on_msg_counter;
    queues = record { send_queue = []; recv_queue = []; posted = 0; has_manager = true };
    rpc_calls = init_map;
    remote_addr = record { host = []; port = 0 };
    translate = 0;
    switchmode = 0;
    ignore_list = [];
    mac = mac;
  };
  services = services;
  udp_port = port;
}

-- main up to the start of the threads: `none` where it prints and exits or the tap device cannot be
-- opened. `opened` is what tap_open writes to opts.mac.
unfoldable pub main : List Bytes → Option Bytes → Option (List Interface) → Chance → Option Program
unfolding new_program
main args opened interfaces chance = do
  (tap_name, port) ← parse_args args k_tap_name k_udp_port
  mac ← opened
  ip ← free_ip interfaces (Manager.init chance.tiebreaker tap_name).tincan_ip4
  pure (new_program chance tap_name port mac ip)
