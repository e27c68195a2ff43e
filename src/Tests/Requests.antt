-- ===== src/Tests/Requests.antt =====
-- Datagrams of the controller: a request to trim the link of the sample, and frames.
use ipop_tincan.Prelude.{
  ◌≡◌, Returns, ◌>>=◌, refl, true, false, none, some, [], ◌∷◌, Bytes, codes, nat_eq, bytes_eq, ◌==◌,
  arith, if◌then◌else◌,
}
use ipop_tincan.Map.{find, insert, empty}
use ipop_tincan.Text.CString.{c_string}
use ipop_tincan.Text.Fields.{Free}
use ipop_tincan.Wire.{frame, k_tincan_control, k_tincan_packet}
use ipop_tincan.Manager.{init}
use ipop_tincan.Manager.Types.{Address, inet, delete_transport}
use ipop_tincan.Manager.Links.{
  create_transport, destroy_transport, add_link, setup_transport, new_peer, insert_transport_map,
}
use ipop_tincan.Manager.Links.Safety.{IsConsistent}
use ipop_tincan.Manager.Queues.{Queues, do_packet_recv}
use ipop_tincan.Xmpp.{Network, Jids, none_yet}
use ipop_tincan.Controller.{
  Env, Json, Controller, init_map, lookup_rpc, libjingle, enter_all, message_of,
}
use ipop_tincan.Controller.Requests.{handle_message, handle_packet, dispatch, do_trim_link}
use ipop_tincan.Manager.Packets.Delivery.{IsServed}
use ipop_tincan.Controller.Answering.{IsTyped, handle_message_total}
use ipop_tincan.Controller.Dispatch.{Onward}
use ipop_tincan.Controller.Safety.{Agrees, handle_packet-IsConsistent}
use ipop_tincan.Controller.Framing.{handle_packet-frame, do_packet_recv-handle_packet}
use ipop_tincan.Tests.Sample.{lib, net, linked, fresh, peer_uid}
use ipop_tincan.Manager.Report.States.{IsWired}
use ipop_tincan.Tests.Links.{linked-IsConsistent, free_when_linked}

abbrev jids : Jids
jids = record { node = λ s. s; domain = λ s. s; resource = λ s. s; same = λ a b. a == b }

-- A request to trim the link to `peer_uid`.
abbrev pub trim_request : Json
trim_request = record {
  is_member = λ k. true;
  as_string = λ k. if k == codes "m" then some (codes "trim_link") else some peer_uid;
  as_int = λ k. some 1;
  as_bool = λ k. some true;
  is_array = λ k. false;
  strings = λ k. some [];
}

abbrev pub env : Env
env = record {
  lib = lib;
  jids = jids;
  now = 9;
  fresh = fresh 101;
  parse = λ s. (true, trim_request);
  styled = λ members. [];
  reporter = record { time = 9; address_text = λ a. a.host; stats = λ c. [] };
  net = net;
  family = λ a. inet;
}

abbrev network : Network
network = record {
  xcs = none;
  pump = false;
  presence_out = false;
  ping_task = false;
  tincan_task = false;
  presence_time = [];
  xmpp_state = none_yet;
  on_msg_counter = 0;
  uid = [];
  timers = [];
  g_uid_map = empty;
}

abbrev pub local : Address
local = record { host = codes "::1"; port = 5801 }

abbrev pub controller : Controller
controller = record {
  manager = linked;
  network = network;
  queues = record { send_queue = []; recv_queue = []; posted = 0; has_manager = true };
  rpc_calls = init_map;
  remote_addr = local;
  translate = 0;
  switchmode = 0;
  ignore_list = [];
  mac = 1 ∷ 2 ∷ 3 ∷ 4 ∷ 5 ∷ 6 ∷ [];
}

abbrev trimmed : Controller
trimmed = record controller {
  manager = (destroy_transport linked peer_uid).0;
  rpc_calls = (lookup_rpc (codes "trim_link") init_map).1;
}

abbrev request : Bytes
request = frame k_tincan_control (codes "{}")

trims :
    handle_packet env controller request (0 ∷ []) local
    ≡ some (trimmed, (libjingle (delete_transport 100) ∷ []))
unfolding handle_packet frame message_of c_string handle_message dispatch do_trim_link lookup_rpc
    init_map enter_all destroy_transport create_transport add_link setup_transport new_peer
    insert_transport_map init find insert empty
trims = refl

handle_packet-IsConsistent_example :
    IsConsistent trimmed.manager
    × Agrees trimmed.rpc_calls
    × Onward controller.network trimmed.network
    × (IsServed controller.queues → IsServed trimmed.queues)
handle_packet-IsConsistent_example =
    handle_packet-IsConsistent env controller trimmed request (0 ∷ []) local
      (libjingle (delete_transport 100) ∷ []) linked-IsConsistent (λ method. refl) free_when_linked
      trims

text-Free : Free 0 (codes "{}")
text-Free = ((λ e. absurd (omega arith)), ((λ e. absurd (omega arith)), tt))

behind_ends : c_string (9 ∷ 0 ∷ []) ≡ some (9 ∷ [])
unfolding c_string
behind_ends = refl

-- Two frames of packets, with zeros in them.
abbrev zeros : Bytes
zeros = 0 ∷ 0 ∷ 7 ∷ 0 ∷ []

abbrev sending : Queues
sending = record controller.queues { send_queue = zeros ∷ []; posted = 1 }

handle_packet-frame_example :
    (handle_packet env controller (3 ∷ 2 ∷ zeros) [] local
      ≡ some
          (record controller { queues = record controller.queues { recv_queue = zeros ∷ [] } }, []))
    × (handle_packet env controller (3 ∷ 3 ∷ zeros) [] local
        ≡ some (record controller { queues = sending }, []))
    × (handle_packet env controller (3 ∷ 4 ∷ zeros) [] local
        ≡ some (record controller { queues = sending }, []))
handle_packet-frame_example = handle_packet-frame env controller zeros [] local

do_packet_recv-handle_packet_example :
    (handle_packet env controller (frame k_tincan_packet (codes "{}")) [] local >>= λ r.
    do_packet_recv r.0.queues 1500)
    ≡ some (controller.queues, some (codes "{}"))
do_packet_recv-handle_packet_example =
    do_packet_recv-handle_packet env controller (codes "{}") [] local 1500 refl (omega arith)

pub linked-IsWired : IsWired net linked
linked-IsWired uid p h up = (_, refl)

trim-IsTyped : IsTyped trim_request (lookup_rpc (codes "trim_link") init_map).0
unfolding lookup_rpc init_map enter_all find insert empty
trim-IsTyped = record { texts = ((_, refl), tt); ints = tt; flags = tt; strings = ([], refl) }

handle_message_total_example : Returns (handle_message env controller (codes "{}") local)
handle_message_total_example =
    handle_message_total env controller (codes "{}") (codes "trim_link") local refl trim-IsTyped
      linked-IsWired
