-- ===== src/Program/Launch.antt =====
-- main of src/tincan.cc with the calls that it makes on ipop-tap and libjingle, the constructor of
-- ControllerAccess included, and the start of the threads. What tap_open and CreateUdpSocket answer is
-- given.
pub mod Starts
use ipop_tincan.Prelude.{
  ℕ, ◌≡◌, Bool, true, false, not, ◌||◌, Option, none, some, List, [], ◌∷◌, ◌++◌, Bytes, codes,
  if◌then◌else◌,
}
use ipop_tincan.Manager.{init}
use ipop_tincan.Manager.Types.{Address}
use ipop_tincan.Start.{k_tap_name, k_udp_port, Interface, free_ip, parse_args}
use ipop_tincan.Program.{Program, Chance, new_program, main}

pub data StartCall : Type 0 where
  initialize_ssl peerlist_init : StartCall
  tap_open : Bytes → StartCall
  create_udp_socket : Address → StartCall
  start_send_thread start_recv_thread start_packet_handling_thread run_link_setup_thread : StartCall

-- kLocalHost and kLocalHost6 with kUdpPort.
abbrev pub local4 : ℕ → Address
local4 port = record { host = codes "127.0.0.1"; port = port }

abbrev pub local6 : ℕ → Address
local6 port = record { host = codes "::1"; port = port }

-- The constructor of ControllerAccess: CreateUdpSocket gives a null pointer for an address that is
-- not `bound`, and the constructor goes through the pointer before it goes on.
unfoldable pub open_sockets : (Address → Bool) → ℕ → List StartCall × Bool
open_sockets bound port =
    if not (bound (local4 port)) then (create_udp_socket (local4 port) ∷ [], false) else (
      create_udp_socket (local4 port) ∷ create_udp_socket (local6 port) ∷ [],
      bound (local6 port),
    )

abbrev pub thread_starts : List StartCall
thread_starts =
    start_send_thread ∷ start_recv_thread ∷ start_packet_handling_thread ∷ run_link_setup_thread
    ∷ []

-- main from the address on.
unfoldable pub launch_threads :
    Option (List Interface) → Chance → Bytes → ℕ → Bytes → List StartCall × Option Program
launch_threads interfaces chance tap_name port mac =
    elim (free_ip interfaces (init chance.tiebreaker tap_name).tincan_ip4) [
      | none ↦ ([], none)
      | some ip ↦ (thread_starts, some (new_program chance tap_name port mac ip))
    ]

-- main from the tap device on.
unfoldable pub launch_objects :
    Option Bytes
    → (Address → Bool)
    → Option (List Interface)
    → Chance
    → Bytes
    → ℕ
    → List StartCall × Option Program
launch_objects opened bound interfaces chance tap_name port = elim opened [
  | none ↦ ([], none)
  | some mac ↦
      let (calls, connected) = open_sockets bound port in
      if connected
      then (let (starts, p) = launch_threads interfaces chance tap_name port mac in
          (calls ++ starts, p))
      else (calls, none)
]

-- The calls in order, and the node that runs, or `none` where main ends, goes through a null pointer,
-- or reads an address without its end.
unfoldable pub launch :
    List Bytes
    → Option Bytes
    → (Address → Bool)
    → Option (List Interface)
    → Chance
    → List StartCall × Option Program
launch args opened bound interfaces chance = elim (parse_args args k_tap_name k_udp_port) [
  | none ↦ ([], none)
  | some (tap_name, port) ↦
      let (calls, p) = launch_objects opened bound interfaces chance tap_name port in
      (initialize_ssl ∷ peerlist_init ∷ tap_open tap_name ∷ calls, p)
]

is_thread_start : StartCall → Bool
is_thread_start start_send_thread = true
is_thread_start start_recv_thread = true
is_thread_start start_packet_handling_thread = true
is_thread_start run_link_setup_thread = true
is_thread_start call = false

unfoldable pub starts_threads : List StartCall → Bool
unfolding is_thread_start
starts_threads [] = false
starts_threads (call ∷ calls) = is_thread_start call || starts_threads calls

abbrev pub Listens : (Address → Bool) → ℕ → Type 0
Listens bound port = (bound (local4 port) ≡ true) × (bound (local6 port) ≡ true)

-- The calls for a node that runs.
abbrev pub all_calls : Program → List StartCall
all_calls p =
    initialize_ssl
    ∷ peerlist_init
    ∷ tap_open p.controller.manager.tap_name
    ∷ create_udp_socket (local4 p.udp_port)
    ∷ create_udp_socket (local6 p.udp_port)
    ∷ start_send_thread
    ∷ start_recv_thread
    ∷ start_packet_handling_thread
    ∷ run_link_setup_thread
    ∷ []
