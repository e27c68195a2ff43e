-- ===== src/Controller.antt =====
-- src/controlleraccess.h and .cc: ControllerAccess, which takes the controller's datagrams. The text
-- of a request is read by the JSON library: it enters by the record `Json`, whose functions answer
-- `none` where the library raises an exception.
pub mod State
pub mod Requests
pub mod Answers
pub mod Framing
pub mod Notices
pub mod Tables
pub mod Dispatch
pub mod Safety
pub mod Answering
pub mod Linking
use ipop_tincan.Prelude.{
  ℕ, zero, suc, Bool, Option, none, some, List, [], ◌∷◌, ◌++◌, Bytes, bytes_eq, codes, nat_beq, ltb,
  take, drop, length, if◌then◌else◌,
}
use ipop_tincan.Map.{Map, empty, find, insert}
use ipop_tincan.Text.CString.{c_string}
use ipop_tincan.Wire.{frame, k_tincan_control}
use ipop_tincan.JsonObject.{Object, set_text}
use ipop_tincan.Manager.{Manager, Libjingle, Net}
use ipop_tincan.Manager.Report.{Reporter}
use ipop_tincan.Manager.Types.{Address, Call, Family, inet, inet6, unspecified}
use ipop_tincan.Manager.Queues.{Queues}
use ipop_tincan.Manager.Links.{Fresh}
use ipop_tincan.Xmpp.{Network, XmppCall, Jids}

abbrev pub k_default_xmpp_port : ℕ
k_default_xmpp_port = 5222

-- The enumeration of the requests; `other` is the 0 that operator[] gives a new key.
pub data Rpc : Type 0 where
  other register_svc create_link set_local_ip set_remote_ip trim_link set_cb_endpoint : Rpc
  get_state set_logging set_translation set_switchmode set_trimpolicy echo_request : Rpc
  echo_reply set_network_ignore_list : Rpc

-- The entries that init_map makes.
abbrev pub rpc_names : List (Bytes × Rpc)
rpc_names =
    (codes "register_svc", register_svc)
    ∷ (codes "create_link", create_link)
    ∷ (codes "set_local_ip", set_local_ip)
    ∷ (codes "set_remote_ip", set_remote_ip)
    ∷ (codes "trim_link", trim_link)
    ∷ (codes "set_cb_endpoint", set_cb_endpoint)
    ∷ (codes "get_state", get_state)
    ∷ (codes "set_logging", set_logging)
    ∷ (codes "set_translation", set_translation)
    ∷ (codes "set_switchmode", set_switchmode)
    ∷ (codes "set_trimpolicy", set_trimpolicy)
    ∷ (codes "echo_request", echo_request)
    ∷ (codes "echo_reply", echo_reply)
    ∷ (codes "set_network_ignore_list", set_network_ignore_list)
    ∷ []

unfoldable pub enter_all : List (Bytes × Rpc) → Map Bytes Rpc → Map Bytes Rpc
enter_all [] m = m
enter_all ((name, rpc) ∷ rest) m = enter_all rest (insert name rpc m)

unfoldable pub init_map : Map Bytes Rpc
unfolding enter_all
init_map = enter_all rpc_names empty

-- rpc_calls[method], which enters a method that is not there with 0.
unfoldable pub lookup_rpc : Bytes → Map Bytes Rpc → Rpc × Map Bytes Rpc
lookup_rpc method calls = elim (find method calls) [
  | some rpc ↦ (rpc, calls)
  | none ↦ (other, insert method other calls)
]

-- The root value of a request, by what the code asks of the members.
pub record Json : Type 0 where
  pub is_member : Bytes → Bool
  pub as_string : Bytes → Option Bytes
  pub as_int : Bytes → Option ℕ
  pub as_bool : Bytes → Option Bool
  pub is_array : Bytes → Bool
  pub strings : Bytes → Option (List Bytes)

-- What the libraries and the clock answer while a datagram is handled. `parse` is Json::Reader's:
-- whether it succeeded, and the root; `styled` prints an object. `reporter` and `net` answer what a
-- report of the state asks of libjingle.
pub record Env : Type 0 where
  pub lib : Libjingle
  pub jids : Jids
  pub now : ℕ
  pub fresh : Fresh
  pub parse : Bytes → Bool × Json
  pub styled : Object → Bytes
  pub reporter : Reporter
  pub net : Net
  pub family : Address → Family

pub data Severity : Type 0 where
  above_error error info sensitive : Severity

pub data Effect : Type 0 where
  libjingle : Call → Effect
  xmpp : XmppCall → Effect
  send_v4 send_v6 : Address → Bytes → Effect
  log_to_debug : Severity → Effect

-- ControllerAccess with what it holds references to, the file's rpc_calls, and the options of
-- ipop-tap that it sets or reads.
pub record Controller : Type 0 where
  pub manager : Manager
  pub network : Network
  pub queues : Queues
  pub rpc_calls : Map Bytes Rpc
  pub remote_addr : Address
  pub translate : ℕ
  pub switchmode : ℕ
  pub ignore_list : List Bytes
  pub mac : Bytes

-- SendTo: a frame of type kTincanControl, over the socket of the address's family.
unfoldable pub send_to : Env → Bytes → Address → List Effect
send_to env text addr = elim (env.family addr) [
  | inet ↦ send_v4 addr (frame k_tincan_control text) ∷ []
  | inet6 ↦ send_v6 addr (frame k_tincan_control text) ∷ []
  | unspecified ↦ []
]

-- SendToPeer, the slot for messages of peers.
unfoldable pub send_to_peer : Env → Controller → Bytes → Bytes → Bytes → List Effect
send_to_peer env c uid text type =
    send_to env
      (env.styled (
        set_text (codes "type") type
          (set_text (codes "data") text (set_text (codes "uid") uid []))))
      c.remote_addr

-- std::string(data, 2, len): the substring of the C string at `data` that has `len` bytes from
-- position 2 on, or an exception where that string is shorter than 2. `behind` is the memory that
-- follows the datagram.
unfoldable pub message_of : Bytes → Bytes → Option Bytes
message_of packet behind = elim (c_string (packet ++ behind)) [
  | none ↦ none
  | some s ↦ if ltb (length s) 2 then none else some (take (length packet) (drop 2 s))
]
