-- ===== src/Xmpp.antt =====
-- src/xmppnetwork.h and .cc: XmppNetwork, which keeps the XMPP connection up, and TinCanTask, which
-- carries messages between peers over it. XMPP itself (pump, client, engine, tasks) is libjingle's:
-- it enters by the states it reports and the stanzas it hands over, and leaves by `XmppCall`.
pub mod Keys
pub mod Messages
pub mod Session
pub mod Timer
pub mod Presence
pub mod Reconnect
use ipop_tincan.Prelude.{
  ℕ, zero, suc, ◌+◌, ◌%◌, Bool, true, false, not, ◌&&◌, ◌||◌, Option, none, some, List, [], ◌∷◌,
  ◌++◌, Bytes, bytes_eq, codes, nat_beq, leb, length, if◌then◌else◌,
}
use ipop_tincan.Map.{Map, find, insert}
use ipop_tincan.Table.{Table, assign}
use ipop_tincan.Text.{substr, is_empty, find_char, compare_bytes, is_eq}
use ipop_tincan.Wire.{k_id_size}
use ipop_tincan.Manager.Types.{Address}

-- in milliseconds
abbrev pub k_interval : ℕ
k_interval = 15000

-- in seconds
abbrev pub k_presence_interval : ℕ
k_presence_interval = 120

abbrev pub k_xmpp_prefix : Bytes
k_xmpp_prefix = codes "tincan"

-- uid.find('/') + sizeof(kXmppPrefix), where npos is 2^64 - 1 and the sum wraps to 6.
unfoldable pub key_start : Bytes → ℕ
key_start uid = elim (find_char b'/' uid) [ none ↦ 6 | some i ↦ i + 7 ]

unfoldable pub get_key : Bytes → Bytes
unfolding key_start
get_key uid =
    if leb (key_start uid + k_id_size) (length uid)
    then substr uid (key_start uid) k_id_size
    else uid

-- buzz::XmppEngine::State
pub data State : Type 0 where
  none_yet started opening open_state closed : State

-- buzz::XmppClientSettings
pub record Settings : Type 0 where
  pub user : Bytes
  pub host : Bytes
  pub resource : Bytes
  pub pass : Bytes
  pub server : Address

-- What libjingle makes of the text of a JID.
pub record Jids : Type 0 where
  pub node : Bytes → Bytes
  pub domain : Bytes → Bytes
  pub resource : Bytes → Bytes
  pub same : Bytes → Bytes → Bool

-- The pointers count as what is asked of them: null or not. `timers` holds the due times of the
-- messages for this handler in the main thread's queue. g_uid_map is the file's global.
pub record Network : Type 0 where
  pub xcs : Option Settings
  pub pump : Bool
  pub presence_out : Bool
  pub ping_task : Bool
  pub tincan_task : Bool
  pub presence_time : Table ℕ
  pub xmpp_state : State
  pub on_msg_counter : ℕ
  pub uid : Bytes
  pub timers : List ℕ
  pub g_uid_map : Map Bytes Bytes

pub data XmppCall : Type 0 where
  do_login : Option Settings → XmppCall
  do_disconnect : XmppCall
  send_presence : XmppCall
  start_ping : XmppCall
  start_task : XmppCall
  -- an IQ get to a JID, with the bodies of its data and type elements
  send_stanza : Bytes → Bytes → Bytes → XmppCall
  -- the signal HandlePeer: uid, data, type
  handle_peer : Bytes → Bytes → Bytes → XmppCall

unfoldable pub connect : ℕ → Network → Network × List XmppCall
connect now n = (
  record n {
    pump = true;
    xmpp_state = none_yet;
    timers = (now + k_interval) ∷ [];
    on_msg_counter = 0;
  },
  do_login n.xcs ∷ [],
)

unfoldable pub login :
    Jids → ℕ → Network → Bytes → Bytes → Bytes → Address → Network × Bool × List XmppCall
unfolding connect
login jids now n username password pcid server =
    if n.pump || is_empty username || is_empty password || is_empty pcid || is_empty server.host
    then (n, false, [])
    else let (n', calls) = connect now (record n {
      xcs = some (record {
        user = jids.node username;
        host = jids.domain username;
        resource = k_xmpp_prefix ++ pcid;
        pass = password;
        server = server;
      });
    }) in
      (n', true, calls)

-- `jid` is the client's own JID.
unfoldable pub on_sign_on : Bytes → Network → Network × List XmppCall
on_sign_on jid n = if not n.pump then (n, []) else (
  record n { uid = jid; presence_out = true; tincan_task = true; ping_task = true },
  send_presence ∷ start_ping ∷ start_task ∷ [],
)

unfoldable pub on_state_change : Bytes → State → Network → Network × List XmppCall
unfolding on_sign_on
on_state_change jid open_state n = on_sign_on jid (record n { xmpp_state = open_state })
on_state_change jid none_yet n = (record n { xmpp_state = none_yet }, [])
on_state_change jid started n = (record n { xmpp_state = started }, [])
on_state_change jid opening n = (record n { xmpp_state = opening }, [])
on_state_change jid closed n = (record n { xmpp_state = closed }, [])

-- The branches of OnMessage under `if (pump_.get())`; `child_error` is AnyChildError().
unfoldable pub on_tick : Bool → ℕ → State → Network → Network × List XmppCall
unfolding connect
on_tick child_error now started n = (n, do_disconnect ∷ [])
on_tick child_error now opening n = (n, do_disconnect ∷ [])
on_tick child_error now none_yet n = if child_error then (n, do_disconnect ∷ []) else connect now n
on_tick child_error now closed n =
    connect now (record n { presence_out = false; tincan_task = false; ping_task = false })
on_tick child_error now open_state n =
    if child_error
    then (n, do_disconnect ∷ [])
    else if nat_beq (n.on_msg_counter % k_presence_interval) 0
    then (record n { presence_out = true }, send_presence ∷ [])
    else (n, [])

-- OnMessage, the message already taken out of the queue.
unfoldable pub on_message : Bool → ℕ → Network → Network × List XmppCall
unfolding on_tick
on_message child_error now n =
    let (n', calls) = if n.pump then on_tick child_error now n.xmpp_state n else (n, []) in
    (
      record n' {
        timers = n'.timers ++ (now + k_interval) ∷ [];
        on_msg_counter = n'.on_msg_counter + 15;
      },
      calls,
    )

-- TinCanTask::SendToPeer
unfoldable pub task_send_to_peer : Network → Bytes → Bytes → Bytes → List XmppCall
task_send_to_peer n uid text type = elim (find uid n.g_uid_map) [
  | none ↦ []
  | some jid ↦ send_stanza jid text type ∷ []
]

abbrev pub is_open : State → Bool
is_open open_state = true
is_open none_yet = false
is_open started = false
is_open opening = false
is_open closed = false

-- XmppNetwork::SendToPeer
unfoldable pub send_to_peer : Network → Bytes → Bytes → Bytes → List XmppCall
unfolding task_send_to_peer
send_to_peer n uid text type =
    if is_open n.xmpp_state && n.tincan_task then task_send_to_peer n uid text type else []

-- The elements below the tincan query of a stanza: the bodies of data and type.
pub record Query : Type 0 where
  pub body : Option Bytes
  pub type : Option Bytes

pub record Stanza : Type 0 where
  pub from : Bytes
  pub is_tincan_get : Bool
  pub is_presence : Bool
  pub query : Option Query

-- TinCanTask::HandleStanza: queued or not.
unfoldable pub handle_stanza : Stanza → Bool
handle_stanza s = s.is_tincan_get || s.is_presence

-- from.resource().compare(0, sizeof(kXmppPrefix)-1, kXmppPrefix) == 0 && from != own JID
unfoldable pub is_from_peer : Jids → Bytes → Stanza → Bool
is_from_peer jids own s =
    is_eq (compare_bytes (substr (jids.resource s.from) 0 6) k_xmpp_prefix)
    && not (jids.same s.from own)

-- data and type of a query; `none` is a call through a null pointer: the second test looks at
-- xml_data again, and not at xml_type.
unfoldable pub read_query : Query → Option (Bytes × Bytes)
read_query q = elim q.body [
  | none ↦ some ([], [])
  | some text ↦ elim q.type [ none ↦ none | some type ↦ some (text, type) ]
]

unfoldable pub set_time : Bytes → ℕ → Network → Network
set_time uid now n = record n { presence_time = assign uid now n.presence_time }

-- DoHandlePeer sends the signal.
abbrev pub do_handle_peer : Bytes → Bytes → Bytes → List XmppCall
do_handle_peer uid text type = handle_peer uid text type ∷ []

-- A stanza of a peer: the JID is kept under its key, and the rest is a message or a presence.
unfoldable pub process_peer : ℕ → Network → Stanza → Option (Network × List XmppCall)
unfolding set_time read_query
process_peer now n s = elim s.query [
  | none ↦ some (set_time (get_key s.from) now n, [])
  | some q ↦ elim (read_query q) [
    | none ↦ none
    | some (text, type) ↦ some (n, do_handle_peer (get_key s.from) text type)
  ]
]

unfoldable pub remember : Stanza → Network → Network
remember s n = record n { g_uid_map = insert (get_key s.from) s.from n.g_uid_map }

-- ProcessStart with the next stanza of the queue.
unfoldable pub process_start :
    Jids → Bytes → ℕ → Network → Stanza → Option (Network × List XmppCall)
unfolding process_peer remember
process_start jids own now n s =
    if is_from_peer jids own s then process_peer now (remember s n) s else some (n, [])
