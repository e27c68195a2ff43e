-- ===== src/Tests/Session.antt =====
-- One XMPP session: a login, the connection opens, a peer is heard of.
use ipop_tincan.Prelude.{
  ◌≡◌, refl, ◌↔◌, true, false, Option, none, some, List, [], ◌∷◌, Bytes, codes, arith, replicate,
  bytes_eq, ◌≤◌, length,
}
use ipop_tincan.Map.{empty}
use ipop_tincan.Manager.Types.{Address}
use ipop_tincan.Text.{compare_bytes}
use ipop_tincan.Xmpp.{
  Jids, Network, open_state, closed, Stanza, XmppCall, send_presence, send_stanza, login, connect,
  is_from_peer, process_start, send_to_peer, on_state_change, on_message,
}
use ipop_tincan.Xmpp.Timer.{deliver, reconnects}
use ipop_tincan.Xmpp.Reconnect.{LogsIn, account, login-LogsIn}
use ipop_tincan.Xmpp.Keys.{full_jid}
use ipop_tincan.Xmpp.Messages.{LacksType, process_start-none, send_to_peer-process_start}
use ipop_tincan.Xmpp.Session.{
  Event, ticks, reports, run, step, fresh, IsTimed, run-fresh-IsTimed, login_once,
}
use ipop_tincan.Xmpp.Presence.{beats, beats-eight}

-- Every JID of these runs has the resource of the peer.
abbrev jids : Jids
jids = record {
  node = λ s. s;
  domain = λ s. s;
  resource = λ s. codes "tincanX";
  same = λ s t. false;
}

abbrev server : Address
server = record { host = codes "h"; port = 5222 }

abbrev bare : Bytes
bare = codes "u@h"

abbrev pcid : Bytes
pcid = replicate 40 97

-- An open session, with a counter of one hour.
abbrev open_session : Network
open_session = record {
  xcs = none;
  pump = true;
  presence_out = true;
  ping_task = true;
  tincan_task = true;
  presence_time = [];
  xmpp_state = open_state;
  on_msg_counter = 3600;
  uid = bare;
  timers = 15000 ∷ [];
  g_uid_map = empty;
}

abbrev get_network : Option (Network × List XmppCall) → Network
get_network none = open_session
get_network (some (n, calls)) = n

abbrev dropped_session : Network
dropped_session = record open_session { xmpp_state = closed }

abbrev history : List Event
history = ticks false 1 ∷ reports bare closed ∷ ticks false 15000 ∷ ticks true 30000 ∷ []

run-fresh-IsTimed_example : IsTimed (run jids (fresh closed 77) history)
run-fresh-IsTimed_example = run-fresh-IsTimed jids closed 77 history

login_succeeds : (login jids 0 (fresh closed 77) bare (codes "p") pcid server).1 ≡ true
unfolding login connect fresh
login_succeeds = refl

login_once_example :
    let n = run jids (login jids 0 (fresh closed 77) bare (codes "p") pcid server).0 history in
    login jids 9 n bare (codes "q") pcid server ≡ (n, false, [])
login_once_example =
    login_once jids 0 (fresh closed 77) bare (codes "p") pcid server history 9 bare (codes "q") pcid
      server login_succeeds

beats-eight_example : beats (1 ∷ 2 ∷ 3 ∷ 4 ∷ 5 ∷ 6 ∷ 7 ∷ 8 ∷ []) open_session ≡ send_presence ∷ []
beats-eight_example =
    beats-eight (1 ∷ 2 ∷ 3 ∷ 4 ∷ 5 ∷ 6 ∷ 7 ∷ 8 ∷ []) open_session 240 refl refl refl refl

abbrev presence : Stanza
presence = record {
  from = full_jid bare pcid [];
  is_tincan_get = false;
  is_presence = true;
  query = none;
}

abbrev typeless : Stanza
typeless = record presence { query = some (record { body = some (codes "x"); type = none }) }

process_start-none_example :
    (process_start jids [] 5 open_session typeless ≡ none)
    ↔ ((is_from_peer jids [] typeless ≡ true) × LacksType typeless)
process_start-none_example = process_start-none jids [] 5 open_session typeless

presence_from_peer : is_from_peer jids [] presence ≡ true
unfolding is_from_peer compare_bytes
presence_from_peer = refl

abbrev result : Network
result = get_network (process_start jids [] 5 open_session presence)

presence_processed : process_start jids [] 5 open_session presence ≡ some (result, [])
unfolding process_start is_from_peer compare_bytes
presence_processed = refl

result_open : result.xmpp_state ≡ open_state
unfolding process_start is_from_peer compare_bytes
result_open = refl

result_task : result.tincan_task ≡ true
unfolding process_start is_from_peer compare_bytes
result_task = refl

send_to_peer-process_start_example :
    send_to_peer result pcid (codes "d") (codes "con_req")
    ≡ send_stanza (full_jid bare pcid []) (codes "d") (codes "con_req") ∷ []
send_to_peer-process_start_example =
    send_to_peer-process_start jids [] 5 open_session result presence [] bare pcid [] (codes "d")
      (codes "con_req") (omega arith) refl refl presence_from_peer presence_processed result_open
      result_task

lost :
    reconnects false
      (run jids (login jids 0 (fresh closed 77) bare (codes "p") pcid server).0 history).xmpp_state
    ≡ true
unfolding run step deliver on_state_change login fresh on_message
lost = refl

login-LogsIn_example :
    let n = run jids (login jids 0 (fresh closed 77) bare (codes "p") pcid server).0 history in
    (1 ≤ length n.timers)
    × LogsIn 45000 (some (account jids bare (codes "p") pcid server)) (deliver false 45000 n)
login-LogsIn_example =
    login-LogsIn jids 0 (fresh closed 77) bare (codes "p") pcid server history false 45000
      login_succeeds lost
