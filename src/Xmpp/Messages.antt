-- ===== src/Xmpp/Messages.antt =====
-- What ProcessStart does with the stanzas of peers, and where SendToPeer sends.
use ipop_tincan.Prelude.{
  ℕ, ◌≡◌, refl, ap, ◌∙◌, ◌↔◌, inl, inr, true, Option, none, some, List, [], ◌∷◌, arith, Bytes,
  bytes_eq, length, Bool-cases,
}
use ipop_tincan.Map.{find, insert, find-insert_self}
use ipop_tincan.Text.Fields.{Free}
use ipop_tincan.Xmpp.{
  Network, Stanza, Query, Jids, open_state, XmppCall, send_stanza, get_key, is_from_peer,
  read_query, remember, process_peer, process_start, send_to_peer,
}
use ipop_tincan.Xmpp.Keys.{full_jid, get_key-full_jid}

-- A query that has a data element and no type element.
abbrev pub LacksType : Stanza → Type 0
LacksType s =
    (q : Query) × (text : Bytes) × (s.query ≡ some q) × (q.body ≡ some text) × (q.type ≡ none)

read_query-none :
    (q : Query) (o : Option Bytes)
    → q.body ≡ o
    → read_query q ≡ none
    → (text : Bytes) × (q.body ≡ some text) × (q.type ≡ none)
unfolding read_query
read_query-none q none e h = absurd (ground arith)
read_query-none q (some text) e h = (text, e, ground arith)

process_peer-none :
    (now : ℕ) (n : Network) (s : Stanza) (o : Option Query)
    → s.query ≡ o
    → process_peer now n s ≡ none
    → LacksType s
unfolding process_peer
process_peer-none now n s none e h = absurd (ground arith)
process_peer-none now n s (some q) e h =
    let (text, f, g) = read_query-none q q.body refl (ground arith) in (q, text, e, f, g)

LacksType-process_peer :
    (now : ℕ) (n : Network) (s : Stanza) → LacksType s → process_peer now n s ≡ none
unfolding process_peer
LacksType-process_peer now n s (q, text, e, f, g) = ground arith

-- ProcessStart goes through a null pointer exactly for a stanza of a peer whose query has a data
-- element and no type element, and returns for every other.
pub process_start-none :
    (jids : Jids) (own : Bytes) (now : ℕ) (n : Network) (s : Stanza)
    → (process_start jids own now n s ≡ none) ↔ ((is_from_peer jids own s ≡ true) × LacksType s)
process_start-none jids own now n s = (
  λ h. elim (Bool-cases (is_from_peer jids own s)) [
    | inl peer ↦ (
      peer,
      process_peer-none now (remember s n) s s.query refl (unfold process_start in rw peer at h),
    )
    | inr other ↦ absurd (unfold process_start in ground arith)
  ],
  λ h.
      unfold process_start in
      rw (h.0, process_start) (LacksType-process_peer now (remember s n) s h.1),
)

g_uid_map-process_start :
    (jids : Jids) (own : Bytes) (now : ℕ) (n n' : Network) (s : Stanza) (calls : List XmppCall)
    → is_from_peer jids own s ≡ true
    → process_start jids own now n s ≡ some (n', calls)
    → n'.g_uid_map ≡ insert (get_key s.from) s.from n.g_uid_map
unfolding process_start
g_uid_map-process_start jids own now n n' s calls peer h = ground arith

pub send_to_peer-known :
    (n : Network) (uid jid text type : Bytes)
    → n.xmpp_state ≡ open_state
    → n.tincan_task ≡ true
    → find uid n.g_uid_map ≡ some jid
    → send_to_peer n uid text type ≡ send_stanza jid text type ∷ []
unfolding send_to_peer
send_to_peer-known n uid jid text type op task f = ground arith

-- After a stanza that ProcessStart accepts from a node that logged in with an id of forty
-- characters, SendToPeer for that id, on an open connection with its task, sends one stanza to the
-- full JID that the node's stanza came from.
pub send_to_peer-process_start :
    (jids : Jids) (own : Bytes) (now : ℕ) (n n' : Network) (s : Stanza) (calls : List XmppCall)
    (bare pcid suffix text type : Bytes)
    → Free b'/' bare
    → length pcid ≡ 40
    → s.from ≡ full_jid bare pcid suffix
    → is_from_peer jids own s ≡ true
    → process_start jids own now n s ≡ some (n', calls)
    → n'.xmpp_state ≡ open_state
    → n'.tincan_task ≡ true
    → send_to_peer n' pcid text type ≡ send_stanza (full_jid bare pcid suffix) text type ∷ []
send_to_peer-process_start jids own now n n' s calls bare pcid suffix text type fr len from peer h
      op task =
    let key : get_key s.from ≡ pcid = ap get_key from ∙ get_key-full_jid bare pcid suffix fr len in
    send_to_peer-known n' pcid (full_jid bare pcid suffix) text type op task (
      cc (
        g_uid_map-process_start jids own now n n' s calls peer h,
        find-insert_self (get_key s.from) s.from n.g_uid_map,
        key,
        from,
      ))
