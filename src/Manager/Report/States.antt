-- ===== src/Manager/Report/States.antt =====
-- What GetState says of each friend.
use ipop_tincan.Prelude.{
  ℕ, ◌≡◌, refl, ◌∙◌, Bool, true, false, Option, none, some, arith, Bytes, nat_eq, bytes_eq, ◌==◌,
  codes, ◌∷◌, [], inl, inr, Bool-cases, if◌then◌else◌, map,
}
use ipop_tincan.Map.{find}
use ipop_tincan.Table.{Table}
use ipop_tincan.JsonObject.{
  Object, Member, member, scalar, text, number, rows, set_member, set_text, member-set_member,
}
use ipop_tincan.Manager.{Manager, Net}
use ipop_tincan.Manager.Types.{Peer, PeerIps}
use ipop_tincan.Manager.Report.{
  Reporter, elapsed, report_base, report_ips, report_link, report_online, state_to_json, get_state,
  is_online, stat_row, security_text,
}

module _ (name other : Bytes) (v : Member) (o : Object) where
  set_other : (name == other) ≡ false → member other (set_member name v o) ≡ member other o
  set_other h = ground (arith, member-set_member name other v o)

  set_same : (name == other) ≡ true → member other (set_member name v o) ≡ some v
  set_same h = ground (arith, member-set_member name other v o)

-- The three members that every report has.
pub record Says (o : Object) (uid status : Bytes) (seconds : ℕ) : Type 0 where
  pub has_uid : member (codes "uid") o ≡ some (scalar (text uid))
  pub has_status : member (codes "status") o ≡ some (scalar (text status))
  pub has_time : member (codes "xmpp_time") o ≡ some (scalar (number seconds))

-- A member of another name changes none of the three.
Says-set_member :
    (name : Bytes) (v : Member) (o : Object) (uid status : Bytes) (seconds : ℕ)
    → (name == codes "uid") ≡ false
    → (name == codes "status") ≡ false
    → (name == codes "xmpp_time") ≡ false
    → Says o uid status seconds
    → Says (set_member name v o) uid status seconds
Says-set_member name v o uid status seconds a b c h = record {
  has_uid = set_other name (codes "uid") v o a ∙ h.has_uid;
  has_status = set_other name (codes "status") v o b ∙ h.has_status;
  has_time = set_other name (codes "xmpp_time") v o c ∙ h.has_time;
}

Says-set_status :
    (o : Object) (uid old status : Bytes) (seconds : ℕ)
    → Says o uid old seconds
    → Says (set_text (codes "status") status o) uid status seconds
Says-set_status o uid old status seconds h = record {
  has_uid = set_other (codes "status") (codes "uid") _ o refl ∙ h.has_uid;
  has_status = set_same (codes "status") (codes "status") _ o refl;
  has_time = set_other (codes "status") (codes "xmpp_time") _ o refl ∙ h.has_time;
}

report_base-Says :
    (r : Reporter) (uid : Bytes) (xmpp_time : ℕ)
    → Says (report_base r uid xmpp_time) uid (codes "offline") (elapsed r.time xmpp_time)
unfolding report_base set_member member
report_base-Says r uid xmpp_time = record { has_uid = refl; has_status = refl; has_time = refl }

report_ips-Says :
    (ips : Option PeerIps) (o : Object) (uid status : Bytes) (seconds : ℕ)
    → Says o uid status seconds
    → Says (report_ips ips o) uid status seconds
unfolding report_ips
report_ips-Says none o uid status seconds h = h
report_ips-Says (some ips) o uid status seconds h =
    Says-set_member (codes "ip6") _ _ uid status seconds refl refl refl
      (Says-set_member (codes "ip4") _ o uid status seconds refl refl refl h)

-- A report is made, and says these things.
abbrev Reports : Option Object → Bytes → Bytes → ℕ → Type 0
Reports result uid status seconds = (o : Object) × (result ≡ some o) × Says o uid status seconds

report_online-Reports :
    (r : Reporter) (net : Net) (p : Peer) (get_stats : Bool) (o : Object) (uid old : Bytes)
    (seconds channel : ℕ)
    → net.get_channel p.transport ≡ some channel
    → Says o uid old seconds
    → Reports (report_online r net p get_stats o) uid (codes "online") seconds
unfolding report_online
report_online-Reports r net p false o uid old seconds channel c h = (
  _,
  refl,
  Says-set_member (codes "security") _ _ uid (codes "online") seconds refl refl refl
      (Says-set_status o uid old (codes "online") seconds h),
)
report_online-Reports r net p true o uid old seconds channel c h = (
  set_member (codes "stats") (rows (map (stat_row r) (r.stats channel))) (
      set_text (codes "security") (security_text p.connection_security)
        (set_text (codes "status") (codes "online") o)),
  ground (arith, c),
  Says-set_member (codes "stats") _ _ uid (codes "online") seconds refl refl refl (
      Says-set_member (codes "security") _ _ uid (codes "online") seconds refl refl refl
        (Says-set_status o uid old (codes "online") seconds h)),
)

-- The status of a peer: online with a link that is readable and writable.
unfoldable pub status_of : Net → Option Peer → Bytes
status_of net none = codes "offline"
status_of net (some p) = if is_online net p then codes "online" else codes "offline"

-- A link that is online has its channel.
abbrev pub IsWired : Net → Manager → Type 0
IsWired net m =
    (uid : Bytes) (p : Peer)
    → find uid m.uid_map ≡ some p
    → is_online net p ≡ true
    → (channel : ℕ) × (net.get_channel p.transport ≡ some channel)

report_link-Reports :
    (r : Reporter) (net : Net) (p : Peer) (get_stats : Bool) (o : Object) (uid : Bytes)
    (seconds : ℕ)
    → (is_online net p ≡ true → (channel : ℕ) × (net.get_channel p.transport ≡ some channel))
    → Says o uid (codes "offline") seconds
    → Reports (report_link r net p get_stats o) uid (status_of net (some p)) seconds
unfolding report_link status_of
report_link-Reports r net p get_stats o uid seconds wired h =
    let h' =
      Says-set_member (codes "last_time") (scalar (number (elapsed r.time p.last_time))) _ uid
        (codes "offline") seconds refl refl refl
        (Says-set_member (codes "fpr") (scalar (text p.fingerprint)) o uid (codes "offline") seconds
          refl refl refl h) in
    elim (Bool-cases (is_online net p)) [
      | inl up ↦
          let (channel, c) = wired up in
          rw up
            (report_online-Reports r net p get_stats _ uid (codes "offline") seconds channel c h')
      | inr down ↦ rw down (_, refl, h')
    ]

state_to_json-Reports :
    (r : Reporter) (net : Net) (m : Manager) (uid : Bytes) (xmpp_time : ℕ) (get_stats : Bool)
    → IsWired net m
    → Reports
        (state_to_json r net m uid xmpp_time get_stats)
        uid
        (status_of net (find uid m.uid_map))
        (elapsed r.time xmpp_time)
state_to_json-Reports r net m uid xmpp_time get_stats wired = go (find uid m.uid_map) refl
  where
    base :
        Says
          (report_ips (find uid m.ip_map) (report_base r uid xmpp_time))
          uid
          (codes "offline")
          (elapsed r.time xmpp_time)
    base =
        report_ips-Says (find uid m.ip_map) _ uid (codes "offline") _
          (report_base-Says r uid xmpp_time)

    go :
        (found : Option Peer)
        → find uid m.uid_map ≡ found
        → Reports
            (state_to_json r net m uid xmpp_time get_stats)
            uid
            (status_of net (find uid m.uid_map))
            (elapsed r.time xmpp_time)
    go none e = (
      report_ips (find uid m.ip_map) (report_base r uid xmpp_time),
      unfold state_to_json in ground (arith, e),
      unfold status_of in rw e base,
    )
    go (some p) e =
        let (o, made, says) =
          report_link-Reports r net p get_stats _ uid (elapsed r.time xmpp_time) (wired uid p e)
            base in
        (o, unfold state_to_json in ground (arith, e, made), rw e says)

-- The reports are of the friends in their order, each with the friend's status and time.
abbrev pub AllSay : Reporter → Net → Manager → Table ℕ → Table Object → Type 0
AllSay r net m [] [] = Unit {0}
AllSay r net m [] ((key, o) ∷ peers) = ⊥
AllSay r net m ((uid, time) ∷ friends) [] = ⊥
AllSay r net m ((uid, time) ∷ friends) ((key, o) ∷ peers) =
    (key ≡ uid)
    × Says o uid (status_of net (find uid m.uid_map)) (elapsed r.time time)
    × AllSay r net m friends peers

-- GetState returns if every link that is online has its channel, whether statistics are asked for or
-- not. It gives one report for each friend, in order, with the friend's id, the seconds since its
-- last presence, and the status "online" if it has a link that is readable and writable, and
-- "offline" if not.
pub get_state_total :
    (r : Reporter) (net : Net) (m : Manager) (friends : Table ℕ) (get_stats : Bool)
    → IsWired net m
    → (peers : Table Object) × (get_state r net m friends get_stats ≡ some peers)
      × AllSay r net m friends peers
unfolding get_state
get_state_total r net m [] get_stats wired = ([], refl, tt)
get_state_total r net m ((uid, time) ∷ friends) get_stats wired =
    let (o, made, says) = state_to_json-Reports r net m uid time get_stats wired in
    let (peers, more, all) = get_state_total r net m friends get_stats wired in
    ((uid, o) ∷ peers, ground (arith, made, more), (refl, says, all))
