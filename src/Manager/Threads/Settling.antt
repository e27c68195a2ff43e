-- ===== src/Manager/Threads/Settling.antt =====
-- The tables of TinCanConnectionManager when an operation is done, and the transports that they lead to.
use ipop_tincan.Prelude.{
  ℕ, ◌≡◌, ◌≢◌, refl, sym, ◌∙◌, inl, inr, Bool, true, false, none, some, arith, Bytes, nat_eq,
  bytes_eq, Option-cases,
}
use ipop_tincan.Map.{find, insert, find-insert_inv, find-erase_inv}
use ipop_tincan.Manager.{Manager, short_uid}
use ipop_tincan.Manager.Types.{Address, Peer}
use ipop_tincan.Manager.Links.{insert_transport_map, remove_link, add_link, create_transport}
use ipop_tincan.Manager.Links.Safety.{transport-injective}
use ipop_tincan.Manager.Links.Creation.{create_transport-IsConsistent}
use ipop_tincan.Manager.Links.Removal.{
  remove_link-IsConsistent, uid_map-remove_link, short_uid_map-remove_link,
  delete_transport_map-inv,
}
use ipop_tincan.Manager.Threads.{
  LinkPc, idle, making, entered, registering, unregistering, unregistered, erased, dropping, asking,
  storing, set_alive,
}
use ipop_tincan.Manager.Threads.Phases.{Settled, Creating, Destroying, Phase}

-- A look-up in the short table finds a transport that exists, and an operation that deletes one has
-- taken it out before.
short-Settled :
    (a : Manager) (alive : ℕ → Bool) (short : Bytes) (t : ℕ)
    → Settled alive a
    → find short a.short_uid_map ≡ some t
    → alive t ≡ true
short-Settled a alive short t s h =
    let (uid, p, live, key, e) = s.consistent.short_owned short t h in cc (s.peers uid p live, e)

pub short-alive :
    (l : LinkPc) (now : Manager) (alive : ℕ → Bool) (short : Bytes) (t : ℕ)
    → Phase l now alive
    → find short now.short_uid_map ≡ some t
    → alive t ≡ true
short-alive idle now alive short t s h = short-Settled now alive short t s h
short-alive (making p) now alive short t c h = short-Settled now alive short t c.settled h
short-alive (entered p) now alive short t (a, c, e) h =
    short-Settled a alive short t c.settled (rw e at h)
short-alive (registering p) now alive short t (a, c, e) h =
    short-Settled a alive short t c.settled (rw e at h)
short-alive (unregistering uid) now alive short t s h = short-Settled now alive short t s h
short-alive (unregistered uid) now alive short t (a, s, e) h =
    short-Settled a alive short t s (delete_transport_map-inv (short_uid uid) short a (rw e at h)).1
short-alive (erased uid p) now alive short t (a, d, e) h =
    short-Settled a alive short t d.settled
      (delete_transport_map-inv (short_uid uid) short a (rw e at h)).1
short-alive (dropping p) now alive short t (a, uid, d, e) h =
    short-Settled a alive short t d.settled
      (delete_transport_map-inv (short_uid uid) short a (rw (e, short_uid_map-remove_link) at h)).1
short-alive (asking uid) now alive short t s h = short-Settled now alive short t s h
short-alive (storing addr) now alive short t s h = short-Settled now alive short t s h

-- A transport at an address that is free is that of no peer.
pub fresh-transport :
    {a : Manager} {alive : ℕ → Bool} (t : ℕ)
    → Settled alive a
    → alive t ≡ false
    → find t a.transport_map ≡ none
fresh-transport {a} {alive} t s free_now = elim (Option-cases (find t a.transport_map)) [
  | inl gone ↦ gone
  | inr (uid, taken) ↦
      let (p, live, e) = s.consistent.owned t uid taken in
      absurd (cc (s.peers uid p live, e, free_now))
]

pub Settled-alive :
    {a : Manager} {alive : ℕ → Bool} (t : ℕ) → Settled alive a → Settled (set_alive alive t true) a
Settled-alive {a} {alive} t s = record {
  consistent = s.consistent;
  peers = λ uid p live. ground (arith, s.peers uid p live);
}

-- The links of others keep their transports when one is deleted.
pub Settled-dropped :
    {a : Manager} {alive : ℕ → Bool} (uid : Bytes) (p : Peer)
    → Destroying alive uid p a
    → Settled (set_alive alive p.transport false) (remove_link uid p a)
Settled-dropped {a} {alive} uid p d = record {
  consistent = remove_link-IsConsistent a d.settled.consistent uid p d.live;
  peers = λ u q h.
      let (ne, f) = find-erase_inv uid u a.uid_map (rw uid_map-remove_link at h) in
      let apart : p.transport ≢ q.transport =
        λ e. ne (transport-injective uid u p q d.settled.consistent d.live f e) in
      ground (arith, d.settled.peers u q f);
}

-- The tables that CreateTransport leaves.
create_transport-made :
    (alive : ℕ → Bool) (p : Peer) (a : Manager) (c : Creating alive p a)
    → (create_transport c.lib a c.new c.args).0 ≡ add_link p a
unfolding create_transport
create_transport-made alive p a c = ground (arith, c.untaken, c.is_made)

uid_map-add_link : (p : Peer) (a : Manager) → (add_link p a).uid_map ≡ insert p.uid p a.uid_map
unfolding add_link insert_transport_map
uid_map-add_link p a = refl

pub Settled-created :
    {alive : ℕ → Bool} (p : Peer) (a b : Manager)
    → Creating alive p a
    → b ≡ add_link p a
    → Settled alive b
Settled-created {alive} p a b c e =
    let f = create_transport-made alive p a c in
    record {
      consistent =
          rw (e ∙ sym f)
            (create_transport-IsConsistent c.lib a c.new c.args c.settled.consistent c.unused);
      peers = λ u q h. elim (find-insert_inv p.uid u p a.uid_map (rw (e, uid_map-add_link) at h)) [
        | inl (same, k) ↦ cc (c.exists, k)
        | inr (other, k) ↦ c.settled.peers u q k
      ];
    }

pub Settled-readdressed :
    {a : Manager} {alive : ℕ → Bool} (addr : Address)
    → Settled alive a
    → Settled alive (record a { forward_addr = addr })
Settled-readdressed {a} {alive} addr s =
    let k = s.consistent in
    record {
      consistent = record {
        keyed = k.keyed;
        registered = k.registered;
        owned = k.owned;
        short_owned = k.short_owned;
      };
      peers = s.peers;
    }
