-- ===== src/Manager/Threads/Phases.antt =====
-- How the tables of TinCanConnectionManager stand while one of its threads is inside an operation.
use ipop_tincan.Prelude.{ℕ, ◌≡◌, Bool, true, false, ◌||◌, none, some, Bytes, nat_eq, bytes_eq, ◌==◌}
use ipop_tincan.Map.{find, has}
use ipop_tincan.Manager.{Manager, Libjingle, short_uid}
use ipop_tincan.Manager.Types.{Peer}
use ipop_tincan.Manager.Links.{Link, Fresh, delete_transport_map, remove_link}
use ipop_tincan.Manager.Links.Safety.{IsConsistent}
use ipop_tincan.Manager.Links.Creation.{made}
use ipop_tincan.Manager.Threads.{
  LinkPc, idle, making, entered, registering, unregistering, unregistered, erased, dropping, asking,
  storing, PacketPc, free, using, measuring, forwarding, System, enter_uid_map, enter_transport_map,
  erase_transport_map,
}

-- Tables that agree, whose transports all exist.
pub record Settled (alive : ℕ → Bool) (a : Manager) : Type 0 where
  pub consistent : IsConsistent a
  pub peers : (uid : Bytes) (p : Peer) → find uid a.uid_map ≡ some p → alive p.transport ≡ true

-- The tables that a peer of CreateTransport is about to enter.
pub record Creating (alive : ℕ → Bool) (p : Peer) (a : Manager) : Type 0 where
  pub settled : Settled alive a
  pub exists : alive p.transport ≡ true
  pub lib : Libjingle
  pub new : Fresh
  pub args : Link
  pub is_made : p ≡ made lib a new args
  pub untaken : (has args.uid a.uid_map || a.tincan_id == args.uid) ≡ false
  pub unused : find new.transport a.transport_map ≡ none

pub record Destroying (alive : ℕ → Bool) (uid : Bytes) (p : Peer) (a : Manager) : Type 0 where
  pub settled : Settled alive a
  pub live : find uid a.uid_map ≡ some p

-- How the tables stand to those before the operation that runs.
abbrev pub Phase : LinkPc → Manager → (ℕ → Bool) → Type 0
Phase idle now alive = Settled alive now
Phase (making p) now alive = Creating alive p now
Phase (entered p) now alive = (a : Manager) × Creating alive p a × (now ≡ enter_uid_map p a)
Phase (registering p) now alive =
    (a : Manager) × Creating alive p a × (now ≡ enter_transport_map p (enter_uid_map p a))
Phase (unregistering uid) now alive = Settled alive now
Phase (unregistered uid) now alive =
    (a : Manager) × Settled alive a × (now ≡ delete_transport_map (short_uid uid) a)
Phase (erased uid p) now alive =
    (a : Manager) × Destroying alive uid p a
    × (now ≡ erase_transport_map p (delete_transport_map (short_uid uid) a))
Phase (dropping p) now alive =
    (a : Manager) × (uid : Bytes) × Destroying alive uid p a × (now ≡ remove_link uid p a)
Phase (asking uid) now alive = Settled alive now
Phase (storing addr) now alive = Settled alive now

-- What the packet handling thread has in hand is still so.
abbrev pub HoldsOn : LinkPc → Manager → (ℕ → Bool) → PacketPc → Type 0
HoldsOn l now alive free = Unit {0}
HoldsOn l now alive (using short t) = find short now.short_uid_map ≡ some t
HoldsOn l now alive (measuring t) = (uid : Bytes) × (l ≡ asking uid) × (alive t ≡ true)
HoldsOn l now alive forwarding = Unit {0}

pub record IsSafe (s : System) : Type 0 where
  pub phase : Phase s.link s.manager s.alive
  pub packet : HoldsOn s.link s.manager s.alive s.packet
