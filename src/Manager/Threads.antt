-- ===== src/Manager/Threads.antt =====
-- src/tincanconnectionmanager.cc, one access at a time: the link setup thread runs CreateTransport,
-- DestroyTransport, GetState and SET_CB_ENDPOINT, the packet handling thread OnReadPacket,
-- HandlePacket and what the other thread has it do by `Invoke`. A thread that waits in `Invoke` runs
-- nothing else, and the packet handling thread takes the next message when it has done with one.
pub mod Phases
pub mod Settling
pub mod Safety
pub mod Races
pub mod Replay
use ipop_tincan.Prelude.{
  ℕ, ◌≡◌, Bool, true, false, ◌||◌, Option, none, some, Bytes, nat_eq, bytes_eq, ◌==◌, nat_beq,
  if◌then◌else◌,
}
use ipop_tincan.Map.{find, insert, erase, has}
use ipop_tincan.Manager.{set_forward_addr, Manager, Libjingle, short_uid}
use ipop_tincan.Manager.Types.{Address, Peer}
use ipop_tincan.Manager.Links.{Link, Fresh, insert_transport_map, delete_transport_map}
use ipop_tincan.Manager.Links.Creation.{made}

-- Where the link setup thread stands.
pub data LinkPc : Type 0 where
  idle : LinkPc
  -- CreateTransport: the peer is made; is in uid_map_; is in transport_map_, and the thread waits
  making entered registering : Peer → LinkPc
  -- DestroyTransport: the thread waits; has the answer; has erased from transport_map_; from uid_map_
  unregistering unregistered : Bytes → LinkPc
  erased : Bytes → Peer → LinkPc
  dropping : Peer → LinkPc
  -- GetState waits for the statistics of a peer
  asking : Bytes → LinkPc
  -- SET_CB_ENDPOINT, at set_forward_addr
  storing : Address → LinkPc

-- Where the packet handling thread stands: it uses a transport that it has found under a short id,
-- or that GetChannelStats_w has found, or reads forward_addr_ for HandleQueueSignal_w.
pub data PacketPc : Type 0 where
  free : PacketPc
  using : Bytes → ℕ → PacketPc
  measuring : ℕ → PacketPc
  forwarding : PacketPc

-- `alive` says which transports exist.
pub record System : Type 0 where
  pub manager : Manager
  pub alive : ℕ → Bool
  pub link : LinkPc
  pub packet : PacketPc

abbrev pub set_alive : (ℕ → Bool) → ℕ → Bool → ℕ → Bool
set_alive alive t b j = if nat_beq t j then b else alive j

abbrev pub enter_uid_map : Peer → Manager → Manager
enter_uid_map p m = record m { uid_map = insert p.uid p m.uid_map }

abbrev pub enter_transport_map : Peer → Manager → Manager
enter_transport_map p m = record m { transport_map = insert p.transport p.uid m.transport_map }

abbrev pub erase_transport_map : Peer → Manager → Manager
erase_transport_map p m = record m { transport_map = erase p.transport m.transport_map }

abbrev pub erase_uid_map : Bytes → Manager → Manager
erase_uid_map uid m = record m { uid_map = erase uid m.uid_map }

pub data Step (s : System) (t : System) : Type 0 where
  -- CreateTransport past its test, with a transport at an address that is free
  create :
      (lib : Libjingle) (new : Fresh) (l : Link)
      → s.link ≡ idle
      → (has l.uid s.manager.uid_map || s.manager.tincan_id == l.uid) ≡ false
      → s.alive new.transport ≡ false
      → t ≡ record s {
        link = making (made lib s.manager new l);
        alive = set_alive s.alive new.transport true;
      }
      → Step s t
  enter_uid :
      (p : Peer)
      → s.link ≡ making p
      → t ≡ record s { link = entered p; manager = enter_uid_map p s.manager }
      → Step s t
  enter_transport :
      (p : Peer)
      → s.link ≡ entered p
      → t ≡ record s { link = registering p; manager = enter_transport_map p s.manager }
      → Step s t
  -- InsertTransportMap_w, and Invoke returns
  run_insert :
      (p : Peer)
      → s.link ≡ registering p
      → s.packet ≡ free
      → t ≡ record s {
        link = idle;
        manager = insert_transport_map (short_uid p.uid) p.transport s.manager;
      }
      → Step s t
  -- DestroyTransport past its test
  destroy :
      (uid : Bytes)
      → s.link ≡ idle
      → has uid s.manager.uid_map ≡ true
      → t ≡ record s { link = unregistering uid }
      → Step s t
  -- DeleteTransportMap_w, and Invoke returns
  run_delete :
      (uid : Bytes)
      → s.link ≡ unregistering uid
      → s.packet ≡ free
      → t ≡ record s {
        link = unregistered uid;
        manager = delete_transport_map (short_uid uid) s.manager;
      }
      → Step s t
  erase_transport :
      (uid : Bytes) (p : Peer)
      → s.link ≡ unregistered uid
      → find uid s.manager.uid_map ≡ some p
      → t ≡ record s { link = erased uid p; manager = erase_transport_map p s.manager }
      → Step s t
  erase_uid :
      (uid : Bytes) (p : Peer)
      → s.link ≡ erased uid p
      → t ≡ record s { link = dropping p; manager = erase_uid_map uid s.manager }
      → Step s t
  -- the last reference goes, and ~PeerState deletes the transport
  drop_peer :
      (p : Peer)
      → s.link ≡ dropping p
      → t ≡ record s { link = idle; alive = set_alive s.alive p.transport false }
      → Step s t
  -- StateToJson at its Invoke, GetChannelStats_w, and Invoke returns
  ask :
      (uid : Bytes)
      → s.link ≡ idle
      → has uid s.manager.uid_map ≡ true
      → t ≡ record s { link = asking uid }
      → Step s t
  run_stats :
      (uid : Bytes) (p : Peer)
      → s.link ≡ asking uid
      → s.packet ≡ free
      → find uid s.manager.uid_map ≡ some p
      → t ≡ record s { packet = measuring p.transport }
      → Step s t
  end_stats :
      (uid : Bytes) (transport : ℕ)
      → s.link ≡ asking uid
      → s.packet ≡ measuring transport
      → t ≡ record s { link = idle; packet = free }
      → Step s t
  begin_endpoint :
      (addr : Address) → s.link ≡ idle → t ≡ record s { link = storing addr } → Step s t
  store_endpoint :
      (addr : Address)
      → s.link ≡ storing addr
      → t ≡ record s { link = idle; manager = set_forward_addr addr s.manager }
      → Step s t
  -- OnReadPacket and HandlePacket look a short id up, and then use what they have found
  look_up :
      (short : Bytes) (transport : ℕ)
      → s.packet ≡ free
      → find short s.manager.short_uid_map ≡ some transport
      → t ≡ record s { packet = using short transport }
      → Step s t
  end_use :
      (short : Bytes) (transport : ℕ)
      → s.packet ≡ using short transport
      → t ≡ record s { packet = free }
      → Step s t
  begin_forward : s.packet ≡ free → t ≡ record s { packet = forwarding } → Step s t
  end_forward : s.packet ≡ forwarding → t ≡ record s { packet = free } → Step s t

-- The start of a manager, before any transport exists.
abbrev pub start : Manager → System
start m = record { manager = m; alive = λ t. false; link = idle; packet = free }

pub data Reach (m : Manager) : System → Type 0 where
  here : Reach m (start m)
  next : {s t : System} → Reach m s → Step s t → Reach m t

-- The transport that the packet handling thread calls.
abbrev pub uses : PacketPc → Option ℕ
uses free = none
uses (using short t) = some t
uses (measuring t) = some t
uses forwarding = none
