-- ===== src/Controller/Framing.antt =====
-- What HandlePacket makes of the frames of src/tincan_utils.h: the four types of datagrams, the
-- version byte, and the end of the text of a request.
use ipop_tincan.Prelude.{
  ℕ, suc, ◌≡◌, ◌≢◌, ◌≤◌, ◌>>=◌, ◌⊎◌, inl, inr, refl, ap, Option, none, some, [], ◌∷◌, ◌++◌, Bytes,
  arith, take, length, if◌then◌else◌,
}
use ipop_tincan.Text.CString.{c_string, c_string-append}
use ipop_tincan.Text.Fields.{Free}
use ipop_tincan.Wire.{frame, k_tincan_packet, k_icc_control, k_icc_packet}
use ipop_tincan.Manager.Types.{Address}
use ipop_tincan.Manager.Queues.{do_packet_send, do_packet_recv, send_to_tap}
use ipop_tincan.WQueue.{add, remove}
use ipop_tincan.Controller.{Env, Controller, message_of}
use ipop_tincan.Controller.Requests.{handle_message, handle_packet}

take_two_more : (s t : Bytes) → take (suc (suc (length s))) (s ++ t) ≡ s ++ take 2 t
take_two_more [] t = refl
take_two_more (b ∷ s) t = ap (◌∷◌ b) (take_two_more s t)

-- The text that is read as a request: the payload, and up to two bytes of what lies behind the
-- datagram, for a header and a payload without zeros.
pub message_of-frame :
    (v kind : ℕ) (payload t behind : Bytes)
    → Free 0 (v ∷ kind ∷ payload)
    → c_string behind ≡ some t
    → message_of (v ∷ kind ∷ payload) behind ≡ some (payload ++ take 2 t)
unfolding message_of
message_of-frame v kind payload t behind h e =
    let s = c_string-append (v ∷ kind ∷ payload) t behind h e in
    let m = take_two_more payload t in ground (arith, s, m)

-- A datagram of version 3 and type 2 goes to the queue of the tap, one of type 3 or 4 to the queue of
-- packets to send and wakes the packet handling thread if the manager is there; each is its payload
-- without its header, whatever bytes the payload has, and nothing else of the controller changes.
pub handle_packet-frame :
    (env : Env) (c : Controller) (payload behind : Bytes) (addr : Address)
    → let q = c.queues in
      let posted = if q.has_manager then suc q.posted else q.posted in
      let sending = record q { send_queue = q.send_queue ++ payload ∷ []; posted = posted } in
      (handle_packet env c (3 ∷ 2 ∷ payload) behind addr
        ≡ some (record c { queues = record q { recv_queue = q.recv_queue ++ payload ∷ [] } }, []))
      × (handle_packet env c (3 ∷ 3 ∷ payload) behind addr
          ≡ some (record c { queues = sending }, []))
      × (handle_packet env c (3 ∷ 4 ∷ payload) behind addr
          ≡ some (record c { queues = sending }, []))
unfolding handle_packet send_to_tap do_packet_send add
handle_packet-frame env c payload behind addr = (ground arith, ground arith, ground arith)

-- For a frame of type kTincanControl whose payload has no zero byte, the request that is handled is
-- the payload and the up to two bytes of the C string that lies behind the datagram in memory.
pub handle_packet-control :
    (env : Env) (c : Controller) (payload t behind : Bytes) (addr : Address)
    → Free 0 payload
    → c_string behind ≡ some t
    → handle_packet env c (3 ∷ 1 ∷ payload) behind addr
      ≡ handle_message env c (payload ++ take 2 t) addr
unfolding handle_packet
handle_packet-control env c payload t behind addr h e =
    let m =
      message_of-frame 3 1 payload t behind
        ((λ z. absurd (omega arith)), ((λ z. absurd (omega arith)), h)) e in
    ground (arith, m)

-- The types of datagrams that carry a packet.
abbrev pub IsData : ℕ → Type 0
IsData kind = (kind ≡ k_tincan_packet) ⊎ ((kind ≡ k_icc_control) ⊎ (kind ≡ k_icc_packet))

pub handle_packet-IsData :
    (env : Env) (c : Controller) (version kind : ℕ) (payload behind : Bytes) (addr : Address)
    → IsData kind
    → (c' : Controller) × (handle_packet env c (version ∷ kind ∷ payload) behind addr
        ≡ some (c', []))
unfolding handle_packet
handle_packet-IsData env c version kind payload behind addr (inl e) =
    (record c { queues = (send_to_tap c.queues payload).0 }, ground arith)
handle_packet-IsData env c version kind payload behind addr (inr (inl e)) =
    (record c { queues = (do_packet_send c.queues payload).0 }, ground arith)
handle_packet-IsData env c version kind payload behind addr (inr (inr e)) =
    (record c { queues = (do_packet_send c.queues payload).0 }, ground arith)

-- For a type byte that is none of kTincanPacket, kICCControl and kICCPacket, a datagram whose
-- version byte is 0 makes the construction of the message throw.
pub handle_packet-zero :
    (env : Env) (c : Controller) (kind : ℕ) (payload behind : Bytes) (addr : Address)
    → kind ≢ k_tincan_packet
    → kind ≢ k_icc_control
    → kind ≢ k_icc_packet
    → handle_packet env c (0 ∷ kind ∷ payload) behind addr ≡ none
unfolding handle_packet message_of c_string
handle_packet-zero env c kind payload behind addr a b d = ground arith

message_of-version :
    (v w : ℕ) (rest behind : Bytes) (o : Option Bytes)
    → v ≢ 0
    → w ≢ 0
    → c_string (rest ++ behind) ≡ o
    → message_of (v ∷ rest) behind ≡ message_of (w ∷ rest) behind
unfolding message_of c_string
message_of-version v w rest behind none p q e = ground (arith, e)
message_of-version v w rest behind (some s) p q e = ground (arith, e)

-- A wrong version byte is only logged: a datagram has the same result with any two version bytes
-- that are not 0.
pub handle_packet-version :
    (env : Env) (c : Controller) (v w : ℕ) (rest behind : Bytes) (addr : Address)
    → v ≢ 0
    → w ≢ 0
    → handle_packet env c (v ∷ rest) behind addr ≡ handle_packet env c (w ∷ rest) behind addr
unfolding handle_packet
handle_packet-version env c v w rest behind addr p q =
    rw (message_of-version v w rest behind (c_string (rest ++ behind)) p q refl) refl

-- A frame of type kTincanPacket from the controller, handled while the queue of the tap device is
-- empty, is what DoPacketRecv with a large enough buffer returns next: its payload as it was sent,
-- and the queues are as before.
pub do_packet_recv-handle_packet :
    (env : Env) (c : Controller) (payload behind : Bytes) (addr : Address) (len : ℕ)
    → c.queues.recv_queue ≡ []
    → length payload ≤ len
    → (handle_packet env c (frame k_tincan_packet payload) behind addr >>= λ r.
        do_packet_recv r.0.queues len)
      ≡ some (c.queues, some payload)
unfolding handle_packet frame send_to_tap do_packet_recv add remove
do_packet_recv-handle_packet env c payload behind addr len h fits = ground arith
