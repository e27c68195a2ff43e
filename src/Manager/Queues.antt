-- ===== src/Manager/Queues.antt =====
-- The global queues g_send_queue and g_recv_queue, the pointer g_manager, and the calls that
-- ipop-tap and the controller make on them: DoPacketSend, DoPacketRecv, SendToTap. `posted` counts
-- the MSG_QUEUESIGNAL messages that wait for the packet handling thread.
use ipop_tincan.Prelude.{ℕ, suc, Bool, Option, none, some, List, Bytes, ltb, length, if◌then◌else◌}
use ipop_tincan.WQueue.{add, remove}

pub record Queues : Type 0 where
  pub send_queue : List Bytes
  pub recv_queue : List Bytes
  pub posted : ℕ
  pub has_manager : Bool

-- Returns `len`.
unfoldable pub do_packet_send : Queues → Bytes → Queues × ℕ
unfolding add
do_packet_send q buf = (
  record q {
    send_queue = add buf q.send_queue;
    posted = if q.has_manager then suc q.posted else q.posted;
  },
  length buf,
)

-- The packet, or `none` for -1: it does not fit the caller's buffer of `len` bytes.
abbrev pub fit : ℕ → Bytes → Option Bytes
fit len packet = if ltb len (length packet) then none else some packet

-- `none` means that the caller waits for a packet.
unfoldable pub do_packet_recv : Queues → ℕ → Option (Queues × Option Bytes)
unfolding remove
do_packet_recv q len = elim (remove q.recv_queue) [
  | none ↦ none
  | some (packet, rest) ↦ some (record q { recv_queue = rest }, fit len packet)
]

unfoldable pub send_to_tap : Queues → Bytes → Queues × ℕ
unfolding add
send_to_tap q buf = (record q { recv_queue = add buf q.recv_queue }, length buf)
