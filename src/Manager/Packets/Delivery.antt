-- ===== src/Manager/Packets/Delivery.antt =====
-- The send queue between ipop-tap and the controller, which call DoPacketSend, and the packet
-- handling thread, which answers each posted message by OnMessage.
use ipop_tincan.Prelude.{
  ℕ, suc, zero, ◌-◌, ◌≤◌, ◌≡◌, refl, sym, ◌∙◌, Option, none, some, List, [], ◌∷◌, ◌++◌,
  append_assoc, append-nil, arith, ap, Bool, if◌then◌else◌, Bytes, length, length-append, ◌⊎◌, inl,
  inr,
}
use ipop_tincan.Manager.{Manager, Libjingle, Net}
use ipop_tincan.Manager.Types.{Call}
use ipop_tincan.Manager.Queues.{Queues, do_packet_send}
use ipop_tincan.Manager.Packets.{handle_packet, on_message}

-- The state of the world when the packet handling thread takes a message.
pub record Moment : Type 0 where
  pub net : Net
  pub unset : ℕ
  pub manager : Manager

pub data Event : Type 0 where
  sends : Bytes → Event
  dispatch : Moment → Event

unfoldable pub handled : Libjingle → List (Moment × Bytes) → List Call
handled lib [] = []
handled lib ((w, packet) ∷ rest) =
    handle_packet lib w.net w.unset w.manager packet ++ handled lib rest

abbrev pub sent : List Event → List Bytes
sent [] = []
sent (sends packet ∷ es) = packet ∷ sent es
sent (dispatch w ∷ es) = sent es

abbrev pub packets : List (Moment × Bytes) → List Bytes
packets [] = []
packets ((w, packet) ∷ rest) = packet ∷ packets rest

abbrev then_run :
    (Queues → Option (Queues × List Call))
    → Option (Queues × List Call)
    → Option (Queues × List Call)
then_run k none = none
then_run k (some (q, calls)) = elim (k q) [
  | none ↦ none
  | some (q', more) ↦ some (q', calls ++ more)
]

-- The thread dispatches a message only if one is posted.
unfoldable pub dispatched : Libjingle → Moment → Queues → Option (Queues × List Call)
dispatched lib w q = elim q.posted [
  | zero ↦ some (q, [])
  | suc n ↦ on_message lib w.net w.unset w.manager q
]

-- `none` as soon as the thread waits inside OnMessage.
unfoldable pub run : Libjingle → List Event → Queues → Option (Queues × List Call)
run lib [] q = some (q, [])
run lib (sends packet ∷ es) q = run lib es (do_packet_send q packet).0
run lib (dispatch w ∷ es) q = then_run (run lib es) (dispatched lib w q)

-- How many dispatches of a schedule find a message posted, if so many are posted at its start.
abbrev pub answers : Bool → List Event → ℕ → ℕ
answers wired [] n = 0
answers wired (sends packet ∷ es) n = answers wired es (if wired then suc n else n)
answers wired (dispatch w ∷ es) zero = answers wired es zero
answers wired (dispatch w ∷ es) (suc n) = suc (answers wired es n)

-- No more messages are posted than packets are queued.
abbrev pub IsServed : Queues → Type 0
IsServed q = q.posted ≤ length q.send_queue

pub do_packet_send-IsServed :
    (q : Queues) (packet : Bytes) → IsServed q → IsServed (do_packet_send q packet).0
unfolding do_packet_send
do_packet_send-IsServed q packet h = ground (arith, length-append q.send_queue (packet ∷ []))

send_queue-do_packet_send :
    (q : Queues) (packet : Bytes)
    → (do_packet_send q packet).0.send_queue ≡ q.send_queue ++ packet ∷ []
unfolding do_packet_send
send_queue-do_packet_send q packet = refl

posted-do_packet_send :
    (q : Queues) (packet : Bytes) (es : List Event)
    → let q' = (do_packet_send q packet).0 in
      answers q'.has_manager es q'.posted ≡ answers q.has_manager (sends packet ∷ es) q.posted
unfolding do_packet_send
posted-do_packet_send q packet es = ground arith

-- A posted message never leaves the packet handling thread waiting: it finds a packet, and as many
-- messages as packets stay.
pub dispatched-cases :
    (lib : Libjingle) (w : Moment) (q : Queues) (n : ℕ) (ps : List Bytes)
    → q.posted ≡ n
    → q.send_queue ≡ ps
    → IsServed q
    → ((q.posted ≡ 0) × (dispatched lib w q ≡ some (q, [])))
      ⊎ ((packet : Bytes) × (q' : Queues) × (q.send_queue ≡ packet ∷ q'.send_queue)
          × (q.posted ≡ suc q'.posted)
          × (q'.has_manager ≡ q.has_manager)
          × IsServed q'
          × (dispatched lib w q ≡ some (q', handle_packet lib w.net w.unset w.manager packet)))
unfolding dispatched on_message
dispatched-cases lib w q zero ps e f h = inl (e, ground arith)
dispatched-cases lib w q (suc n) [] e f h = absurd (ground arith)
dispatched-cases lib w q (suc n) (packet ∷ rest) e f h = inr (
  packet,
  record q { posted = q.posted - 1; send_queue = rest },
  f,
  omega arith,
  refl,
  ground arith,
  ground arith,
)

-- The outcome of a run: no wait, a packet handled by each dispatch that finds a message, in the
-- order of sending, and the rest queued.
pub record Served (lib : Libjingle) (es : List Event) (q : Queues) : Type 0 where
  pub after : Queues
  pub done : List (Moment × Bytes)
  pub runs : run lib es q ≡ some (after, handled lib done)
  pub in_order : packets done ++ after.send_queue ≡ q.send_queue ++ sent es
  pub counted : length done ≡ answers q.has_manager es q.posted
  pub still : IsServed after

-- Whatever the interleaving of senders and the packet handling thread, from a state in which every
-- posted message has its packet the thread never waits, each dispatch that finds a message posted
-- handles one packet, and the packets handled and then those still queued are the ones queued at the
-- start and then those sent, in this order, none twice and none left out.
pub run-Served : (lib : Libjingle) (es : List Event) (q : Queues) → IsServed q → Served lib es q
unfolding run handled
run-Served lib [] q h = record {
  after = q;
  done = [];
  runs = refl;
  in_order = sym (append-nil q.send_queue);
  counted = refl;
  still = h;
}
run-Served lib (sends packet ∷ es) q h =
    let r = run-Served lib es (do_packet_send q packet).0 (do_packet_send-IsServed q packet h) in
    record {
      after = r.after;
      done = r.done;
      runs = r.runs;
      in_order = r.in_order ∙ rw (send_queue-do_packet_send q packet, append_assoc) refl;
      counted = r.counted ∙ posted-do_packet_send q packet es;
      still = r.still;
    }
run-Served lib (dispatch w ∷ es) q h =
    elim (dispatched-cases lib w q q.posted q.send_queue refl refl h) [
      | inl (empty, e) ↦
          let r = run-Served lib es q h in
          record {
            after = r.after;
            done = r.done;
            runs = ground (arith, r.runs);
            in_order = r.in_order;
            counted = r.counted ∙ rw empty refl;
            still = r.still;
          }
      | inr (packet, q', f, more, same, h', e) ↦
          let r = run-Served lib es q' h' in
          record {
            after = r.after;
            done = (w, packet) ∷ r.done;
            runs = ground (arith, r.runs);
            in_order = ground (arith, r.in_order);
            counted = rw more (ap suc (r.counted ∙ rw same refl));
            still = r.still;
          }
    ]
