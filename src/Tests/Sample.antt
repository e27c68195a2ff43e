-- ===== src/Tests/Sample.antt =====
-- A concrete libjingle, a network, and a manager with one link, for the tests.
use ipop_tincan.Prelude.{
  ℕ, ◌+◌, ◌/◌, ◌%◌, true, some, [], ◌∷◌, Bytes, codes, ltb, take, if◌then◌else◌,
}
use ipop_tincan.Text.Fields.{fields}
use ipop_tincan.Manager.{Manager, Libjingle, Net, init}
use ipop_tincan.Manager.Links.{Link, Fresh, create_transport}

abbrev pub hex_digit : ℕ → ℕ
hex_digit d = if ltb d 10 then 48 + d else 87 + d

abbrev pub hex : Bytes → Bytes
hex [] = []
hex (b ∷ bs) = hex_digit (b / 16) ∷ hex_digit (b % 16) ∷ hex bs

abbrev pub lib : Libjingle
lib = record {
  hex_encode = hex;
  hex_decode = λ n s. take n s;
  create_fingerprint = λ uid. some uid;
  fingerprint_from_rfc4572 = λ s. some s;
  from_string = λ s. record { host = s; port = 3478 };
  ip_to_string = λ a. a.host;
  split = fields;
}

-- Transport 100 is up, with channel 200.
abbrev pub net : Net
net = record {
  readable = λ t. true;
  writable = λ t. true;
  was_writable = λ t. true;
  get_channel = λ t. some (t + 100);
  ports = λ c. [];
}

-- An id of forty characters that begins with sixteen zeros.
abbrev pub peer_uid : Bytes
peer_uid = codes "0000000000000000bbbbbbbbbbbbbbbbbbbbbbbb"

abbrev pub other_uid : Bytes
other_uid = codes "0000000000000000cccccccccccccccccccccccc"

abbrev pub link : Bytes → Link
link uid = record {
  uid = uid;
  fpr = codes "AA";
  overlay_id = 1;
  stun = codes "s";
  turn = [];
  turn_user = [];
  turn_pass = [];
  sec = true;
}

abbrev pub fresh : ℕ → Fresh
fresh t = record { time = 5; transport = t; channel = t + 100 }

abbrev pub start : Manager
start = init 7 (codes "ipop")

abbrev pub linked : Manager
linked = (create_transport lib start (fresh 100) (link peer_uid)).0

abbrev pub colliding : Manager
colliding = (create_transport lib linked (fresh 101) (link other_uid)).0

-- An id that no short id of zeros begins, and a manager with a link to it.
abbrev pub far_uid : Bytes
far_uid = codes "bbbbbbbbbbbbbbbbbbbbbbbbbbbbbbbbbbbbbbbb"

abbrev pub far_linked : Manager
far_linked = (create_transport lib start (fresh 100) (link far_uid)).0
