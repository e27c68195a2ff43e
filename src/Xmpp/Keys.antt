-- ===== src/Xmpp/Keys.antt =====
-- get_key, and the id that Login puts into the resource.
use ipop_tincan.Prelude.{
  ℕ, ◌+◌, ◌≡◌, some, [], ◌∷◌, ◌++◌, arith, Bytes, length, length-append, drop-append_more,
  take_exactly,
}
use ipop_tincan.Text.{find_char}
use ipop_tincan.Text.Fields.{Free}
use ipop_tincan.Xmpp.{k_xmpp_prefix, key_start, get_key}

find_char-Free : (d : ℕ) (s t : Bytes) → Free d s → find_char d (s ++ d ∷ t) ≡ some (length s)
unfolding find_char
find_char-Free d [] t h = ground arith
find_char-Free d (c ∷ s) t h = ground (arith, find_char-Free d s t h.1)

-- The full JID of a node: its bare JID, and the resource of Login with what the server appended.
abbrev pub full_jid : Bytes → Bytes → Bytes → Bytes
full_jid bare pcid suffix = bare ++ b'/' ∷ (k_xmpp_prefix ++ (pcid ++ suffix))

key_start-full_jid :
    (bare pcid suffix : Bytes)
    → Free b'/' bare
    → key_start (full_jid bare pcid suffix) ≡ length bare + 7
unfolding key_start
key_start-full_jid bare pcid suffix h =
    ground (arith, find_char-Free b'/' bare (k_xmpp_prefix ++ (pcid ++ suffix)) h)

-- For the full JID of a node that logged in with an id of forty characters, whatever the server
-- appended to the resource, get_key gives the id.
pub get_key-full_jid :
    (bare pcid suffix : Bytes)
    → Free b'/' bare
    → length pcid ≡ 40
    → get_key (full_jid bare pcid suffix) ≡ pcid
unfolding get_key
get_key-full_jid bare pcid suffix h k = rw (key_start-full_jid bare pcid suffix h) (
    rw (drop-append_more 7 bare (b'/' ∷ (k_xmpp_prefix ++ (pcid ++ suffix)))) (
      ground (
        arith,
        length-append bare (b'/' ∷ (k_xmpp_prefix ++ (pcid ++ suffix))),
        length-append pcid suffix,
        take_exactly 40 pcid suffix k,
      )))
