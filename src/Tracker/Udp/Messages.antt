-- ===== src/Tracker/Udp/Messages.antt =====
-- What the server makes of the announce that a client means (tracker/udp.go, with BEP-15).
use ocelot.Prelude.{
  ℕ, ◌+◌, ◌*◌, ◌^◌, ◌<◌, ◌≡◌, refl, true, Option, none, some, if◌then◌else◌, leb, length, List,
  arith, nat_eq, ◌∙◌,
}
use ocelot.Prelude.Int.{pos}
use ocelot.Prelude.Bytes.{drop, get32, get64}
use ocelot.Tracker.Address.{Ip, v4}
use ocelot.Tracker.Announce.Request.{Event, started, completed, stopped, other_event}
use ocelot.Tracker.Udp.{
  int64_of, int32_of, uint32_of, udp_event, announced_ip, clamp_wanted, decode_announce,
}
use ocelot.Tracker.Udp.Packets.{Fields, IsInRange, layout, decode_announce-words}

-- The four bytes of an IPv4 address.
pub record Quad : Type 0 where
  pub first : ℕ
  pub second : ℕ
  pub third : ℕ
  pub fourth : ℕ

-- What a client means by its announce; without an `address`, the one that the packet comes from, and
-- without `wanted`, as many peers as the server likes.
pub record Message : Type 0 where
  pub connection : ℕ
  pub trans : ℕ
  pub hash : List ℕ
  pub peer : List ℕ
  pub downloaded : ℕ
  pub left : ℕ
  pub uploaded : ℕ
  pub event : Event
  pub address : Option Quad
  pub key : ℕ
  pub wanted : Option ℕ
  pub port : ℕ

-- `0: none; 1: completed; 2: started; 3: stopped`
abbrev pub code_of : Event → ℕ
code_of other_event = 0
code_of completed = 1
code_of started = 2
code_of stopped = 3

abbrev pub word_of : Option Quad → ℕ
word_of none = 0
word_of (some q) = q.first * 0x100_0000 + q.second * 0x1_0000 + q.third * 256 + q.fourth

-- The default is -1.
abbrev pub wanted_word : Option ℕ → ℕ
wanted_word none = 0xFFFF_FFFF
wanted_word (some n) = n

abbrev pub fields_of : Message → Fields
fields_of m = record {
  connection = m.connection;
  trans = m.trans;
  hash = m.hash;
  peer = m.peer;
  downloaded = m.downloaded;
  left = m.left;
  uploaded = m.uploaded;
  event_code = code_of m.event;
  override = word_of m.address;
  key = m.key;
  wanted = wanted_word m.wanted;
  port = m.port;
}

-- An address that is not 0.0.0.0, which the protocol uses for no address.
pub record IsAddress (q : Quad) : Type 0 where
  pub first : q.first < 256
  pub second : q.second < 256
  pub third : q.third < 256
  pub fourth : q.fourth < 256
  pub some_bit : 0 < q.first + q.second + q.third + q.fourth

abbrev pub AddressFits : Option Quad → Type 0
AddressFits none = Unit
AddressFits (some q) = IsAddress q

abbrev pub WantedFits : Option ℕ → Type 0
WantedFits none = Unit
WantedFits (some n) = n < 2 ^ 31

pub record Fits (m : Message) : Type 0 where
  pub connection : m.connection < 2 ^ 64
  pub trans : m.trans < 2 ^ 32
  pub hash : length m.hash ≡ 20
  pub peer : length m.peer ≡ 20
  pub downloaded : m.downloaded < 2 ^ 63
  pub left : m.left < 2 ^ 63
  pub uploaded : m.uploaded < 2 ^ 63
  pub address : AddressFits m.address
  pub wanted : WantedFits m.wanted
  pub port : m.port < 2 ^ 16

abbrev pub address_or : Ip → Option Quad → Ip
address_or sender none = sender
address_or sender (some q) = v4 q.first q.second q.third q.fourth

-- As many peers as are wanted, but no more than the limit.
abbrev pub granted : ℕ → Option ℕ → ℕ
granted limit none = limit
granted limit (some n) = if leb n limit then n else limit

int64_of_small : (n : ℕ) → n < 2 ^ 63 → int64_of n ≡ pos n
unfolding int64_of
int64_of_small n h = ground arith

udp_event-code_of : (e : Event) → udp_event (code_of e) ≡ e
unfolding udp_event
udp_event-code_of started = refl
udp_event-code_of completed = refl
udp_event-code_of stopped = refl
udp_event-code_of other_event = refl

code_of_small : (e : Event) → code_of e < 2 ^ 32
code_of_small e = ground arith

word_of_small : (o : Option Quad) → AddressFits o → word_of o < 2 ^ 32
word_of_small none h = omega arith
word_of_small (some q) h = omega (arith, h.first, h.second, h.third, h.fourth)

wanted_word_small : (o : Option ℕ) → WantedFits o → wanted_word o < 2 ^ 32
wanted_word_small none h = omega arith
wanted_word_small (some n) h = omega (arith, h)

announced_ip-word_of :
    (sender : Ip) (o : Option Quad)
    → AddressFits o
    → announced_ip (word_of o) sender ≡ address_or sender o
unfolding announced_ip
announced_ip-word_of sender none h = refl
announced_ip-word_of sender (some q) h =
    ground (arith, h.first, h.second, h.third, h.fourth, h.some_bit)

clamp_wanted-word :
    (limit : ℕ) (o : Option ℕ)
    → limit < 2 ^ 31
    → WantedFits o
    → clamp_wanted (pos limit) (int32_of (pos (wanted_word o))) ≡ pos (granted limit o)
unfolding clamp_wanted int32_of uint32_of
clamp_wanted-word limit none l h = ground arith
clamp_wanted-word limit (some n) l h = ground arith

fields_of-IsInRange : (m : Message) → Fits m → IsInRange (fields_of m)
fields_of-IsInRange m h = record {
  connection = h.connection;
  trans = h.trans;
  hash = h.hash;
  peer = h.peer;
  downloaded = omega (arith, h.downloaded);
  left = omega (arith, h.left);
  uploaded = omega (arith, h.uploaded);
  event_code = code_of_small m.event;
  override = word_of_small m.address h.address;
  wanted = wanted_word_small m.wanted h.wanted;
  port = h.port;
}

-- An announce that a client lays out by the table of BEP-15 has 98 bytes, and the server reads back
-- from it the connection, the action, the transaction, and what the client means by every field but
-- the key, which it does not read: the event, the address if one is given and else the sender's,
-- and the number of peers that is wanted, up to the server's limit. The fields fit: the numbers of
-- bytes are below 2^63, the address is not 0.0.0.0, what is wanted and the limit are below 2^31.
pub decode_announce-layout :
    (limit : ℕ) (sender : Ip) (m : Message)
    → limit < 2 ^ 31
    → Fits m
    → let packet = layout (fields_of m) in
      (length packet ≡ 98)
      × (get64 packet ≡ m.connection)
      × (get32 (drop 8 packet) ≡ 1)
      × (get32 (drop 12 packet) ≡ m.trans)
      × (decode_announce (pos limit) packet sender ≡ record {
        info_hash = m.hash;
        peer_id = m.peer;
        downloaded = pos m.downloaded;
        left = pos m.left;
        uploaded = pos m.uploaded;
        event = m.event;
        ip = address_or sender m.address;
        num_want = pos (granted limit m.wanted);
        port = m.port;
        corrupt = pos 0;
        compact = true;
      })
decode_announce-layout limit sender m l h =
    let (size, connection, action, trans, words) =
      decode_announce-words (fields_of m) (fields_of-IsInRange m h) (pos limit) sender in
    (
      size,
      connection,
      action,
      trans,
      words
          ∙ rw
              (
                int64_of_small m.downloaded h.downloaded,
                int64_of_small m.left h.left,
                int64_of_small m.uploaded h.uploaded,
                udp_event-code_of m.event,
                announced_ip-word_of sender m.address h.address,
                clamp_wanted-word limit m.wanted l h.wanted,
              )
              refl,
    )
