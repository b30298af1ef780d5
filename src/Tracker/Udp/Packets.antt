-- ===== src/Tracker/Udp/Packets.antt =====
-- The layout of an announce in BEP-15, word for word. The client's side is made from the table of the
-- protocol, and the server does not look at `key`.
use ocelot.Prelude.{
  ℕ, ◌+◌, ◌^◌, ◌<◌, ◌≡◌, refl, ap, ◌∙◌, true, List, [], ◌++◌, length, length-append, arith,
}
use ocelot.Prelude.Int.{ℤ, pos}
use ocelot.Prelude.Bytes.{
  drop, slice, put16, put32, put64, get16, get32, get64, take_past, drop_past, drop_add,
  get16-put16, get32-put32, get64-put64,
}
use ocelot.Tracker.Address.{Ip}
use ocelot.Tracker.Udp.{int64_of, int32_of, udp_event, announced_ip, clamp_wanted, decode_announce}

-- The words of an announce.
pub record Fields : Type 0 where
  pub connection : ℕ
  pub trans : ℕ
  pub hash : List ℕ
  pub peer : List ℕ
  pub downloaded : ℕ
  pub left : ℕ
  pub uploaded : ℕ
  pub event_code : ℕ
  pub override : ℕ
  pub key : ℕ
  pub wanted : ℕ
  pub port : ℕ

pub record IsInRange (f : Fields) : Type 0 where
  pub connection : f.connection < 2 ^ 64
  pub trans : f.trans < 2 ^ 32
  pub hash : length f.hash ≡ 20
  pub peer : length f.peer ≡ 20
  pub downloaded : f.downloaded < 2 ^ 64
  pub left : f.left < 2 ^ 64
  pub uploaded : f.uploaded < 2 ^ 64
  pub event_code : f.event_code < 2 ^ 32
  pub override : f.override < 2 ^ 32
  pub wanted : f.wanted < 2 ^ 32
  pub port : f.port < 2 ^ 16

abbrev tail : Fields → List ℕ
tail f =
    put64 f.downloaded
    ++ (put64 f.left
        ++ (put64 f.uploaded
            ++ (put32 f.event_code
                ++ (put32 f.override ++ (put32 f.key ++ (put32 f.wanted ++ put16 f.port))))))

-- The table of BEP-15, from the top.
abbrev pub layout : Fields → List ℕ
layout f = put64 f.connection ++ (put32 1 ++ (put32 f.trans ++ (f.hash ++ (f.peer ++ tail f))))

module _ (f : Fields) (r : IsInRange f) where
  past_header : drop 16 (layout f) ≡ f.hash ++ (f.peer ++ tail f)
  unfolding drop put64 put32
  past_header = refl

  past_hash : drop 36 (layout f) ≡ f.peer ++ tail f
  past_hash = drop_add 16 20 (layout f) ∙ ap (drop 20) past_header ∙ drop_past f.hash _ r.hash

  past_peer : drop 56 (layout f) ≡ tail f
  past_peer = drop_add 36 20 (layout f) ∙ ap (drop 20) past_hash ∙ drop_past f.peer _ r.peer

  at_tail : (n : ℕ) → drop (56 + n) (layout f) ≡ drop n (tail f)
  at_tail n = drop_add 56 n (layout f) ∙ ap (drop n) past_peer

  read_downloaded : get64 (drop 56 (layout f)) ≡ f.downloaded
  unfolding drop put64 put32
  read_downloaded = ap get64 (at_tail 0) ∙ get64-put64 f.downloaded _ r.downloaded

  read_left : get64 (drop 64 (layout f)) ≡ f.left
  unfolding drop put64 put32
  read_left = ap get64 (at_tail 8) ∙ get64-put64 f.left _ r.left

  read_uploaded : get64 (drop 72 (layout f)) ≡ f.uploaded
  unfolding drop put64 put32
  read_uploaded = ap get64 (at_tail 16) ∙ get64-put64 f.uploaded _ r.uploaded

  read_event_code : get32 (drop 80 (layout f)) ≡ f.event_code
  unfolding drop put64 put32
  read_event_code = ap get32 (at_tail 24) ∙ get32-put32 f.event_code _ r.event_code

  read_override : get32 (drop 84 (layout f)) ≡ f.override
  unfolding drop put64 put32
  read_override = ap get32 (at_tail 28) ∙ get32-put32 f.override _ r.override

  read_wanted : get32 (drop 92 (layout f)) ≡ f.wanted
  unfolding drop put64 put32
  read_wanted = ap get32 (at_tail 36) ∙ get32-put32 f.wanted _ r.wanted

  read_port : get16 (drop 96 (layout f)) ≡ f.port
  unfolding drop put64 put32 put16
  read_port = ap get16 (at_tail 40) ∙ get16-put16 f.port [] r.port

  read_connection : get64 (layout f) ≡ f.connection
  read_connection = get64-put64 f.connection _ r.connection

  read_trans : get32 (drop 12 (layout f)) ≡ f.trans
  unfolding drop put64 put32
  read_trans = get32-put32 f.trans (f.hash ++ (f.peer ++ tail f)) r.trans

  -- The words of an announce of 98 bytes, as the server reads them.
  pub decode_announce-words :
      (limit : ℤ) (ip : Ip)
      → (length (layout f) ≡ 98)
        × (get64 (layout f) ≡ f.connection)
        × (get32 (drop 8 (layout f)) ≡ 1)
        × (get32 (drop 12 (layout f)) ≡ f.trans)
        × (decode_announce limit (layout f) ip ≡ record {
          info_hash = f.hash;
          peer_id = f.peer;
          downloaded = int64_of f.downloaded;
          left = int64_of f.left;
          uploaded = int64_of f.uploaded;
          event = udp_event f.event_code;
          ip = announced_ip f.override ip;
          num_want = clamp_wanted limit (int32_of (pos f.wanted));
          port = f.port;
          corrupt = pos 0;
          compact = true;
        })
  unfolding decode_announce drop put64 put32 put16 get32 slice
  decode_announce-words limit ip = (
    omega (
      arith,
      length-append f.hash (f.peer ++ tail f),
      length-append f.peer (tail f),
      r.hash,
      r.peer,
    ),
    read_connection,
    refl,
    read_trans,
    rw
        (
          read_downloaded,
          read_left,
          read_uploaded,
          read_event_code,
          read_override,
          read_wanted,
          read_port,
          past_header,
          past_hash,
          take_past f.hash (f.peer ++ tail f) r.hash,
          take_past f.peer (tail f) r.peer,
        )
        refl,
  )
