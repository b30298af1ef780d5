-- ===== src/Tracker/Udp.antt =====
-- tracker/udp.go: the tracker over UDP (BEP-15). A packet is handled whole before the next: the handlers
-- run in goroutines that share the table of connections under its lock, and the announces.
pub mod Packets
pub mod Messages
pub mod Connections
pub mod Scrapes
use ocelot.Prelude.{
  ℕ, ◌+◌, ◌-◌, ◌*◌, ◌/◌, ◌%◌, ◌^◌, Bool, true, false, ◌||◌, not, Option, none, some, List, [], ◌∷◌,
  ◌++◌, length, if◌then◌else◌, ltb, ◌==◌, nat_eq, list_eq, select, zero, suc,
}
use ocelot.Prelude.Int.{ℤ, pos, pos_part, neg_part, sub_ℕ, ltb_ℤ}
use ocelot.Prelude.Bytes.{codes, take, drop, slice, put32, put64, get16, get32, get64}
use ocelot.Prelude.Map.{Map, lookup, insert, delete}
use ocelot.Tracker.Address.{Ip, v4, ip_equal}
use ocelot.Tracker.Swarm.{User, Torrent}
use ocelot.Tracker.Announce.Request.{
  Event, started, completed, stopped, other_event, AnnounceRequest, AnnounceError, not_admitted,
  not_compact, invalid_peer_id, not_whitelisted, client_rejected, announce_rejected,
  unregistered_torrent, leeching_forbidden,
}
use ocelot.Tracker.Announce.Handler.{
  Env, Worker, AnnounceResponse, Announced, fails, responds, announce,
}

abbrev pub magic_connection_id : ℕ
magic_connection_id = 0x417_2710_1980

abbrev pub action_error : ℕ
action_error = 3

-- `udpConnIDTTL`, in nanoseconds.
abbrev pub conn_id_ttl : ℕ
conn_id_ttl = 120_000_000_000

pub record ConnRecord : Type 0 where
  pub ip : Ip
  pub expires : ℕ

abbrev pub ConnIds : Type 0
ConnIds = Map ℕ ConnRecord

-- `nobody` is the user under the empty passkey.
pub record UdpServer : Type 0 where
  pub conn_ids : ConnIds
  pub worker : Worker
  pub nobody : Option User

-- What a handler is given besides the packet: the environment of the announce with its clock, the next
-- random number, the bytes of the peers that are selected, and the detectors' reasons.
pub record Net : Type 0 where
  pub env : Env
  pub random : ℕ
  pub peers : Announced → List ℕ
  pub client_reason : List ℕ
  pub behavior_reason : List ℕ

-- The new state, and the packets that go back to the sender.
pub record Handled : Type 0 where
  pub server : UdpServer
  pub sent : List (List ℕ)

unfoldable pub is_live : ℕ → ℕ × ConnRecord → Bool
is_live now (id, rec) = not (ltb rec.expires now)

unfoldable pub evict_expired : ℕ → ConnIds → ConnIds
unfolding is_live
evict_expired now t = select (is_live now) t

unfoldable pub issue_conn_id : ℕ → ℕ → Ip → ConnIds → ConnIds
unfolding evict_expired
issue_conn_id id now ip t =
    evict_expired now (insert id (record { ip = ip; expires = now + conn_id_ttl }) t)

unfoldable pub validate_conn_id : ℕ → ℕ → Ip → ConnIds → ConnIds × Bool
unfolding ip_equal
validate_conn_id id now ip t = elim (lookup id t) [
  | none ↦ (t, false)
  | some rec ↦ if ltb rec.expires now then (delete id t, false) else (t, ip_equal rec.ip ip)
]

unfoldable pub send_error : ℕ → List ℕ → UdpServer → Handled
send_error trans msg s = record {
  server = s;
  sent = (put32 action_error ++ (put32 trans ++ msg)) ∷ [];
}

unfoldable pub handle_connect : Net → List ℕ → Ip → ℕ → UdpServer → Handled
unfolding issue_conn_id send_error
handle_connect net pkt ip trans s =
    if ltb (length pkt) 16
    then record { server = s; sent = [] }
    else (if not (get64 pkt == magic_connection_id)
        then send_error trans (codes "invalid connection id") s
        else record {
          server = record s { conn_ids = issue_conn_id net.random net.env.now ip s.conn_ids };
          sent = (put32 0 ++ (put32 trans ++ put64 net.random)) ∷ [];
        })

unfoldable pub udp_event : ℕ → Event
udp_event code =
    if code == 1
    then completed
    else (if code == 2 then started else (if code == 3 then stopped else other_event))

-- The conversions between the widths: `int64` and `int32` of a word, `int32` and `uint32` of an integer.
unfoldable pub int64_of : ℕ → ℤ
int64_of w = if ltb w (2 ^ 63) then pos w else sub_ℕ w (2 ^ 64)

unfoldable pub uint32_of : ℤ → ℕ
uint32_of n = (pos_part n + (2 ^ 32 - neg_part n % 2 ^ 32)) % 2 ^ 32

unfoldable pub int32_of : ℤ → ℤ
unfolding uint32_of
int32_of n = let w = uint32_of n in if ltb w (2 ^ 31) then pos w else sub_ℕ w (2 ^ 32)

-- The bytes of an override, or the sender's address.
unfoldable pub announced_ip : ℕ → Ip → Ip
announced_ip override ip =
    if override == 0
    then ip
    else v4 (override / 0x100_0000 % 256) (override / 0x1_0000 % 256) (override / 256 % 256)
        (override % 256)

unfoldable pub clamp_wanted : ℤ → ℤ → ℤ
unfolding int32_of
clamp_wanted limit n = if ltb_ℤ n (pos 0) || ltb_ℤ (int32_of limit) n then int32_of limit else n

-- The fields of an announce, of 98 bytes or more.
unfoldable pub decode_announce : ℤ → List ℕ → Ip → AnnounceRequest
unfolding int64_of int32_of udp_event announced_ip clamp_wanted
decode_announce limit pkt ip = record {
  info_hash = slice 16 20 pkt;
  peer_id = slice 36 20 pkt;
  downloaded = int64_of (get64 (drop 56 pkt));
  left = int64_of (get64 (drop 64 pkt));
  uploaded = int64_of (get64 (drop 72 pkt));
  event = udp_event (get32 (drop 80 pkt));
  ip = announced_ip (get32 (drop 84 pkt)) ip;
  num_want = clamp_wanted limit (int32_of (pos (get32 (drop 92 pkt))));
  port = get16 (drop 96 pkt);
  corrupt = pos 0;
  compact = true;
}

unfoldable pub error_text : Net → AnnounceError → List ℕ
error_text net not_admitted = codes "not admitted to swarm"
error_text net not_compact = codes "your client does not support compact announces"
error_text net invalid_peer_id = codes "invalid peer ID"
error_text net not_whitelisted = codes "your client is not on the whitelist"
error_text net client_rejected = codes "client rejected: " ++ net.client_reason
error_text net announce_rejected = codes "announce rejected: " ++ net.behavior_reason
error_text net unregistered_torrent = codes "unregistered torrent"
error_text net leeching_forbidden = codes "access denied, leeching forbidden"

-- The whole peers among the bytes, six to a peer.
unfoldable pub encode_response : ℕ → AnnounceResponse → List ℕ → List ℕ
unfolding uint32_of
encode_response trans r peers =
    put32 1
    ++ (put32 trans
        ++ (put32 (r.interval % 2 ^ 32)
            ++ (put32 (uint32_of r.incomplete)
                ++ (put32 (uint32_of r.complete) ++ take (length peers / 6 * 6) peers))))

unfoldable pub handle_announce : Net → List ℕ → Ip → ℕ → UdpServer → Handled
unfolding validate_conn_id send_error decode_announce error_text encode_response
handle_announce net pkt ip trans s =
    if ltb (length pkt) 98
    then send_error trans (codes "packet too short") s
    else let (ids, valid) = validate_conn_id (get64 pkt) net.env.now ip s.conn_ids in
      let u = record s { conn_ids = ids } in
      if not valid
      then send_error trans (codes "invalid or expired connection id") u
      else elim s.nobody [
        | none ↦ send_error trans (codes "passkey required for this tracker") u
        | some user ↦
            let req = decode_announce net.env.num_want_limit pkt ip in
            let a = announce (record net.env { client_ip = req.ip }) req user s.worker in
            let v = record u { worker = a.worker; nobody = some a.user } in
            elim a.answer [
              | fails e ↦ send_error trans (error_text net e) v
              | responds r ↦ record {
                server = v;
                sent = encode_response trans r (net.peers a) ∷ [];
              }
            ]
      ]

-- The three numbers of one torrent: seeders, completed downloads, leechers.
unfoldable pub scrape_one : Worker → List ℕ → List ℕ
scrape_one w hash = elim (lookup hash w.torrents) [
  | none ↦ put32 0 ++ (put32 0 ++ put32 0)
  | some t ↦
      put32 (length t.seeders % 2 ^ 32) ++ (put32 t.completed ++ put32 (length t.leechers % 2 ^ 32))
]

-- The loop over the hashes, of which `n` are left.
unfoldable pub scrape_all : Worker → ℕ → List ℕ → List ℕ
unfolding scrape_one
scrape_all w zero pkt = []
scrape_all w (suc n) pkt = scrape_one w (take 20 pkt) ++ scrape_all w n (drop 20 pkt)

unfoldable pub num_hashes : List ℕ → ℕ
num_hashes pkt = let n = (length pkt - 16) / 20 in if ltb 74 n then 74 else n

unfoldable pub handle_scrape : Net → List ℕ → Ip → ℕ → UdpServer → Handled
unfolding validate_conn_id send_error scrape_all num_hashes
handle_scrape net pkt ip trans s =
    if ltb (length pkt) 16
    then send_error trans (codes "packet too short") s
    else let (ids, valid) = validate_conn_id (get64 pkt) net.env.now ip s.conn_ids in
      let u = record s { conn_ids = ids } in
      if not valid then send_error trans (codes "invalid or expired connection id") u else record {
        server = u;
        sent =
            (put32 2 ++ (put32 trans ++ scrape_all s.worker (num_hashes pkt) (drop 16 pkt))) ∷ [];
      }

unfoldable pub handle : Net → List ℕ → Ip → UdpServer → Handled
unfolding handle_connect handle_announce handle_scrape
handle net pkt ip s =
    let action = get32 (drop 8 pkt) in
    let trans = get32 (drop 12 pkt) in
    if ltb (length pkt) 16
    then record { server = s; sent = [] }
    else (if action == 0
        then handle_connect net pkt ip trans s
        else (if action == 1
            then handle_announce net pkt ip trans s
            else (if action == 2
                then handle_scrape net pkt ip trans s
                else send_error trans (codes "unknown action") s)))
