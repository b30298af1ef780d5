-- ===== src/Tests/Tracker/Udp.antt =====
-- Packets over UDP.
use ocelot.Prelude.{
  some, ℕ, ◌+◌, ◌*◌, ◌≤◌, ◌<◌, ◌≡◌, refl, true, false, none, List, [], ◌∷◌, ◌++◌, length, Any, ◌⊎◌,
  arith,
}
use ocelot.Prelude.Bytes.{get64, get32, drop, take, slice, put32, put64}
use ocelot.Prelude.Int.{pos}
use ocelot.Prelude.Map.{lookup}
use ocelot.Tracker.Address.{v4, nil_ip}
use ocelot.Tracker.Announce.Request.{completed}
use ocelot.Tracker.Announce.Handler.{Env, Worker}
use ocelot.Tracker.Swarm.{new_torrent}
use ocelot.Tracker.Udp.{UdpServer, Net, validate_conn_id, scrape_one, handle, decode_announce}
use ocelot.Tracker.Udp.Connections.{Arrival, run, Connects, IsRefused, served_needs_connection}
use ocelot.Tracker.Udp.Packets.{layout}
use ocelot.Tracker.Udp.Messages.{Message, Fits, fields_of, decode_announce-layout}
use ocelot.Tracker.Udp.Scrapes.{handle_scrape_lem}

abbrev hash : List ℕ
hash = 1 ∷ 2 ∷ 3 ∷ 4 ∷ 5 ∷ 6 ∷ 7 ∷ 8 ∷ 9 ∷ 10 ∷ 11 ∷ 12 ∷ 13 ∷ 14 ∷ 15 ∷ 16 ∷ 17 ∷ 18 ∷ 19 ∷ 20 ∷ []

abbrev message : Message
message = record {
  connection = 77;
  trans = 9;
  hash = hash;
  peer = hash;
  downloaded = 30;
  left = 70;
  uploaded = 10;
  event = completed;
  address = some (record { first = 80; second = 1; third = 2; fourth = 3 });
  key = 5;
  wanted = some 80;
  port = 6881;
}

message-Fits : Fits message
message-Fits = record {
  connection = omega arith;
  trans = omega arith;
  hash = refl;
  peer = refl;
  downloaded = omega arith;
  left = omega arith;
  uploaded = omega arith;
  address = record {
    first = omega arith;
    second = omega arith;
    third = omega arith;
    fourth = omega arith;
    some_bit = omega arith;
  };
  wanted = omega arith;
  port = omega arith;
}

decode_announce-layout_example :
    (length (layout (fields_of message)) ≡ 98)
    × (get64 (layout (fields_of message)) ≡ 77)
    × (get32 (drop 8 (layout (fields_of message))) ≡ 1)
    × (get32 (drop 12 (layout (fields_of message))) ≡ 9)
    × (decode_announce (pos 50) (layout (fields_of message)) (v4 9 9 9 9) ≡ record {
      info_hash = hash;
      peer_id = hash;
      downloaded = pos 30;
      left = pos 70;
      uploaded = pos 10;
      event = completed;
      ip = v4 80 1 2 3;
      num_want = pos 50;
      port = 6881;
      corrupt = pos 0;
      compact = true;
    })
decode_announce-layout_example =
    decode_announce-layout 50 (v4 9 9 9 9) message (omega arith) message-Fits

abbrev env : Env
env = record {
  now = 1_000_000_000;
  client_ip = nil_ip;
  announce_interval = 1800;
  num_want_limit = pos 50;
  economy = false;
  rate = λ bytes time. pos 0;
  admitted = true;
  client_flagged = false;
  behavior_flagged = false;
}

abbrev net : Net
net = record { env = env; random = 77; peers = λ a. []; client_reason = []; behavior_reason = [] }

abbrev worker : Worker
worker = record {
  torrents = (hash, new_torrent 1) ∷ [];
  whitelist = [];
  stats = record { stat_leechers = 0; stat_seeders = 0; evicted_peers = 0; succ_announcements = 0 };
}

abbrev server : UdpServer
server = record { conn_ids = []; worker = worker; nobody = none }

abbrev connect : List ℕ
connect = put64 0x417_2710_1980 ++ (put32 0 ++ put32 9)

abbrev scrape : List ℕ
scrape = put64 77 ++ (put32 2 ++ (put32 9 ++ hash))

abbrev arrives : List ℕ → Arrival
arrives pkt = record { net = net; packet = pkt; from = v4 80 1 2 3 }

served_needs_connection_example :
    Any (Connects (arrives scrape)) (arrives connect ∷ [])
    ⊎ (((handle net scrape (v4 80 1 2 3) (run (arrives connect ∷ []) server)).server.worker
          ≡ (run (arrives connect ∷ []) server).worker)
        × ((handle net scrape (v4 80 1 2 3) (run (arrives connect ∷ []) server)).server.nobody
            ≡ (run (arrives connect ∷ []) server).nobody)
        × (16 ≤ length scrape
            → (get32 (drop 8 scrape) ≡ 1) ⊎ (get32 (drop 8 scrape) ≡ 2)
            → IsRefused
                (arrives scrape)
                (handle net scrape (v4 80 1 2 3) (run (arrives connect ∷ []) server)).sent))
served_needs_connection_example =
    served_needs_connection (arrives connect ∷ []) (arrives scrape) server refl

-- A server that has issued the connection.
abbrev connected : UdpServer
connected = record server {
  conn_ids = (77, record { ip = v4 80 1 2 3; expires = 120_000_000_000 }) ∷ [];
}

handle_scrape_lem_example :
    (b : List ℕ) × ((handle net scrape (v4 80 1 2 3) connected).sent ≡ b ∷ [])
    × (length b ≡ 20)
    × (take 8 b ≡ put32 2 ++ put32 9)
    × ((i : ℕ)
        → i < 1
        → slice (8 + 12 * i) 12 b ≡ scrape_one worker (slice (16 + 20 * i) 20 scrape))
    × ((handle net scrape (v4 80 1 2 3) connected).server.worker ≡ worker)
unfolding drop put32 put64 get32 get64 lookup validate_conn_id
handle_scrape_lem_example =
    handle_scrape_lem net scrape (v4 80 1 2 3) connected (omega arith) refl refl
