-- ===== src/Tracker/Swarm.antt =====
-- tracker/types.go: peers, torrents, users and the counters. A moment is a number of nanoseconds, with
-- `none` for the zero time where the code tests for it; keys and hashes are lists of bytes.
use ocelot.Prelude.{ℕ, ◌%◌, ◌^◌, Bool, false, Option, none, List, []}
use ocelot.Prelude.Int.{ℤ, pos}
use ocelot.Prelude.Map.{Map}
use ocelot.Tracker.Address.{Ip, nil_ip}

abbrev pub u32 : ℕ → ℕ
u32 n = n % 2 ^ 32

abbrev pub u64 : ℕ → ℕ
u64 n = n % 2 ^ 64

-- A uint8, of which all but two values are treated as `normal`.
pub data FreeType : Type 0 where
  normal free neutral : FreeType

pub record Peer : Type 0 where
  pub user_id : ℕ
  pub uploaded : ℤ
  pub downloaded : ℤ
  pub corrupt : ℤ
  pub left : ℤ
  pub last_announced : Option ℕ
  pub first_announced : ℕ
  pub announces : ℕ  -- uint32
  pub port : ℕ
  pub ip : Ip
  pub ip_port : Option (List ℕ)
  pub visible : Bool
  pub invalid_ip : Bool

-- `&Peer{UserID: id}`
unfoldable pub new_peer : ℕ → Peer
new_peer id = record {
  user_id = id;
  uploaded = pos 0;
  downloaded = pos 0;
  corrupt = pos 0;
  left = pos 0;
  last_announced = none;
  first_announced = 0;
  announces = 0;
  port = 0;
  ip = nil_ip;
  ip_port = none;
  visible = false;
  invalid_ip = false;
}

abbrev pub PeerList : Type 0
PeerList = Map (List ℕ) Peer

pub record Torrent : Type 0 where
  pub torrent_id : ℕ
  pub completed : ℕ  -- uint32
  pub balance : ℤ
  pub free_type : FreeType
  pub last_flushed : ℕ
  pub seeders : PeerList
  pub leechers : PeerList
  pub tokened_users : List ℕ

unfoldable pub new_torrent : ℕ → Torrent
new_torrent id = record {
  torrent_id = id;
  completed = 0;
  balance = pos 0;
  free_type = normal;
  last_flushed = 0;
  seeders = [];
  leechers = [];
  tokened_users = [];
}

pub record User : Type 0 where
  pub id : ℕ
  pub can_leech : Bool
  pub protect_ip : Bool
  pub leeching : ℕ  -- uint32
  pub seeding : ℕ  -- uint32

-- The counters that an announce changes.
pub record Stats : Type 0 where
  pub stat_leechers : ℕ  -- uint32
  pub stat_seeders : ℕ  -- uint32
  pub evicted_peers : ℕ  -- uint64
  pub succ_announcements : ℕ  -- uint64
