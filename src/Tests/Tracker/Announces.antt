-- ===== src/Tests/Tracker/Announces.antt =====
-- One announce after another, and a reaping.
use ocelot.Prelude.{
  ℕ, ◌+◌, ◌^◌, ◌<◌, ◌≡◌, refl, true, false, none, some, List, [], ◌∷◌, arith, length, any, list_eq,
  nat_eq,
}
use ocelot.Prelude.Int.{pos, ◌-ℤ◌, i64}
use ocelot.Prelude.Map.{Map, lookup, Distinct, none_left, one_more}
use ocelot.Tracker.Address.{v4, nil_ip}
use ocelot.Tracker.Swarm.{Peer, Torrent, User, new_torrent, u32, normal}
use ocelot.Tracker.Announce.Request.{AnnounceRequest, started, completed, other_event}
use ocelot.Tracker.Announce.Account.{account_progress}
use ocelot.Tracker.Announce.Charges.{
  charged, account_progress-charges, counts_upload, counts_download, is_tokened,
}
use ocelot.Tracker.Announce.Handler.{Env, Worker, announce}
use ocelot.Tracker.Announce.Sizes.{IsValid}
use ocelot.Tracker.Announce.Totals.{
  IsCounted, left_behind, announce_counts, run, run-IsCounted, Call, sum_of,
}
use ocelot.Tracker.Reaper.{reap, is_stale}
use ocelot.Tracker.Reaper.Eviction.{reap_drifts, num_peers, num_stale_peers, num_stale}

abbrev peer_id : List ℕ
peer_id =
    45 ∷ 81 ∷ 66 ∷ 52 ∷ 49 ∷ 50 ∷ 48 ∷ 45 ∷ 1 ∷ 2 ∷ 3 ∷ 4 ∷ 5 ∷ 6 ∷ 7 ∷ 8 ∷ 9 ∷ 10 ∷ 11 ∷ 12 ∷ []

abbrev env : Env
env = record {
  now = 1_000_000_000;
  client_ip = v4 80 1 2 3;
  announce_interval = 1800;
  num_want_limit = pos 50;
  economy = false;
  rate = λ bytes time. pos 0;
  admitted = true;
  client_flagged = false;
  behavior_flagged = false;
}

abbrev request : AnnounceRequest
request = record {
  info_hash = 7 ∷ [];
  peer_id = peer_id;
  port = 6881;
  uploaded = pos 10;
  downloaded = pos 30;
  left = pos 70;
  corrupt = pos 0;
  compact = true;
  event = started;
  ip = nil_ip;
  num_want = pos 80;
}

abbrev user : User
user = record { id = 3; can_leech = true; protect_ip = false; leeching = 0; seeding = 0 }

abbrev worker : Worker
worker = record {
  torrents = (7 ∷ [], new_torrent 1) ∷ [];
  whitelist = [];
  stats = record { stat_leechers = 0; stat_seeders = 0; evicted_peers = 0; succ_announcements = 0 };
}

new_torrent-IsValid : IsValid (new_torrent 1)
unfolding new_torrent
new_torrent-IsValid = record { distinct_seeders = none_left; distinct_leechers = none_left }

announce_counts_example :
    (u : Torrent) × (left_behind env request user worker ≡ some u)
    × IsValid u
    × (u32 ((announce env request user worker).worker.stats.stat_leechers + 0)
        ≡ u32 (0 + length u.leechers))
    × (u32 ((announce env request user worker).worker.stats.stat_seeders + 0)
        ≡ u32 (0 + length u.seeders))
    × (u32 ((announce env request user worker).user.leeching + 0) ≡ u32 (0 + length u.leechers))
    × (u32 ((announce env request user worker).user.seeding + 0) ≡ u32 (0 + length u.seeders))
unfolding lookup new_torrent
announce_counts_example =
    announce_counts env request user worker (new_torrent 1) refl new_torrent-IsValid

worker-IsCounted : IsCounted worker
unfolding lookup sum_of new_torrent
worker-IsCounted = record {
  lists_valid = λ h t e. ground (arith, e, new_torrent-IsValid);
  leechers_counted = refl;
  seeders_counted = refl;
}

abbrev calls : List Call
calls = (env, request, user) ∷ (env, record request { event = completed; left = pos 0 }, user) ∷ []

run-IsCounted_example : IsCounted (run calls worker)
run-IsCounted_example = run-IsCounted calls worker worker-IsCounted

abbrev peer : Peer
peer = record {
  user_id = 3;
  uploaded = pos 10;
  downloaded = pos 30;
  corrupt = pos 0;
  left = pos 70;
  last_announced = some 5;
  first_announced = 5;
  announces = 1;
  port = 6881;
  ip = v4 80 1 2 3;
  ip_port = none;
  visible = true;
  invalid_ip = false;
}

abbrev later : AnnounceRequest
later = record request { event = other_event; uploaded = pos 15; downloaded = pos 90 }

account_progress-charges_example :
    charged 3 (account_progress env.rate true 9 later user (new_torrent 1) false peer).effects
    ≡ (pos 5, pos 60)
unfolding new_torrent counts_upload counts_download is_tokened i64 ◌-ℤ◌ any
account_progress-charges_example =
    account_progress-charges env.rate true 9 later user (new_torrent 1) false peer (pos 5) (pos 60)
      3 refl refl (omega arith) (omega arith)

abbrev hidden : Peer
hidden = record peer { invalid_ip = true }

abbrev swarm : Map (List ℕ) Peer
swarm = (1 ∷ [], peer) ∷ (2 ∷ [], record peer { last_announced = some 90 }) ∷ []

swarm-Distinct : Distinct swarm
unfolding lookup
swarm-Distinct = one_more refl (one_more refl none_left)

abbrev torrent : Torrent
torrent = record {
  torrent_id = 1;
  completed = 0;
  balance = pos 0;
  free_type = normal;
  last_flushed = 0;
  seeders = [];
  leechers = swarm;
  tokened_users = [];
}

abbrev crowded : Worker
crowded = record {
  torrents = (7 ∷ [], torrent) ∷ [];
  whitelist = [];
  stats = record { stat_leechers = 2; stat_seeders = 0; evicted_peers = 4; succ_announcements = 2 };
}

torrent-IsValid : IsValid torrent
torrent-IsValid = record { distinct_seeders = none_left; distinct_leechers = swarm-Distinct }

crowded-IsCounted : IsCounted crowded
unfolding lookup sum_of
crowded-IsCounted = record {
  lists_valid = λ h t e. ground (arith, e, torrent-IsValid);
  leechers_counted = refl;
  seeders_counted = refl;
}

reap_drifts_example :
    (num_peers (reap 150 100 crowded).torrents + 1 ≡ 2)
    × ((reap 150 100 crowded).stats ≡ record crowded.stats { evicted_peers = 5 })
    × (0 < 1 → 1 < 2 ^ 32 → ¬ IsCounted (reap 150 100 crowded))
unfolding num_peers num_stale_peers num_stale is_stale
reap_drifts_example = reap_drifts 150 100 crowded (torrent-IsValid, tt) crowded-IsCounted
