-- ===== src/Tracker/Reaper.antt =====
-- tracker/reaper.go: the eviction of the peers that have not announced for too long. The order in
-- which Go walks through a map does not matter here: each peer is tested by itself.
pub mod Eviction
use ocelot.Prelude.{
  ℕ, suc, ◌+◌, ◌-◌, ◌%◌, ◌^◌, ◌≤◌, ◌≡◌, refl, Bool, true, false, ◌&&◌, not, Option, none, some,
  List, [], ◌∷◌, length, if◌then◌else◌, ltb, list_eq, list_beq_iff, nat_eq, ◌==◌, arith, is_some,
  select, Bool-cases, inl, inr,
}
use ocelot.Prelude.Map.{
  Map, lookup, insert, delete, Distinct, one_more, none_left, delete_absent, lookup-delete,
  Distinct-delete, length-delete,
}
use ocelot.Tracker.Swarm.{Peer, PeerList, Torrent, u64}
use ocelot.Tracker.Announce.Handler.{Worker}

-- A peer of the zero time is not evicted.
unfoldable pub is_stale : ℕ → Peer → Bool
is_stale cutoff p = elim p.last_announced [ none ↦ false | some t ↦ ltb t cutoff ]

unfoldable pub dead_keys : ℕ → PeerList → List (List ℕ)
unfolding is_stale
dead_keys cutoff [] = []
dead_keys cutoff ((k, p) ∷ ps) =
    let rest = dead_keys cutoff ps in if is_stale cutoff p then k ∷ rest else rest

unfoldable pub delete_all : List (List ℕ) → PeerList → PeerList
delete_all [] ps = ps
delete_all (k ∷ ks) ps = delete_all ks (delete k ps)

-- The result also tells how many were dead.
unfoldable pub reap_peer_list : ℕ → PeerList → PeerList × ℕ
unfolding dead_keys delete_all
reap_peer_list cutoff ps = let dead = dead_keys cutoff ps in (delete_all dead ps, length dead)

unfoldable pub reap_torrent : ℕ → Torrent → Torrent × ℕ
unfolding reap_peer_list
reap_torrent cutoff t =
    let (ss, n) = reap_peer_list cutoff t.seeders in
    let (ls, m) = reap_peer_list cutoff t.leechers in
    (record t { seeders = ss; leechers = ls }, n + m)

unfoldable pub reap_all : ℕ → Map (List ℕ) Torrent → Map (List ℕ) Torrent × ℕ
unfolding reap_torrent
reap_all cutoff [] = ([], 0)
reap_all cutoff ((h, t) ∷ m) =
    let (u, n) = reap_torrent cutoff t in
    let (rest, k) = reap_all cutoff m in ((h, u) ∷ rest, n + k)

-- The reaper is given the torrents and the counters of the worker; it never runs without counters.
unfoldable pub reap : ℕ → ℕ → Worker → Worker
unfolding reap_all
reap now timeout w =
    let (m, n) = reap_all (now - timeout) w.torrents in
    record w {
      torrents = m;
      stats =
          if ltb 0 n
          then record w.stats { evicted_peers = u64 (w.stats.evicted_peers + n) }
          else w.stats;
    }
