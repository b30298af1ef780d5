-- ===== src/Tracker/Announce/Limits.antt =====
-- The bounds on what an announce is answered, and how long a bad address lasts (tracker/announce.go).
use ocelot.Prelude.{
  ℕ, ◌+◌, ◌≤◌, ◌≡◌, refl, ◌≢◌, Bool, true, false, ◌&&◌, not, length, arith, Bool-cases, inl, inr,
  ◌⊎◌, list_eq, nat_eq, if◌then◌else◌, ltb,
}
use ocelot.Prelude.Int.{ℤ, pos, ◌≤ℤ◌, ◌<ℤ◌, ltb_ℤ}
use ocelot.Tracker.Address.{Ip}
use ocelot.Tracker.Swarm.{Peer, User}
use ocelot.Tracker.Announce.Request.{AnnounceRequest, leeching_forbidden, is_stopped}
use ocelot.Tracker.Announce.Account.{finish_peer, set_address, peer_is_visible}
use ocelot.Tracker.Announce.Outcome.{clamp_num_want, num_wanted, adaptive_interval, int32}
use ocelot.Tracker.Announce.Handler.{Env, Served, respond, fails, responds, AnnounceResponse}

-- Whatever the number that a client asks for, it is given peers up to the limit only, none when it stops
-- and none when it may not leech but would; the numbers below one ask for as many as the limit.
pub num_wanted-bounds :
    (limit : ℤ) (req : AnnounceRequest) (user : User) (completed : Bool)
    → pos 0 ≤ℤ limit
    → let n = num_wanted limit req user completed in
      (pos 0 ≤ℤ n)
      × (n ≤ℤ limit)
      × (is_stopped req.event ≡ true → n ≡ pos 0)
      × (completed ≡ false → user.can_leech ≡ false → pos 0 <ℤ req.left → n ≡ pos 0)
      × (n ≢ pos 0 → (n ≡ limit) ⊎ (n ≡ req.num_want))
unfolding num_wanted clamp_num_want
num_wanted-bounds limit req user completed h = ground arith

-- The interval that a client is told is never below the configured one, which is the least it is told;
-- where the configured one is at least 40 minutes, the swarm's size has no influence on it.
pub respond-interval :
    (env : Env) (req : AnnounceRequest) (s : Served)
    → ((respond env req s ≡ fails leeching_forbidden)
        × (s.user.can_leech ≡ false)
        × (pos 0 <ℤ req.left))
      ⊎ ((r : AnnounceResponse) × (respond env req s ≡ responds r)
          × (env.announce_interval ≤ r.interval)
          × (r.min_interval ≡ env.announce_interval)
          × (2400 ≤ env.announce_interval → r.interval ≡ env.announce_interval)
          × (r.interval ≤ env.announce_interval + 2400))
unfolding respond adaptive_interval
respond-interval env req s =
    let seeders = length s.torrent.seeders in
    let leechers = length s.torrent.leechers in
    let adaptive = adaptive_interval seeders leechers env.announce_interval in
    elim (Bool-cases (not s.user.can_leech && ltb_ℤ (pos 0) req.left)) [
      | inl h ↦ inl (rw (h, respond) refl, ground arith, ground arith)
      | inr h ↦ inr (
        record {
          interval = if ltb adaptive env.announce_interval then env.announce_interval else adaptive;
          min_interval = env.announce_interval;
          complete = int32 seeders;
          incomplete = int32 leechers;
          num_peers = s.wanted;
          warning = s.warns;
        },
        rw (h, respond) refl,
        ground arith,
        refl,
        ground arith,
        ground arith,
      )
    ]

-- A peer that has once announced from an address that is refused stays invisible to the others through
-- every later announce as the same peer, from an address that is accepted too.
pub invalid_ip_stays :
    (now : ℕ) (req : AnnounceRequest) (user : User) (ip : Ip) (inserted : Bool) (p : Peer)
    → p.invalid_ip ≡ true
    → ((finish_peer now req user ip inserted p).0.invalid_ip ≡ true)
      × ((finish_peer now req user ip inserted p).0.visible ≡ false)
unfolding finish_peer set_address peer_is_visible
invalid_ip_stays now req user ip inserted p h = ground arith
