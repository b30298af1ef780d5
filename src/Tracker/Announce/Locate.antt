-- ===== src/Tracker/Announce/Locate.antt =====
-- tracker/announce.go: the search for the announcing peer in the two lists of the torrent.
use ocelot.Prelude.{
  ℕ, Bool, true, false, ◌&&◌, none, some, List, if◌then◌else◌, is_some, list_eq, nat_eq,
}
use ocelot.Prelude.Int.{pos, ltb_ℤ, ℤ_beq}
use ocelot.Prelude.Map.{lookup, insert, delete}
use ocelot.Tracker.Swarm.{Peer, PeerList, Torrent, User, new_peer}
use ocelot.Tracker.Announce.Request.{
  AnnounceRequest, Side, seeding_side, leeching_side, Flags, no_flags, is_completed,
}

pub record Located : Type 0 where
  pub torrent : Torrent
  pub side : Side
  pub peer : Peer
  pub flags : Flags

-- The result also tells whether the peer is new.
unfoldable pub find_or_create_peer : PeerList → List ℕ → User → PeerList × Peer × Bool
find_or_create_peer ps key user = elim (lookup key ps) [
  | some p ↦ (ps, p, false)
  | none ↦ let p = new_peer user.id in (insert key p ps, p, true)
]

-- `req.Left > 0`
unfoldable pub locate_leecher : List ℕ → User → Torrent → Located
unfolding find_or_create_peer
locate_leecher key user t =
    let (ps, p, new) = find_or_create_peer t.leechers key user in
    record {
      torrent = record t { leechers = ps };
      side = leeching_side;
      peer = p;
      flags = record no_flags { inserted = new; inc_leechers = new };
    }

-- A download that has just ended.
unfoldable pub locate_completed : List ℕ → User → Torrent → Located
unfolding find_or_create_peer
locate_completed key user t = elim (lookup key t.leechers) [
  | some p ↦ record {
    torrent = t;
    side = leeching_side;
    peer = p;
    flags = record no_flags {
      completed_torrent = true;
      dec_seeders = is_some (lookup key t.seeders);
    };
  }
  | none ↦ elim (lookup key t.seeders) [
    | some p ↦ record { torrent = t; side = seeding_side; peer = p; flags = no_flags }
    | none ↦
        let (ps, p, new) = find_or_create_peer t.seeders key user in
        record {
          torrent = record t { seeders = ps };
          side = seeding_side;
          peer = p;
          flags = record no_flags { completed_torrent = true; inserted = new; inc_seeders = true };
        }
  ]
]

-- Any other announce of a complete copy.
unfoldable pub locate_seeder : List ℕ → User → Torrent → Located
unfolding find_or_create_peer
locate_seeder key user t = elim (lookup key t.seeders) [
  | some p ↦ record { torrent = t; side = seeding_side; peer = p; flags = no_flags }
  | none ↦ elim (lookup key t.leechers) [
    | some p ↦ record {
      torrent = record t { leechers = delete key t.leechers; seeders = insert key p t.seeders };
      side = seeding_side;
      peer = p;
      flags = record no_flags { moved = true; dec_leechers = true; inc_seeders = true };
    }
    | none ↦
        let (ps, p, new) = find_or_create_peer t.seeders key user in
        record {
          torrent = record t { seeders = ps };
          side = seeding_side;
          peer = p;
          flags = record no_flags { inserted = new; inc_seeders = true };
        }
  ]
]

unfoldable pub locate : AnnounceRequest → List ℕ → User → Torrent → Located
unfolding locate_leecher locate_completed locate_seeder
locate req key user t =
    if ltb_ℤ (pos 0) req.left
    then locate_leecher key user t
    else (if is_completed req.event && ℤ_beq req.left (pos 0)
        then locate_completed key user t
        else locate_seeder key user t)
