-- ===== src/Tracker/Announce/Outcome.antt =====
-- tracker/announce.go: what follows the first critical section, up to the response; and
-- AdaptiveInterval of tracker/optimize.go.
use ocelot.Prelude.{
  ℕ, ◌+◌, ◌-◌, ◌/◌, ◌%◌, ◌^◌, Bool, true, ◌&&◌, ◌||◌, not, Option, none, some, List, [], ◌∷◌,
  length, if◌then◌else◌, ltb, ◌==◌, nat_eq, list_eq,
}
use ocelot.Prelude.Int.{ℤ, pos, ltb_ℤ, leb_ℤ, sub_ℕ}
use ocelot.Prelude.Map.{lookup, insert, delete}
use ocelot.Tracker.Address.{Ip}
use ocelot.Tracker.Swarm.{Peer, Torrent, User, Stats, u32, u64}
use ocelot.Tracker.Announce.Request.{
  AnnounceRequest, Effect, record_peer, record_peer_light, record_snatch, expire_token,
  record_torrent, Side, seeding_side, leeching_side, Flags, is_stopped,
}
use ocelot.Tracker.Announce.Account.{Accounted}

-- The change to the peer's object, in the list that holds it.
unfoldable pub hold : Side → List ℕ → Peer → Torrent → Torrent
hold seeding_side key p t = record t { seeders = insert key p t.seeders }
hold leeching_side key p t = record t { leechers = insert key p t.leechers }

-- `uint32(now.Sub(first).Seconds())`
abbrev announce_time : ℕ → Peer → ℕ
announce_time now p = u32 ((now - p.first_announced) / 1_000_000_000)

abbrev shown_ip : User → Ip → Option Ip
shown_ip user ip = if user.protect_ip then none else some ip

unfoldable pub peer_effects :
    ℕ → AnnounceRequest → User → Torrent → Ip → Accounted → Peer → List Effect
peer_effects now req user t ip a p =
    if a.peer_changed
    then record_peer user.id t.torrent_id (if is_stopped req.event then 0 else 1) req.uploaded
        req.downloaded a.up_speed a.down_speed req.left req.corrupt (announce_time now p)
        p.announces (shown_ip user ip) req.peer_id p.invalid_ip
      ∷ []
    else record_peer_light user.id t.torrent_id (announce_time now p) p.announces req.peer_id ∷ []

-- The number of peers wanted, within the limit; it is no more than the limit's int32.
unfoldable pub clamp_num_want : ℤ → ℤ → ℤ
clamp_num_want limit n = if leb_ℤ n (pos 0) then limit else (if ltb_ℤ limit n then limit else n)

-- The three ways on: of a peer that stops, of one that has completed, and of the others.
unfoldable pub num_wanted : ℤ → AnnounceRequest → User → Bool → ℤ
unfolding clamp_num_want
num_wanted limit req user completed =
    if is_stopped req.event
    then pos 0
    else (if not completed && (not user.can_leech && ltb_ℤ (pos 0) req.left)
        then pos 0
        else clamp_num_want limit req.num_want)

unfoldable pub remove_user : ℕ → List ℕ → List ℕ
remove_user id [] = []
remove_user id (u ∷ us) = let rest = remove_user id us in if u == id then rest else u ∷ rest

-- The move of a completed peer from one list to the other, with its flags.
unfoldable pub promote : List ℕ → Flags → Torrent → Torrent × Flags
promote key f t = if f.inserted then (t, f) else elim (lookup key t.leechers) [
  | none ↦ (t, f)
  | some p ↦ (
    record t { seeders = insert key p t.seeders; leechers = delete key t.leechers },
    record f { dec_leechers = true; inc_seeders = true },
  )
]

abbrev spend_token : Bool → User → Torrent → Torrent
spend_token expires user t =
    if expires then record t { tokened_users = remove_user user.id t.tokened_users } else t

unfoldable pub depart_flags : AnnounceRequest → Flags → Flags
depart_flags req f =
    if ltb_ℤ (pos 0) req.left
    then record f { dec_leechers = true }
    else record f { dec_seeders = true }

unfoldable pub conclude : AnnounceRequest → List ℕ → User → Bool → Flags → Torrent → Torrent × Flags
unfolding promote remove_user depart_flags
conclude req key user expires f t =
    if is_stopped req.event
    then (t, depart_flags req f)
    else (if f.completed_torrent
        then (let (t', f') = promote key f (record t { completed = u32 (t.completed + 1) }) in
            (spend_token expires user t', f'))
        else (t, f))

unfoldable pub conclude_effects :
    ℕ → AnnounceRequest → User → Torrent → Ip → Bool → Flags → List Effect
conclude_effects now req user t ip expires f =
    if not (is_stopped req.event) && f.completed_torrent
    then record_snatch user.id t.torrent_id now (shown_ip user ip)
      ∷ (if expires then expire_token t.torrent_id user.id ∷ [] else [])
    else []

-- `Add(1)` and `Add(^uint32(0))`
unfoldable pub count : Bool → Bool → ℕ → ℕ
count up down n =
    let added = if up then u32 (n + 1) else n in if down then u32 (added + (2 ^ 32 - 1)) else added

unfoldable pub count_user : Flags → User → User
unfolding count
count_user f user = record user {
  leeching = count f.inc_leechers f.dec_leechers user.leeching;
  seeding = count f.inc_seeders f.dec_seeders user.seeding;
}

unfoldable pub count_stats : Flags → Stats → Stats
unfolding count
count_stats f s = record s {
  stat_leechers = count f.inc_leechers f.dec_leechers s.stat_leechers;
  stat_seeders = count f.inc_seeders f.dec_seeders s.stat_seeders;
  succ_announcements = u64 (s.succ_announcements + 1);
}

unfoldable pub depart : AnnounceRequest → List ℕ → Torrent → Torrent
depart req key t =
    if is_stopped req.event
    then (if ltb_ℤ (pos 0) req.left
        then record t { leechers = delete key t.leechers }
        else record t { seeders = delete key t.seeders })
    else t

-- The torrent's row is written when something has changed, or an hour has passed.
unfoldable pub flush : ℕ → Bool → ℕ → Torrent → Torrent × List Effect
flush now changed snatched t =
    if changed || ltb 3_600_000_000_000 (now - t.last_flushed)
    then (
      record t { last_flushed = now },
      record_torrent t.torrent_id (u32 (length t.seeders)) (u32 (length t.leechers)) snatched
            t.balance
          ∷ [],
    )
    else (t, [])

-- The base interval is not used.
unfoldable pub adaptive_interval : ℕ → ℕ → ℕ → ℕ
adaptive_interval seeders leechers base =
    if ltb (seeders + leechers) 10
    then 600
    else (if ltb (seeders + leechers) 100 then 1200 else 2400)

-- The int32 of a count.
unfoldable pub int32 : ℕ → ℤ
int32 n = let m = n % 2 ^ 32 in if ltb m (2 ^ 31) then pos m else sub_ℕ m (2 ^ 32)
