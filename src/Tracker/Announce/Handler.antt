-- ===== src/Tracker/Announce/Handler.antt =====
-- tracker/announce.go: `Announce`, from the guards to the response. The peers of the response are
-- those that the selection picks, as many as are wanted: the response here holds that number.
use ocelot.Prelude.{
  ℕ, Bool, ◌&&◌, ◌||◌, not, Option, none, some, List, [], ◌++◌, length, if◌then◌else◌, ltb, ◌==◌,
  nat_eq, list_eq,
}
use ocelot.Prelude.Int.{ℤ, pos, ltb_ℤ}
use ocelot.Prelude.Map.{Map, lookup, insert}
use ocelot.Tracker.Address.{Ip, peer_key_prime}
use ocelot.Tracker.Swarm.{Torrent, User, Stats}
use ocelot.Tracker.Whitelist.{is_allowed}
use ocelot.Tracker.Announce.Request.{
  AnnounceRequest, AnnounceError, not_admitted, not_compact, invalid_peer_id, not_whitelisted,
  client_rejected, announce_rejected, unregistered_torrent, leeching_forbidden, Effect, Flags,
  is_stopped,
}
use ocelot.Tracker.Announce.Locate.{locate}
use ocelot.Tracker.Announce.Account.{account, effective_ip, finish_peer}
use ocelot.Tracker.Announce.Outcome.{
  hold, peer_effects, num_wanted, conclude, conclude_effects, count_user, count_stats, depart,
  flush, adaptive_interval, int32,
}

-- What the handler is given besides the request: the clock, the client's address, the settings, and
-- the answers of the admission policy and of the two detectors.
pub record Env : Type 0 where
  pub now : ℕ
  pub client_ip : Ip
  pub announce_interval : ℕ
  pub num_want_limit : ℤ
  pub economy : Bool  -- whether `Commons` is set
  pub rate : ℤ → ℕ → ℤ
  pub admitted : Bool
  pub client_flagged : Bool
  pub behavior_flagged : Bool

pub record Worker : Type 0 where
  pub torrents : Map (List ℕ) Torrent
  pub whitelist : List (List ℕ)
  pub stats : Stats

pub record AnnounceResponse : Type 0 where
  pub interval : ℕ
  pub min_interval : ℕ
  pub complete : ℤ
  pub incomplete : ℤ
  pub num_peers : ℤ
  pub warning : Bool

pub data Answer : Type 0 where
  fails : AnnounceError → Answer
  responds : AnnounceResponse → Answer

pub record Announced : Type 0 where
  pub worker : Worker
  pub user : User
  pub effects : List Effect
  pub answer : Answer

-- The checks before any state is touched.
unfoldable pub refuse : Env → AnnounceRequest → Worker → Option AnnounceError
refuse env req w =
    if not env.admitted
    then some not_admitted
    else (if not req.compact
        then some not_compact
        else (if not (length req.peer_id == 20)
            then some invalid_peer_id
            else (if not (is_allowed w.whitelist req.peer_id)
                then some not_whitelisted
                else (if env.client_flagged
                    then some client_rejected
                    else (if env.behavior_flagged then some announce_rejected else none)))))

pub record Served : Type 0 where
  pub torrent : Torrent
  pub user : User
  pub flags : Flags
  pub effects : List Effect
  pub warns : Bool
  pub wanted : ℤ

-- The announce of a peer of the torrent.
unfoldable pub serve : Env → AnnounceRequest → User → Torrent → Served
unfolding locate account effective_ip finish_peer hold peer_effects num_wanted conclude
    conclude_effects depart flush count_user
serve env req user t =
    let key = peer_key_prime req.peer_id user.id t.torrent_id in
    let found = locate req key user t in
    let a = account env.rate env.economy env.now req user found.torrent found.flags found.peer in
    let ip = effective_ip req env.client_ip in
    let (p, warns) = finish_peer env.now req user ip found.flags.inserted a.peer in
    let held = hold found.side key p (record found.torrent { balance = a.balance }) in
    let (settled, flags) = conclude req key user a.expires found.flags held in
    let snatches = not (is_stopped req.event) && found.flags.completed_torrent in
    let (flushed, rows) =
      flush env.now (a.update_torrent || snatches) (if snatches then 1 else 0)
        (depart req key settled) in
    record {
      torrent = flushed;
      user = count_user flags user;
      flags = flags;
      effects =
          a.effects
          ++ (peer_effects env.now req user t ip a p
              ++ (conclude_effects env.now req user t ip a.expires found.flags ++ rows));
      warns = warns;
      wanted = num_wanted env.num_want_limit req user found.flags.completed_torrent;
    }

unfoldable pub respond : Env → AnnounceRequest → Served → Answer
unfolding adaptive_interval int32
respond env req s =
    if not s.user.can_leech && ltb_ℤ (pos 0) req.left
    then fails leeching_forbidden
    else let adaptive =
        adaptive_interval (length s.torrent.seeders) (length s.torrent.leechers)
          env.announce_interval in
      responds (record {
        interval = if ltb adaptive env.announce_interval then env.announce_interval else adaptive;
        min_interval = env.announce_interval;
        complete = int32 (length s.torrent.seeders);
        incomplete = int32 (length s.torrent.leechers);
        num_peers = s.wanted;
        warning = s.warns;
      })

unfoldable pub announce : Env → AnnounceRequest → User → Worker → Announced
unfolding refuse serve respond count_stats
announce env req user w = elim (refuse env req w) [
  | some e ↦ record { worker = w; user = user; effects = []; answer = fails e }
  | none ↦ elim (lookup req.info_hash w.torrents) [
    | none ↦ record { worker = w; user = user; effects = []; answer = fails unregistered_torrent }
    | some t ↦
        let s = serve env req user t in
        record {
          worker = record w {
            torrents = insert req.info_hash s.torrent w.torrents;
            stats = count_stats s.flags w.stats;
          };
          user = s.user;
          effects = s.effects;
          answer = respond env req s;
        }
  ]
]
