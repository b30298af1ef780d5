-- ===== src/Tracker/Announce/Counters.antt =====
-- The counters of seeders and leechers against the lists that they count (tracker/announce.go).
use ocelot.Prelude.{ℕ, ◌+◌, ◌≡◌, Bool, List, list_eq, list_beq_iff, nat_eq, arith}
use ocelot.Prelude.Int.{ℤ}
use ocelot.Prelude.Map.{insert, lookup-insert, Distinct-insert, Distinct-delete}
use ocelot.Tracker.Swarm.{Peer, Torrent, User, u32}
use ocelot.Tracker.Announce.Request.{AnnounceRequest, Flags}
use ocelot.Tracker.Announce.Locate.{Located, locate}
use ocelot.Tracker.Announce.Outcome.{
  count_user, flush, hold, conclude, promote, depart_flags, depart, count,
}
use ocelot.Tracker.Address.{peer_key_prime}
use ocelot.Tracker.Announce.Account.{account, effective_ip, finish_peer}
use ocelot.Tracker.Announce.Handler.{Env, serve}
use ocelot.Tracker.Announce.Sizes.{
  IsValid, Matches, IsFound, downloads, seeds, joins_complete, completes, one_if, is_held-insert,
  size-insert_new, size-insert_old, size-delete, locate-IsFound,
}

-- The torrent as the handler leaves it, but for its row.
abbrev finished : AnnounceRequest → List ℕ → User → Bool → ℤ → Peer → Located → Torrent × Flags
finished req key user expires balance p l =
    let held = hold l.side key p (record l.torrent { balance = balance }) in
    let (settled, flags) = conclude req key user expires l.flags held in
    (depart req key settled, flags)

finished-Matches :
    (req : AnnounceRequest) (key : List ℕ) (user : User) (expires : Bool) (balance : ℤ) (p : Peer)
    (t : Torrent) (l : Located)
    → IsValid t
    → IsFound req key t l
    → let (u, flags) = finished req key user expires balance p l in Matches flags t u
unfolding hold conclude promote depart_flags depart
finished-Matches req key user expires balance p t l v (downloads m c d s left on side) = rw side (
    ground (
      arith,
      m.still_valid.distinct_leechers,
      size-insert_old key p l.torrent.leechers,
      is_held-insert key p l.torrent.leechers,
      Distinct-insert key p l.torrent.leechers,
      Distinct-delete key (insert key p l.torrent.leechers),
      size-delete key (insert key p l.torrent.leechers),
    ))
finished-Matches req key user expires balance p t l v (seeds m c s left on side) = rw side (
    ground (
      arith,
      m.still_valid.distinct_seeders,
      size-insert_old key p l.torrent.seeders,
      is_held-insert key p l.torrent.seeders,
      Distinct-insert key p l.torrent.seeders,
      Distinct-delete key (insert key p l.torrent.seeders),
      size-delete key (insert key p l.torrent.seeders),
    ))
finished-Matches req key user expires balance p t l v (joins_complete m c i stop on side) =
    rw side (
      ground
        (arith, size-insert_old key p l.torrent.seeders, Distinct-insert key p l.torrent.seeders))
finished-Matches req key user expires balance p t l v (completes same flags stop on side) =
    rw (side, same, flags, stop)
      (ground (
        arith,
        lookup-insert key key p t.leechers,
        list_beq_iff key key,
        size-insert_old key p t.leechers,
        size-insert_old key p t.seeders,
        size-insert_new key p t.seeders,
        size-delete key (insert key p t.leechers),
        Distinct-insert key p t.leechers,
        Distinct-insert key p t.seeders,
        Distinct-delete key (insert key p t.leechers),
      ))

-- Up and down by the flags, modulo 2^32.
pub count_lem :
    (up down : Bool) (n before after : ℕ)
    → after + one_if down ≡ before + one_if up
    → u32 (count up down n + before) ≡ u32 (n + after)
unfolding count
count_lem up down n before after h = ground arith

pub serve-Matches :
    (env : Env) (req : AnnounceRequest) (user : User) (t : Torrent)
    → IsValid t
    → let s = serve env req user t in
      Matches s.flags t s.torrent × (s.user ≡ count_user s.flags user)
unfolding serve flush
serve-Matches env req user t v =
    let key = peer_key_prime req.peer_id user.id t.torrent_id in
    let l = locate req key user t in
    let a = account env.rate env.economy env.now req user l.torrent l.flags l.peer in
    let p =
      (finish_peer env.now req user (effective_ip req env.client_ip) l.flags.inserted a.peer).0 in
    let m =
      finished-Matches req key user a.expires a.balance p t l v (locate-IsFound req key user t v) in
    ground (arith, m)
