-- ===== src/Tracker/Announce/Totals.antt =====
-- The tracker's totals over any history of announces (tracker/announce.go).
use ocelot.Prelude.{
  ℕ, ◌+◌, ◌≡◌, refl, Option, none, some, List, [], ◌∷◌, length, list_eq, list_beq_iff, nat_eq,
  arith, Option-cases, inl, inr, ◌⊎◌,
}
use ocelot.Prelude.Map.{Map, lookup, insert, lookup-insert}
use ocelot.Tracker.Swarm.{Torrent, User, u32}
use ocelot.Tracker.Announce.Request.{AnnounceRequest}
use ocelot.Tracker.Announce.Handler.{Env, Worker, serve, announce, refuse}
use ocelot.Tracker.Announce.Outcome.{count_user, count_stats}
use ocelot.Tracker.Announce.Sizes.{IsValid}
use ocelot.Tracker.Announce.Counters.{serve-Matches, count_lem}

-- The torrent that the announce is about, as the announce leaves it.
unfoldable pub left_behind : Env → AnnounceRequest → User → Worker → Option Torrent
left_behind env req user w = lookup req.info_hash (announce env req user w).worker.torrents

announce_served :
    (env : Env) (req : AnnounceRequest) (user : User) (w : Worker) (t : Torrent)
    → lookup req.info_hash w.torrents ≡ some t
    → (((announce env req user w).worker ≡ w) × ((announce env req user w).user ≡ user))
      ⊎ (let s = serve env req user t in
          ((announce env req user w).worker ≡ record w {
            torrents = insert req.info_hash s.torrent w.torrents;
            stats = count_stats s.flags w.stats;
          })
          × ((announce env req user w).user ≡ s.user))
unfolding announce
announce_served env req user w t h = elim (Option-cases (refuse env req w)) [
  | inr (e, r) ↦ inl (rw (r, announce) (refl, refl))
  | inl r ↦ inr (rw (r, h, announce) (refl, refl))
]

-- An announce for a torrent whose lists hold no peer twice, whatever it says and however it is answered,
-- the error that leeching is forbidden included: the changes of the tracker's and of the user's
-- counters of leechers and seeders are, modulo 2^32, the changes of the sizes of the torrent's lists,
-- which hold no peer twice afterwards.
pub announce_counts :
    (env : Env) (req : AnnounceRequest) (user : User) (w : Worker) (t : Torrent)
    → lookup req.info_hash w.torrents ≡ some t
    → IsValid t
    → let r = announce env req user w in
      (u : Torrent) × (left_behind env req user w ≡ some u)
      × IsValid u
      × (u32 (r.worker.stats.stat_leechers + length t.leechers)
          ≡ u32 (w.stats.stat_leechers + length u.leechers))
      × (u32 (r.worker.stats.stat_seeders + length t.seeders)
          ≡ u32 (w.stats.stat_seeders + length u.seeders))
      × (u32 (r.user.leeching + length t.leechers) ≡ u32 (user.leeching + length u.leechers))
      × (u32 (r.user.seeding + length t.seeders) ≡ u32 (user.seeding + length u.seeders))
unfolding left_behind count_user count_stats
announce_counts env req user w t h v = elim (announce_served env req user w t h) [
  | inl (same, whose) ↦ rw (same, whose) (t, h, v, refl, refl, refl, refl)
  | inr (now, whose) ↦
      let s = serve env req user t in
      let (m, counted) = serve-Matches env req user t v in
      rw (now, whose, counted)
        (
          s.torrent,
          ground (
            arith,
            lookup-insert req.info_hash req.info_hash s.torrent w.torrents,
            list_beq_iff req.info_hash req.info_hash,
          ),
          m.still_valid,
          count_lem s.flags.inc_leechers s.flags.dec_leechers w.stats.stat_leechers _ _
              m.same_leechers,
          count_lem s.flags.inc_seeders s.flags.dec_seeders w.stats.stat_seeders _ _ m.same_seeders,
          count_lem s.flags.inc_leechers s.flags.dec_leechers user.leeching _ _ m.same_leechers,
          count_lem s.flags.inc_seeders s.flags.dec_seeders user.seeding _ _ m.same_seeders,
        )
]

unfoldable pub sum_of : (Torrent → ℕ) → Map (List ℕ) Torrent → ℕ
sum_of f [] = 0
sum_of f ((h, t) ∷ m) = f t + sum_of f m

sum_of-insert :
    (f : Torrent → ℕ) (h : List ℕ) (t u : Torrent) (m : Map (List ℕ) Torrent)
    → lookup h m ≡ some t
    → sum_of f (insert h u m) + f t ≡ sum_of f m + f u
unfolding sum_of insert lookup
sum_of-insert f h t u [] e = cc
sum_of-insert f h t u ((j, v) ∷ m) e = ground (arith, sum_of-insert f h t u m)

abbrev num_leechers : Torrent → ℕ
num_leechers t = length t.leechers

abbrev num_seeders : Torrent → ℕ
num_seeders t = length t.seeders

-- The tracker's two counters are, modulo 2^32, the numbers of peers in all the lists.
pub record IsCounted (w : Worker) : Type 0 where
  pub lists_valid : (h : List ℕ) (t : Torrent) → lookup h w.torrents ≡ some t → IsValid t
  pub leechers_counted : u32 w.stats.stat_leechers ≡ u32 (sum_of num_leechers w.torrents)
  pub seeders_counted : u32 w.stats.stat_seeders ≡ u32 (sum_of num_seeders w.torrents)

shift_lem :
    (n m a b before after : ℕ)
    → u32 n ≡ u32 a
    → u32 (m + before) ≡ u32 (n + after)
    → b + before ≡ a + after
    → u32 m ≡ u32 b
shift_lem n m a b before after e f g = omega (arith, e, f, g)

abbrev pub Call : Type 0
Call = Env × AnnounceRequest × User

-- Any number of announces, each of some user, one after another.
unfoldable pub run : List Call → Worker → Worker
run [] w = w
run ((env, req, user) ∷ calls) w = run calls (announce env req user w).worker

announce_unserved :
    (env : Env) (req : AnnounceRequest) (user : User) (w : Worker)
    → lookup req.info_hash w.torrents ≡ none
    → (announce env req user w).worker ≡ w
unfolding announce
announce_unserved env req user w h = elim (Option-cases (refuse env req w)) [
  | inr (e, r) ↦ rw (r, announce) refl
  | inl r ↦ rw (r, h, announce) refl
]

served-IsCounted :
    (env : Env) (req : AnnounceRequest) (user : User) (w : Worker) (t : Torrent)
    → lookup req.info_hash w.torrents ≡ some t
    → IsCounted w
    → let s = serve env req user t in
      IsCounted (record w {
        torrents = insert req.info_hash s.torrent w.torrents;
        stats = count_stats s.flags w.stats;
      })
unfolding count_stats
served-IsCounted env req user w t h c =
    let s = serve env req user t in
    let (m, counted) = serve-Matches env req user t (c.lists_valid req.info_hash t h) in
    record {
      lists_valid = λ j u e. ground (
        arith,
        m.still_valid,
        lookup-insert req.info_hash j s.torrent w.torrents,
        c.lists_valid j u,
      );
      leechers_counted =
          shift_lem w.stats.stat_leechers _ (sum_of num_leechers w.torrents) _ (length t.leechers)
            (length s.torrent.leechers) c.leechers_counted
            (count_lem s.flags.inc_leechers s.flags.dec_leechers w.stats.stat_leechers _ _
              m.same_leechers)
            (sum_of-insert num_leechers req.info_hash t s.torrent w.torrents h);
      seeders_counted =
          shift_lem w.stats.stat_seeders _ (sum_of num_seeders w.torrents) _ (length t.seeders)
            (length s.torrent.seeders) c.seeders_counted
            (count_lem s.flags.inc_seeders s.flags.dec_seeders w.stats.stat_seeders _ _
              m.same_seeders)
            (sum_of-insert num_seeders req.info_hash t s.torrent w.torrents h);
    }

announce-IsCounted :
    (env : Env) (req : AnnounceRequest) (user : User) (w : Worker)
    → IsCounted w
    → IsCounted (announce env req user w).worker
announce-IsCounted env req user w c = elim (Option-cases (lookup req.info_hash w.torrents)) [
  | inl h ↦ rw (announce_unserved env req user w h) c
  | inr (t, h) ↦ elim (announce_served env req user w t h) [
    | inl (same, _) ↦ rw same c
    | inr (now, _) ↦ rw now (served-IsCounted env req user w t h c)
  ]
]

-- Whatever announces arrive, in whatever order and from whatever users, the tracker's counters of
-- leechers and seeders remain, modulo 2^32, the numbers of peers in the lists of all its torrents,
-- and no list comes to hold a peer twice.
pub run-IsCounted : (calls : List Call) (w : Worker) → IsCounted w → IsCounted (run calls w)
unfolding run
run-IsCounted [] w c = c
run-IsCounted ((env, req, user) ∷ calls) w c =
    run-IsCounted calls (announce env req user w).worker (announce-IsCounted env req user w c)
