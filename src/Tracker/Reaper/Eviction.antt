-- ===== src/Tracker/Reaper/Eviction.antt =====
-- Who is evicted, and what the tracker's counters are worth afterwards (tracker/reaper.go).
use ocelot.Prelude.{
  ℕ, ◌+◌, ◌-◌, ◌≡◌, refl, ap, ◌∙◌, false, none, List, [], ◌∷◌, length, if◌then◌else◌, list_eq,
  list_beq_iff, nat_eq, ◌==◌, arith, any, Bool-cases, inl, inr, All, suc, ◌<◌, ltb, ◌^◌,
}
use ocelot.Prelude.Map.{Map, lookup, delete, Distinct, one_more, delete_absent}
use ocelot.Tracker.Swarm.{Peer, PeerList, Torrent, u32, u64}
use ocelot.Tracker.Reaper.{
  is_stale, dead_keys, delete_all, reap_peer_list, reap_torrent, reap_all, reap,
}
use ocelot.Tracker.Announce.Sizes.{IsValid}
use ocelot.Tracker.Announce.Handler.{Worker}
use ocelot.Tracker.Announce.Totals.{IsCounted, sum_of}

-- The peers that are not stale, in order.
unfoldable pub survivors : ℕ → PeerList → PeerList
survivors cutoff [] = []
survivors cutoff ((k, p) ∷ ps) =
    let rest = survivors cutoff ps in if is_stale cutoff p then rest else (k, p) ∷ rest

dead_keys_absent :
    (cutoff : ℕ) (key : List ℕ) (ps : PeerList)
    → lookup key ps ≡ none
    → any (λ j. j == key) (dead_keys cutoff ps) ≡ false
unfolding dead_keys any lookup
dead_keys_absent cutoff key [] h = refl
dead_keys_absent cutoff key ((k, p) ∷ ps) h = ground (arith, dead_keys_absent cutoff key ps)

delete_all_past :
    (ks : List (List ℕ)) (key : List ℕ) (p : Peer) (ps : PeerList)
    → any (λ j. j == key) ks ≡ false
    → delete_all ks ((key, p) ∷ ps) ≡ (key, p) ∷ delete_all ks ps
unfolding delete_all any delete
delete_all_past [] key p ps h = refl
delete_all_past (k ∷ ks) key p ps h =
    ground (arith, list_beq_iff key k, list_beq_iff k key, delete_all_past ks key p (delete k ps))

delete_all_here :
    (ks : List (List ℕ)) (key : List ℕ) (p : Peer) (ps : PeerList)
    → lookup key ps ≡ none
    → delete_all (key ∷ ks) ((key, p) ∷ ps) ≡ delete_all ks ps
unfolding delete_all delete
delete_all_here ks key p ps h = ground (arith, list_beq_iff key key, delete_absent key ps)

delete_dead :
    (cutoff : ℕ) (ps : PeerList)
    → Distinct ps
    → delete_all (dead_keys cutoff ps) ps ≡ survivors cutoff ps
unfolding dead_keys survivors delete_all
delete_dead cutoff [] d = refl
delete_dead cutoff ((k, p) ∷ ps) (one_more h d) = elim (Bool-cases (is_stale cutoff p)) [
  | inl s ↦
      rw (s, dead_keys, survivors)
        (delete_all_here (dead_keys cutoff ps) k p ps h ∙ delete_dead cutoff ps d)
  | inr s ↦
      rw (s, dead_keys, survivors)
        (delete_all_past (dead_keys cutoff ps) k p ps (dead_keys_absent cutoff k ps h)
          ∙ ap (λ rest. (k, p) ∷ rest) (delete_dead cutoff ps d))
]

length-survivors :
    (cutoff : ℕ) (ps : PeerList)
    → length (survivors cutoff ps) + length (dead_keys cutoff ps) ≡ length ps
unfolding survivors dead_keys
length-survivors cutoff [] = refl
length-survivors cutoff ((k, p) ∷ ps) = ground (arith, length-survivors cutoff ps)

-- From a list that holds no peer twice, exactly the stale peers go, the others keep their order, and
-- the number returned is the number that went.
pub reap_peer_list-survivors :
    (cutoff : ℕ) (ps : PeerList)
    → Distinct ps
    → let (kept, n) = reap_peer_list cutoff ps in
      (kept ≡ survivors cutoff ps) × (length kept + n ≡ length ps)
unfolding reap_peer_list
reap_peer_list-survivors cutoff ps d =
    let e = delete_dead cutoff ps d in (e, rw e (length-survivors cutoff ps))

unfoldable pub num_peers : Map (List ℕ) Torrent → ℕ
num_peers [] = 0
num_peers ((h, t) ∷ m) = length t.seeders + length t.leechers + num_peers m

-- The stale peers of a list, and of all the lists.
unfoldable pub num_stale : ℕ → PeerList → ℕ
num_stale cutoff [] = 0
num_stale cutoff ((k, p) ∷ ps) =
    let rest = num_stale cutoff ps in if is_stale cutoff p then suc rest else rest

unfoldable pub num_stale_peers : ℕ → Map (List ℕ) Torrent → ℕ
num_stale_peers cutoff [] = 0
num_stale_peers cutoff ((h, t) ∷ m) =
    num_stale cutoff t.seeders + num_stale cutoff t.leechers + num_stale_peers cutoff m

length-dead_keys : (cutoff : ℕ) (ps : PeerList) → length (dead_keys cutoff ps) ≡ num_stale cutoff ps
unfolding dead_keys num_stale
length-dead_keys cutoff [] = refl
length-dead_keys cutoff ((k, p) ∷ ps) = ground (arith, length-dead_keys cutoff ps)

-- A reaping of all the torrents returns the number of stale peers, and the lists are shorter by it.
reap_all_count :
    (cutoff : ℕ) (m : Map (List ℕ) Torrent)
    → All (λ e. IsValid e.1) m
    → ((reap_all cutoff m).1 ≡ num_stale_peers cutoff m)
      × (num_peers (reap_all cutoff m).0 + num_stale_peers cutoff m ≡ num_peers m)
unfolding num_peers num_stale_peers reap_all reap_torrent reap_peer_list
reap_all_count cutoff [] v = (refl, refl)
reap_all_count cutoff ((h, t) ∷ m) (v, vs) = ground (
  arith,
  reap_peer_list-survivors cutoff t.seeders v.distinct_seeders,
  reap_peer_list-survivors cutoff t.leechers v.distinct_leechers,
  length-dead_keys cutoff t.seeders,
  length-dead_keys cutoff t.leechers,
  reap_all_count cutoff m vs,
)

num_peers-sums :
    (m : Map (List ℕ) Torrent)
    → sum_of (λ t. length t.leechers) m + sum_of (λ t. length t.seeders) m ≡ num_peers m
unfolding num_peers sum_of
num_peers-sums [] = refl
num_peers-sums ((h, t) ∷ m) = omega (arith, num_peers-sums m)

-- Sums that agree modulo 2^32 before and after differ by no number below 2^32.
not_both :
    (l s a b a' b' n : ℕ)
    → u32 l ≡ u32 a
    → u32 s ≡ u32 b
    → u32 l ≡ u32 a'
    → u32 s ≡ u32 b'
    → a' + b' + n ≡ a + b
    → n < 2 ^ 32
    → n ≡ 0
not_both l s a b a' b' n e f g h k lt = omega (arith, e, f, g, h, k, lt)

-- A reaping of lists that hold no peer twice removes as many peers as are stale, adds their
-- number to the counter of evicted peers, modulo 2^64, where it is not zero, and changes no other
-- counter. So the counters of leechers and seeders, which announces keep equal to the numbers of
-- peers in the lists, modulo 2^32, no longer are: not both of them, after a reaping that finds at
-- least one stale peer, and fewer than 2^32.
pub reap_drifts :
    (now timeout : ℕ) (w : Worker)
    → All (λ e. IsValid e.1) w.torrents
    → IsCounted w
    → let w' = reap now timeout w in
      let n = num_stale_peers (now - timeout) w.torrents in
      (num_peers w'.torrents + n ≡ num_peers w.torrents)
      × (w'.stats ≡ (
          if ltb 0 n
          then record w.stats { evicted_peers = u64 (w.stats.evicted_peers + n) }
          else w.stats))
      × (0 < n → n < 2 ^ 32 → ¬ IsCounted w')
unfolding reap
reap_drifts now timeout w v c =
    let cutoff = now - timeout in
    let n = num_stale_peers cutoff w.torrents in
    let m' = (reap_all cutoff w.torrents).0 in
    let (returned, fewer) = reap_all_count cutoff w.torrents v in
    (
      fewer,
      rw returned refl,
      λ some_stale bounded again.
          let sums = num_peers-sums w.torrents in
          let sums' = num_peers-sums m' in
          let leechers : u32 w.stats.stat_leechers ≡ u32 (sum_of (λ t. length t.leechers) m') =
            ground (arith, again.leechers_counted) in
          let seeders : u32 w.stats.stat_seeders ≡ u32 (sum_of (λ t. length t.seeders) m') =
            ground (arith, again.seeders_counted) in
          let zero_stale =
            not_both w.stats.stat_leechers w.stats.stat_seeders _ _ _ _ n c.leechers_counted
              c.seeders_counted leechers seeders (omega (arith, fewer, sums, sums')) bounded in
          omega (arith, zero_stale, some_stale),
    )
