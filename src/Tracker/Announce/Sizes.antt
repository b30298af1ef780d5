-- ===== src/Tracker/Announce/Sizes.antt =====
-- How the search for the peer changes the sizes of the two lists (tracker/announce.go).
use ocelot.Prelude.{
  ℕ, suc, ◌+◌, ◌≡◌, refl, Bool, true, false, ◌&&◌, none, List, length, is_some, list_eq,
  list_beq_iff, nat_eq, arith, Option-cases, Bool-cases, inl, inr,
}
use ocelot.Prelude.Int.{pos, ltb_ℤ, ℤ_beq}
use ocelot.Prelude.Map.{
  lookup, insert, delete, Distinct, lookup-insert, length-insert, length-delete, Distinct-insert,
  Distinct-delete,
}
use ocelot.Tracker.Swarm.{Peer, PeerList, Torrent, User, new_peer}
use ocelot.Tracker.Announce.Request.{
  AnnounceRequest, Side, seeding_side, leeching_side, Flags, no_flags, is_completed, is_stopped,
}
use ocelot.Tracker.Announce.Locate.{
  Located, find_or_create_peer, locate, locate_leecher, locate_completed, locate_seeder,
}

abbrev pub one_if : Bool → ℕ
one_if true = 1
one_if false = 0

abbrev pub is_held : List ℕ → PeerList → Bool
is_held key ps = is_some (lookup key ps)

abbrev pub is_on : Side → List ℕ → Torrent → Bool
is_on seeding_side key t = is_held key t.seeders
is_on leeching_side key t = is_held key t.leechers

-- No peer stands twice in a list.
pub record IsValid (t : Torrent) : Type 0 where
  pub distinct_seeders : Distinct t.seeders
  pub distinct_leechers : Distinct t.leechers

-- The flags tell how the sizes of the lists have changed, from one torrent to the other.
pub record Matches (f : Flags) (t u : Torrent) : Type 0 where
  pub still_valid : IsValid u
  pub same_leechers :
      length u.leechers + one_if f.dec_leechers ≡ length t.leechers + one_if f.inc_leechers
  pub same_seeders :
      length u.seeders + one_if f.dec_seeders ≡ length t.seeders + one_if f.inc_seeders

pub is_held-insert :
    (key : List ℕ) (p : Peer) (ps : PeerList) → is_held key (insert key p ps) ≡ true
is_held-insert key p ps = ground (arith, lookup-insert key key p ps, list_beq_iff key key)

pub size-insert_new :
    (key : List ℕ) (p : Peer) (ps : PeerList)
    → is_held key ps ≡ false
    → length (insert key p ps) ≡ suc (length ps)
size-insert_new key p ps h = ground (arith, length-insert key p ps)

pub size-insert_old :
    (key : List ℕ) (p : Peer) (ps : PeerList)
    → is_held key ps ≡ true
    → length (insert key p ps) ≡ length ps
size-insert_old key p ps h = ground (arith, length-insert key p ps)

pub size-delete :
    (key : List ℕ) (ps : PeerList)
    → Distinct ps
    → is_held key ps ≡ true
    → suc (length (delete key ps)) ≡ length ps
size-delete key ps d h = ground (arith, length-delete key ps d)

-- The ways in which the peer is found, with what the rest of the handler relies on.
pub data IsFound (req : AnnounceRequest) (key : List ℕ) (t : Torrent) (l : Located) : Type 0 where
  downloads :
      Matches l.flags t l.torrent
      → l.flags.completed_torrent ≡ false
      → l.flags.dec_leechers ≡ false
      → l.flags.dec_seeders ≡ false
      → ltb_ℤ (pos 0) req.left ≡ true
      → is_on leeching_side key l.torrent ≡ true
      → l.side ≡ leeching_side
      → IsFound req key t l
  seeds :
      Matches l.flags t l.torrent
      → l.flags.completed_torrent ≡ false
      → l.flags.dec_seeders ≡ false
      → ltb_ℤ (pos 0) req.left ≡ false
      → is_on seeding_side key l.torrent ≡ true
      → l.side ≡ seeding_side
      → IsFound req key t l
  joins_complete :
      Matches l.flags t l.torrent
      → l.flags.completed_torrent ≡ true
      → l.flags.inserted ≡ true
      → is_stopped req.event ≡ false
      → is_on seeding_side key l.torrent ≡ true
      → l.side ≡ seeding_side
      → IsFound req key t l
  completes :
      l.torrent ≡ t
      → l.flags
        ≡ record no_flags { completed_torrent = true; dec_seeders = is_on seeding_side key t }
      → is_stopped req.event ≡ false
      → is_on leeching_side key t ≡ true
      → l.side ≡ leeching_side
      → IsFound req key t l

find_or_create_absent :
    (ps : PeerList) (key : List ℕ) (user : User)
    → lookup key ps ≡ none
    → find_or_create_peer ps key user ≡ (insert key (new_peer user.id) ps, new_peer user.id, true)
unfolding find_or_create_peer
find_or_create_absent ps key user h = rw (h, find_or_create_peer) refl

locate_leecher-IsFound :
    (req : AnnounceRequest) (key : List ℕ) (user : User) (t : Torrent)
    → IsValid t
    → ltb_ℤ (pos 0) req.left ≡ true
    → IsFound req key t (locate_leecher key user t)
unfolding locate_leecher find_or_create_peer
locate_leecher-IsFound req key user t v h = elim (Option-cases (lookup key t.leechers)) [
  | inl e ↦
      rw (e, locate_leecher, find_or_create_peer)
        (downloads
          (ground (
            arith,
            size-insert_new key (new_peer user.id) t.leechers,
            Distinct-insert key (new_peer user.id) t.leechers,
          ))
          refl refl refl h (is_held-insert key (new_peer user.id) t.leechers) refl)
  | inr (p, e) ↦
      rw (e, locate_leecher, find_or_create_peer)
        (downloads (ground arith) refl refl refl h (ground arith) refl)
]

locate_seeder-IsFound :
    (req : AnnounceRequest) (key : List ℕ) (user : User) (t : Torrent)
    → IsValid t
    → ltb_ℤ (pos 0) req.left ≡ false
    → IsFound req key t (locate_seeder key user t)
unfolding locate_seeder find_or_create_peer
locate_seeder-IsFound req key user t v h = elim (Option-cases (lookup key t.seeders)) [
  | inr (p, e) ↦
      rw (e, locate_seeder, find_or_create_peer)
        (seeds (ground arith) refl refl h (ground arith) refl)
  | inl e ↦ elim (Option-cases (lookup key t.leechers)) [
    | inr (p, d) ↦
        rw (e, d, locate_seeder, find_or_create_peer)
          (seeds
            (ground (
              arith,
              size-insert_new key p t.seeders,
              size-delete key t.leechers v.distinct_leechers,
              Distinct-insert key p t.seeders,
              Distinct-delete key t.leechers,
            ))
            refl refl h (is_held-insert key p t.seeders) refl)
    | inl d ↦
        rw (e, d, locate_seeder, find_or_create_absent t.seeders key user e)
          (seeds
            (ground (
              arith,
              size-insert_new key (new_peer user.id) t.seeders,
              Distinct-insert key (new_peer user.id) t.seeders,
            ))
            refl refl h (is_held-insert key (new_peer user.id) t.seeders) refl)
  ]
]

locate_completed-IsFound :
    (req : AnnounceRequest) (key : List ℕ) (user : User) (t : Torrent)
    → IsValid t
    → ltb_ℤ (pos 0) req.left ≡ false
    → is_completed req.event ≡ true
    → IsFound req key t (locate_completed key user t)
unfolding locate_completed find_or_create_peer
locate_completed-IsFound req key user t v h c = elim (Option-cases (lookup key t.leechers)) [
  | inr (p, e) ↦
      rw (e, locate_completed, find_or_create_peer)
        (completes refl refl (ground arith) (ground arith) refl)
  | inl e ↦ elim (Option-cases (lookup key t.seeders)) [
    | inr (p, d) ↦
        rw (e, d, locate_completed, find_or_create_peer)
          (seeds (ground arith) refl refl h (ground arith) refl)
    | inl d ↦
        rw (e, d, locate_completed, find_or_create_absent t.seeders key user d)
          (joins_complete
            (ground (
              arith,
              size-insert_new key (new_peer user.id) t.seeders,
              Distinct-insert key (new_peer user.id) t.seeders,
            ))
            refl refl (ground arith) (is_held-insert key (new_peer user.id) t.seeders) refl)
  ]
]

pub locate-IsFound :
    (req : AnnounceRequest) (key : List ℕ) (user : User) (t : Torrent)
    → IsValid t
    → IsFound req key t (locate req key user t)
unfolding locate
locate-IsFound req key user t v = elim (Bool-cases (ltb_ℤ (pos 0) req.left)) [
  | inl more ↦ rw (more, locate) (locate_leecher-IsFound req key user t v more)
  | inr done ↦ elim (Bool-cases (is_completed req.event && ℤ_beq req.left (pos 0))) [
    | inl c ↦ rw (done, c, locate) (locate_completed-IsFound req key user t v done (ground arith))
    | inr c ↦ rw (done, c, locate) (locate_seeder-IsFound req key user t v done)
  ]
]
