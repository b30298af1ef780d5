-- ===== src/Tracker/Announce/Request.antt =====
-- What an announce carries, what it decides, and what it writes (tracker/announce.go).
use ocelot.Prelude.{ℕ, Bool, true, false, Option, List}
use ocelot.Prelude.Int.{ℤ}
use ocelot.Tracker.Address.{Ip}

-- `Event` is a string: `other_event` stands for the strings that the handler does not test for.
pub data Event : Type 0 where
  started completed stopped other_event : Event

-- The fields of an `AnnounceRequest` that the handler reads.
pub record AnnounceRequest : Type 0 where
  pub info_hash : List ℕ
  pub peer_id : List ℕ
  pub port : ℕ
  pub uploaded : ℤ
  pub downloaded : ℤ
  pub left : ℤ
  pub corrupt : ℤ
  pub compact : Bool
  pub event : Event
  pub ip : Ip
  pub num_want : ℤ

-- The errors of the handler.
pub data AnnounceError : Type 0 where
  not_admitted not_compact invalid_peer_id not_whitelisted client_rejected announce_rejected :
      AnnounceError
  unregistered_torrent leeching_forbidden : AnnounceError

-- What the handler sends to the database, to the site and to the settlement, in order. A failed write
-- is logged and changes nothing else.
pub data Effect : Type 0 where
  record_token : ℕ → ℕ → ℤ → Effect
  record_user_stats : ℕ → ℤ → ℤ → Effect
  settle_announce : ℕ → ℕ → ℤ → ℤ → ℕ → ℕ → Bool → Bool → Effect
  record_peer : ℕ → ℕ → ℕ → ℤ → ℤ → ℤ → ℤ → ℤ → ℤ → ℕ → ℕ → Option Ip → List ℕ → Bool → Effect
  record_peer_light : ℕ → ℕ → ℕ → ℕ → List ℕ → Effect
  record_snatch : ℕ → ℕ → ℕ → Option Ip → Effect
  expire_token : ℕ → ℕ → Effect
  record_torrent : ℕ → ℕ → ℕ → ℕ → ℤ → Effect

-- Where the peer's object is held.
pub data Side : Type 0 where
  seeding_side leeching_side : Side

-- The local variables that the search for the peer sets.
pub record Flags : Type 0 where
  pub inserted : Bool
  pub completed_torrent : Bool
  pub moved : Bool  -- sets `peerChanged`
  pub inc_leechers : Bool
  pub inc_seeders : Bool
  pub dec_leechers : Bool
  pub dec_seeders : Bool

abbrev pub no_flags : Flags
no_flags = record {
  inserted = false;
  completed_torrent = false;
  moved = false;
  inc_leechers = false;
  inc_seeders = false;
  dec_leechers = false;
  dec_seeders = false;
}

abbrev pub is_completed : Event → Bool
is_completed completed = true
is_completed _ = false

abbrev pub is_stopped : Event → Bool
is_stopped stopped = true
is_stopped _ = false

abbrev pub is_started : Event → Bool
is_started started = true
is_started _ = false
