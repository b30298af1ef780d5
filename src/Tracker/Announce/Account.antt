-- ===== src/Tracker/Announce/Account.antt =====
-- tracker/announce.go: what an announce adds to the peer, to the torrent's balance and to the user's
-- totals, and the address it leaves. The speeds are floating-point quotients, which the argument
-- `rate` gives, for a number of bytes and of nanoseconds.
use ocelot.Prelude.{
  ℕ, ◌+◌, ◌-◌, Bool, true, false, ◌&&◌, ◌||◌, not, Option, none, some, List, [], ◌∷◌, ◌++◌, length,
  if◌then◌else◌, ltb, ◌==◌, nat_eq, any,
}
use ocelot.Prelude.Int.{ℤ, pos, ◌+ℤ◌, ◌-ℤ◌, ltb_ℤ, ℤ_beq, i64}
use ocelot.Tracker.Address.{
  Ip, nil_ip, compact_ip_port, validate_ip_not_private, is_unspecified, ip_equal,
}
use ocelot.Tracker.Swarm.{Peer, Torrent, User, FreeType, normal, free, neutral, u32}
use ocelot.Tracker.Announce.Request.{
  AnnounceRequest, Effect, record_token, record_user_stats, settle_announce, Flags, is_started,
  is_stopped,
}

pub record Accounted : Type 0 where
  pub peer : Peer
  pub balance : ℤ
  pub peer_changed : Bool
  pub update_torrent : Bool
  pub expires : Bool
  pub up_speed : ℤ
  pub down_speed : ℤ
  pub effects : List Effect

abbrev is_positive : ℤ → Bool
is_positive a = ltb_ℤ (pos 0) a

-- The changes that count for the user: of upload, of download, whether a token is used, and its row.
unfoldable pub counted_changes :
    FreeType → Bool → User → Torrent → ℤ → ℤ → ℤ × ℤ × Bool × List Effect
counted_changes neutral token user t up down = (pos 0, pos 0, false, [])
counted_changes free token user t up down = (up, pos 0, false, [])
counted_changes normal token user t up down =
    if token
    then (up, pos 0, true, record_token user.id t.torrent_id down ∷ [])
    else (up, down, false, [])

abbrev speed : (ℤ → ℕ → ℤ) → ℕ → Option ℕ → ℤ → ℤ
speed rate now none change = pos 0
speed rate now (some last) change = if ltb last now then rate change (now - last) else pos 0

unfoldable pub user_effects : Bool → AnnounceRequest → User → Torrent → ℤ → ℤ → List Effect
user_effects economy req user t up down =
    if is_positive up || is_positive down
    then (record_user_stats user.id up down
        ∷ (if economy
            then settle_announce user.id t.torrent_id up down (length t.seeders) (length t.leechers)
                (ℤ_beq req.left (pos 0)) (is_stopped req.event)
              ∷ []
            else []))
    else []

-- The first announce of a peer, or one that says that it is.
unfoldable pub account_start : ℕ → AnnounceRequest → Torrent → Peer → Accounted
account_start now req t p = record {
  peer = record p {
    first_announced = now;
    last_announced = none;
    uploaded = req.uploaded;
    downloaded = req.downloaded;
    corrupt = req.corrupt;
    announces = 1;
  };
  balance = t.balance;
  peer_changed = true;
  update_torrent = true;
  expires = false;
  up_speed = pos 0;
  down_speed = pos 0;
  effects = [];
}

-- A client that has started to count again.
unfoldable pub account_restart : AnnounceRequest → Torrent → Peer → Accounted
account_restart req t p = record {
  peer = record p {
    uploaded = req.uploaded;
    downloaded = req.downloaded;
    announces = u32 (p.announces + 1);
  };
  balance = t.balance;
  peer_changed = true;
  update_torrent = is_stopped req.event;
  expires = false;
  up_speed = pos 0;
  down_speed = pos 0;
  effects = [];
}

abbrev if_positive : ℤ → ℤ → ℤ → ℤ
if_positive change new old = if is_positive change then new else old

-- An announce that goes on from the last.
unfoldable pub account_progress :
    (ℤ → ℕ → ℤ) → Bool → ℕ → AnnounceRequest → User → Torrent → Bool → Peer → Accounted
unfolding counted_changes user_effects
account_progress rate economy now req user t moved p =
    let up = i64 (req.uploaded -ℤ p.uploaded) in
    let down = i64 (req.downloaded -ℤ p.downloaded) in
    let bad = i64 (req.corrupt -ℤ p.corrupt) in
    let traffic = is_positive up || is_positive down in
    let checked = if_positive bad (i64 (t.balance -ℤ bad)) t.balance in
    let token = any (λ u. u == user.id) t.tokened_users in
    let (counted_up, counted_down, expires, tokens) =
      counted_changes t.free_type token user t up down in
    record {
      peer = record p {
        announces = u32 (p.announces + 1);
        uploaded = if_positive up req.uploaded p.uploaded;
        downloaded = if_positive down req.downloaded p.downloaded;
        corrupt = if_positive bad req.corrupt p.corrupt;
      };
      balance = if traffic then i64 (i64 (checked +ℤ up) -ℤ down) else checked;
      peer_changed = is_stopped req.event || moved || traffic || is_positive bad;
      update_torrent = is_stopped req.event || is_positive bad || traffic;
      expires = traffic && expires;
      up_speed = if traffic then speed rate now p.last_announced up else pos 0;
      down_speed = if traffic then speed rate now p.last_announced down else pos 0;
      effects =
          if traffic then tokens ++ user_effects economy req user t counted_up counted_down else [];
    }

unfoldable pub account :
    (ℤ → ℕ → ℤ) → Bool → ℕ → AnnounceRequest → User → Torrent → Flags → Peer → Accounted
unfolding account_start account_restart account_progress
account rate economy now req user t f p =
    if f.inserted || is_started req.event
    then account_start now req t p
    else (if ltb_ℤ req.uploaded p.uploaded || ltb_ℤ req.downloaded p.downloaded
        then account_restart req t p
        else account_progress rate economy now req user t f.moved p)

abbrev is_nil : Ip → Bool
is_nil nil_ip = true
is_nil _ = false

abbrev is_none : Option (List ℕ) → Bool
is_none none = true
is_none (some bs) = false

-- The address that the announce speaks for.
unfoldable pub effective_ip : AnnounceRequest → Ip → Ip
effective_ip req client = if is_nil req.ip || is_unspecified req.ip then client else req.ip

-- The peer with its address, and whether the response warns about it.
unfoldable pub set_address : AnnounceRequest → Ip → Bool → Peer → Peer × Bool
set_address req ip inserted p =
    if not (validate_ip_not_private ip)
    then (record p { invalid_ip = true }, true)
    else (if inserted || not (p.port == req.port) || not (ip_equal p.ip ip)
        then (
          record p {
            port = req.port;
            ip = ip;
            ip_port = compact_ip_port ip req.port;
            invalid_ip = p.invalid_ip || is_none (compact_ip_port ip req.port);
          },
          is_none (compact_ip_port ip req.port),
        )
        else (p, p.invalid_ip))

unfoldable pub peer_is_visible : User → Peer → Bool
peer_is_visible user p = (ℤ_beq p.left (pos 0) || user.can_leech) && not p.invalid_ip

-- The peer as the first critical section leaves it, and the warning.
unfoldable pub finish_peer : ℕ → AnnounceRequest → User → Ip → Bool → Peer → Peer × Bool
unfolding set_address peer_is_visible
finish_peer now req user ip inserted p =
    let (q, warns) = set_address req ip inserted (record p { left = req.left }) in
    (record q { last_announced = some now; visible = peer_is_visible user q }, warns)
