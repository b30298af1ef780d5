-- ===== src/Tracker/Announce/Charges.antt =====
-- What an announce charges to the user (tracker/announce.go).
use ocelot.Prelude.{
  ℕ, ◌≡◌, Bool, true, false, not, List, [], ◌∷◌, arith, nat_eq, ◌==◌, if◌then◌else◌, any,
}
use ocelot.Prelude.Int.{ℤ, pos, ◌+ℤ◌, ◌-ℤ◌, ◌≤ℤ◌, i64}
use ocelot.Tracker.Swarm.{Peer, Torrent, User, FreeType, normal, neutral}
use ocelot.Tracker.Announce.Request.{AnnounceRequest, Effect, record_user_stats}
use ocelot.Tracker.Announce.Account.{account_progress, counted_changes, user_effects}

-- The upload and the download that the effects add to the totals of the user with the id `who`.
unfoldable pub charged : ℕ → List Effect → ℤ × ℤ
charged who [] = (pos 0, pos 0)
charged who (record_user_stats id up down ∷ es) =
    let (u, d) = charged who es in if id == who then (u +ℤ up, d +ℤ down) else (u, d)
charged who (_ ∷ es) = charged who es

unfoldable pub is_tokened : User → Torrent → Bool
is_tokened user t = any (λ u. u == user.id) t.tokened_users

unfoldable pub counts_upload : FreeType → Bool
counts_upload neutral = false
counts_upload _ = true

unfoldable pub counts_download : FreeType → Bool → Bool
counts_download normal token = not token
counts_download _ token = false

-- An announce that goes on from the last, of which neither total falls: the user is charged the upload
-- unless the torrent is neutral, and the download if the torrent is a normal one and the user has
-- no token for it, and nothing else. No other user is charged.
pub account_progress-charges :
    (rate : ℤ → ℕ → ℤ) (economy : Bool) (now : ℕ) (req : AnnounceRequest) (user : User)
    (t : Torrent) (moved : Bool) (p : Peer) (up down : ℤ) (who : ℕ)
    → up ≡ i64 (req.uploaded -ℤ p.uploaded)
    → down ≡ i64 (req.downloaded -ℤ p.downloaded)
    → pos 0 ≤ℤ up
    → pos 0 ≤ℤ down
    → let a = account_progress rate economy now req user t moved p in
      charged who a.effects ≡ (
        if user.id == who
        then (
          (if counts_upload t.free_type then up else pos 0),
          (if counts_download t.free_type (is_tokened user t) then down else pos 0),
        )
        else (pos 0, pos 0))
unfolding account_progress counted_changes user_effects charged is_tokened counts_upload
    counts_download ◌+ℤ◌
account_progress-charges rate economy now req user t moved p up down who eu ed hu hd = ground arith
