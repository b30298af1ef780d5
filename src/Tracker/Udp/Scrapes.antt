-- ===== src/Tracker/Udp/Scrapes.antt =====
-- The answer to a scrape, block by block.
use ocelot.Prelude.{
  ℕ, zero, suc, ◌+◌, ◌-◌, ◌*◌, ◌/◌, ◌≤◌, ◌<◌, ◌≡◌, refl, true, List, [], ◌∷◌, ◌++◌, length,
  length-append, if◌then◌else◌, ltb, arith, nat_eq, list_eq, Option-cases, inl, inr,
}
use ocelot.Prelude.Bytes.{get64, get32, take, drop, slice, put32, take_past, drop_past, drop_add}
use ocelot.Prelude.Map.{lookup}
use ocelot.Tracker.Address.{Ip}
use ocelot.Tracker.Announce.Handler.{Worker}
use ocelot.Tracker.Udp.{
  UdpServer, Net, validate_conn_id, scrape_one, scrape_all, num_hashes, handle_scrape, handle,
}

length-scrape_one : (w : Worker) (hash : List ℕ) → length (scrape_one w hash) ≡ 12
unfolding scrape_one put32
length-scrape_one w hash = elim (Option-cases (lookup hash w.torrents)) [
  | inl absent ↦ rw (absent, scrape_one) refl
  | inr (t, found) ↦ rw (found, scrape_one) refl
]

length-scrape_all : (w : Worker) (n : ℕ) (pkt : List ℕ) → length (scrape_all w n pkt) ≡ 12 * n
unfolding scrape_all
length-scrape_all w zero pkt = refl
length-scrape_all w (suc n) pkt = omega (
  arith,
  length-append (scrape_one w (take 20 pkt)) (scrape_all w n (drop 20 pkt)),
  length-scrape_one w (take 20 pkt),
  length-scrape_all w n (drop 20 pkt),
)

header_end : (trans : ℕ) (all : List ℕ) → drop 8 (put32 2 ++ (put32 trans ++ all)) ≡ all
unfolding drop put32
header_end trans all = refl

-- The block of the hash at place `i`.
block :
    (w : Worker) (n i : ℕ) (pkt : List ℕ)
    → i < n
    → slice (12 * i) 12 (scrape_all w n pkt) ≡ scrape_one w (slice (20 * i) 20 pkt)
unfolding scrape_all slice
block w zero i pkt h = elim h [ ]
block w (suc n) zero pkt h = take_past _ _ (length-scrape_one w (take 20 pkt))
block w (suc n) (suc i) pkt h =
    let out : 12 * suc i ≡ 12 + 12 * i = omega arith in
    let read : 20 * suc i ≡ 20 + 20 * i = omega arith in
    let here = scrape_one w (take 20 pkt) in
    let rest = scrape_all w n (drop 20 pkt) in
    rw (out, read, drop_add 12 (12 * i) (here ++ rest), drop_add 20 (20 * i) pkt)
      (rw (drop_past here rest (length-scrape_one w (take 20 pkt)))
        (block w n i (drop 20 pkt) (omega (arith, h))))

block_at :
    (w : Worker) (n i trans : ℕ) (pkt : List ℕ)
    → i < n
    → slice (8 + 12 * i) 12 (put32 2 ++ (put32 trans ++ scrape_all w n (drop 16 pkt)))
      ≡ scrape_one w (slice (16 + 20 * i) 20 pkt)
unfolding slice
block_at w n i trans pkt h =
    let all = scrape_all w n (drop 16 pkt) in
    rw
      (
        drop_add 8 (12 * i) (put32 2 ++ (put32 trans ++ all)),
        drop_add 16 (20 * i) pkt,
        header_end trans all,
      )
      (block w n i (drop 16 pkt) h)

-- A scrape over a valid connection gets one packet, of eight bytes and twelve for each of the hashes
-- that it holds whole, up to 74 of them; the header names the action and the transaction, and each
-- block is that of the hash at its place. The tracker is as it was.
pub handle_scrape_lem :
    (net : Net) (pkt : List ℕ) (ip : Ip) (s : UdpServer)
    → 16 ≤ length pkt
    → get32 (drop 8 pkt) ≡ 2
    → (validate_conn_id (get64 pkt) net.env.now ip s.conn_ids).1 ≡ true
    → let r = handle net pkt ip s in
      let n = if ltb 74 ((length pkt - 16) / 20) then 74 else (length pkt - 16) / 20 in
      (b : List ℕ) × (r.sent ≡ b ∷ [])
      × (length b ≡ 8 + 12 * n)
      × (take 8 b ≡ put32 2 ++ put32 (get32 (drop 12 pkt)))
      × ((i : ℕ)
          → i < n
          → slice (8 + 12 * i) 12 b ≡ scrape_one s.worker (slice (16 + 20 * i) 20 pkt))
      × (r.server.worker ≡ s.worker)
unfolding handle handle_scrape num_hashes put32 take
handle_scrape_lem net pkt ip s long action valid =
    let n = num_hashes pkt in
    let body = scrape_all s.worker n (drop 16 pkt) in
    (
      put32 2 ++ (put32 (get32 (drop 12 pkt)) ++ body),
      ground arith,
      omega (arith, length-scrape_all s.worker n (drop 16 pkt)),
      refl,
      λ i h. block_at s.worker n i _ pkt h,
      ground arith,
    )
