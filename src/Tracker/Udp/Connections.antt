-- ===== src/Tracker/Udp/Connections.antt =====
-- Who is served over UDP: the holders of a connection that was issued to their address.
use ocelot.Prelude.{
  ℕ, ◌+◌, ◌≤◌, ◌≡◌, refl, true, false, ◌&&◌, List, [], ◌∷◌, ◌++◌, length, if◌then◌else◌, ltb, ◌==◌,
  nat_eq, list_eq, All, Any, at_first, at_other, Any-map, All-select, All-map, arith, Bool-cases,
  Option-cases, inl, inr, ◌⊎◌,
}
use ocelot.Prelude.Bytes.{codes, get32, get64, drop, put32}
use ocelot.Prelude.Map.{lookup, All-insert, All-delete, All-lookup}
use ocelot.Tracker.Address.{Ip, ip_equal}
use ocelot.Tracker.Udp.{
  conn_id_ttl, ConnRecord, ConnIds, UdpServer, Net, Handled, is_live, evict_expired, issue_conn_id,
  validate_conn_id, send_error, handle_connect, handle_announce, handle_scrape, handle,
}

-- A packet that comes in, and what its handler is given.
pub record Arrival : Type 0 where
  pub net : Net
  pub packet : List ℕ
  pub from : Ip

abbrev arrive : Arrival → UdpServer → Handled
arrive a s = handle a.net a.packet a.from s

-- The server after the packets of a history, the latest first.
pub run : List Arrival → UdpServer → UdpServer
run [] s = s
run (a ∷ h) s = (arrive a (run h s)).server

-- A connect packet, by BEP-15.
abbrev pub IsConnect : List ℕ → Type 0
IsConnect pkt = (16 ≤ length pkt) × (get64 pkt ≡ 0x417_2710_1980) × (get32 (drop 8 pkt) ≡ 0)

-- The arrival that an entry of the table comes from.
abbrev Issued : ℕ × ConnRecord → Arrival → Type 0
Issued (id, rec) a =
    IsConnect a.packet
    × (a.net.random ≡ id)
    × (a.from ≡ rec.ip)
    × (rec.expires ≡ a.net.env.now + 120_000_000_000)

module _ (P : ℕ × ConnRecord → Type 0) (id now : ℕ) (ip : Ip) (t : ConnIds) where
  validate_conn_id-All : All P t → All P (validate_conn_id id now ip t).0
  unfolding validate_conn_id
  validate_conn_id-All h = elim (Option-cases (lookup id t)) [
    | inl absent ↦ rw (absent, validate_conn_id) h
    | inr (rec, found) ↦ elim (Bool-cases (ltb rec.expires now)) [
      | inl old ↦ rw (found, validate_conn_id, old) (All-delete P id t h)
      | inr live ↦ rw (found, validate_conn_id, live) h
    ]
  ]

  issue_conn_id-All :
      P (id, record { ip = ip; expires = now + conn_id_ttl })
      → All P t
      → All P (issue_conn_id id now ip t)
  unfolding issue_conn_id evict_expired
  issue_conn_id-All new h = All-select P (is_live now) _ (All-insert P id _ t new h)

  -- A connection that is valid has an entry of the same address that has not expired.
  validate_conn_id-true :
      All P t
      → (validate_conn_id id now ip t).1 ≡ true
      → (rec : ConnRecord) × P (id, rec) × (ip_equal rec.ip ip ≡ true) × (now ≤ rec.expires)
  unfolding validate_conn_id
  validate_conn_id-true h valid = elim (Option-cases (lookup id t)) [
    | inl absent ↦ absurd (ground arith)
    | inr (rec, found) ↦ (rec, All-lookup P id t h found, ground arith, ground arith)
  ]

-- How the table of connections changes.
handle_ids :
    (net : Net) (pkt : List ℕ) (ip : Ip) (s : UdpServer)
    → let ids = (handle net pkt ip s).server.conn_ids in
      (ids ≡ s.conn_ids)
      ⊎ (ids ≡ (validate_conn_id (get64 pkt) net.env.now ip s.conn_ids).0)
      ⊎ (IsConnect pkt × (ids ≡ issue_conn_id net.random net.env.now ip s.conn_ids))
unfolding handle handle_connect handle_announce handle_scrape send_error
handle_ids net pkt ip s = ground arith

IsIssued : List Arrival → UdpServer → Type 0
IsIssued h s = All (λ entry. Any (Issued entry) h) s.conn_ids

arrive-IsIssued :
    (a : Arrival) (h : List Arrival) (s : UdpServer)
    → IsIssued h s
    → IsIssued (a ∷ h) (arrive a s).server
unfolding IsIssued
arrive-IsIssued a h s issued =
    let P = λ (entry : ℕ × ConnRecord). Any (Issued entry) (a ∷ h) in
    let older =
      All-map (λ entry. Any (Issued entry) h) P s.conn_ids (λ entry i. at_other i) issued in
    elim (handle_ids a.net a.packet a.from s) [
      | inl same ↦ rw same older
      | inr (inl checked) ↦ rw checked (validate_conn_id-All P _ _ _ _ older)
      | inr (inr (connects, added)) ↦
          rw added (issue_conn_id-All P _ _ _ _ (at_first (connects, refl, refl, refl)) older)
    ]

run-IsIssued : (h : List Arrival) (s : UdpServer) → s.conn_ids ≡ [] → IsIssued h (run h s)
unfolding IsIssued run
run-IsIssued [] s fresh = rw fresh tt
run-IsIssued (a ∷ h) s fresh = arrive-IsIssued a h (run h s) (run-IsIssued h s fresh)

-- The connect that the packet answers to: its connection was issued to the same address, at most two
-- minutes before.
abbrev pub Connects : Arrival → Arrival → Type 0
Connects a c =
    IsConnect c.packet
    × (c.net.random ≡ get64 a.packet)
    × (ip_equal c.from a.from ≡ true)
    × (a.net.env.now ≤ c.net.env.now + 120_000_000_000)

-- An error packet, by BEP-15, in answer to a packet.
abbrev pub IsRefused : Arrival → List (List ℕ) → Type 0
IsRefused a sent = (m : List ℕ) × (sent ≡ (put32 3 ++ (put32 (get32 (drop 12 a.packet)) ++ m)) ∷ [])

refused_unchanged :
    (a : Arrival) (s : UdpServer)
    → (validate_conn_id (get64 a.packet) a.net.env.now a.from s.conn_ids).1 ≡ false
    → ((arrive a s).server.worker ≡ s.worker) × ((arrive a s).server.nobody ≡ s.nobody)
unfolding handle handle_connect handle_announce handle_scrape send_error
refused_unchanged a s h = ground arith

IsRefused-answer :
    (a : Arrival) (s : UdpServer)
    → (validate_conn_id (get64 a.packet) a.net.env.now a.from s.conn_ids).1 ≡ false
    → 16 ≤ length a.packet
    → (get32 (drop 8 a.packet) ≡ 1) ⊎ (get32 (drop 8 a.packet) ≡ 2)
    → IsRefused a (arrive a s).sent
unfolding handle handle_connect handle_announce handle_scrape send_error
IsRefused-answer a s h long action = (
  (if get32 (drop 8 a.packet) == 1 && ltb (length a.packet) 98
      then codes "packet too short"
      else codes "invalid or expired connection id"),
  ground arith,
)

-- Over UDP the tracker serves the holders of a connection only: after any packets that a server
-- without connections has met, a packet either answers to a connect from the same address, at most
-- two minutes before, that issued the connection it names; or it changes neither the tracker nor the
-- user, and an announce or a scrape is answered with an error.
pub served_needs_connection :
    (h : List Arrival) (a : Arrival) (s : UdpServer)
    → s.conn_ids ≡ []
    → let u = run h s in
      let r = arrive a u in
      Any (Connects a) h
      ⊎ ((r.server.worker ≡ u.worker)
          × (r.server.nobody ≡ u.nobody)
          × (16 ≤ length a.packet
              → (get32 (drop 8 a.packet) ≡ 1) ⊎ (get32 (drop 8 a.packet) ≡ 2)
              → IsRefused a r.sent))
unfolding IsIssued
served_needs_connection h a s fresh =
    let u = run h s in
    elim (Bool-cases (validate_conn_id (get64 a.packet) a.net.env.now a.from u.conn_ids).1) [
      | inr refused ↦
          let (w, n) = refused_unchanged a u refused in inr (w, n, IsRefused-answer a u refused)
      | inl valid ↦
          let (rec, issued, same_ip, live) =
            validate_conn_id-true _ _ _ _ _ (run-IsIssued h s fresh) valid in
          inl (
            Any-map _ (Connects a)
              (λ c (connect, random, from, expires).
                (connect, random, rw from same_ip, omega (arith, live, expires)))
              issued)
    ]
