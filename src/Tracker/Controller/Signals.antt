-- ===== src/Tracker/Controller/Signals.antt =====
-- What the controller asks for: at most the deficit, of nodes that had no copy.
use mathlib.Core.List.{append-nil, append_assoc}
use ocelot.Prelude.{
  ℕ, ◌-◌, ◌≤◌, ◌<◌, ◌≡◌, ◌≢◌, ◌⊎◌, inl, inr, refl, sym, ap, ◌∙◌, Bool, true, false, ◌&&◌, none,
  some, String, List, [], ◌∷◌, ◌++◌, length, length-append, All, All-map, Any, at_first, at_other,
  arith, if◌then◌else◌, ◌==◌, nat_eq, string_eq, Bool-cases,
}
use ocelot.Prelude.Map.{lookup, insert, lookup-insert}
use ocelot.Tracker.Replica.{
  ReplicaClass, NodeReplicaState, absent, requested, NodeReplica, ReplicaKey, key_eq, key_beq_iff,
  NodeReplicaMap, get_or_create, new_node_replica, replica_transition, node_replica_transition,
  state_rank,
}
use ocelot.Tracker.Controller.{
  ControllerAction, Board, try_send, is_absent, key_of, join, signal_one, signal,
}

abbrev pub state_of : ReplicaKey → NodeReplicaMap → NodeReplicaState
state_of k m = elim (lookup k m) [ none ↦ absent | some r ↦ r.state ]

state_of-insert :
    (key k : ReplicaKey) (r : NodeReplica) (m : NodeReplicaMap)
    → state_of k (insert key r m) ≡ (if key == k then r.state else state_of k m)
state_of-insert key k r m = ground (arith, lookup-insert key k r m)

state_of-get_or_create :
    (key k : ReplicaKey) (class : ReplicaClass) (now : ℕ) (m : NodeReplicaMap)
    → let (u, r) = get_or_create key class now m in
      (state_of k u ≡ state_of k m) × (r.state ≡ state_of key m)
unfolding get_or_create new_node_replica
state_of-get_or_create key k class now m =
    let r = new_node_replica key.key_node key.key_hash class now in
    ground (arith, state_of-insert key k r m, key_beq_iff key k)

pub ask :
    (now : ℕ) (r : NodeReplica)
    → r.state ≡ absent
    → ((replica_transition requested now r).1 ≡ true)
      × ((replica_transition requested now r).0.state ≡ requested)
unfolding replica_transition node_replica_transition state_rank
ask now r h = ground arith

take_back :
    (now : ℕ) (r : NodeReplica)
    → r.state ≡ requested
    → (replica_transition absent now r).0.state ≡ absent
unfolding replica_transition node_replica_transition state_rank
take_back now r h = ground arith

pub try_send_lem :
    (a : ControllerAction) (q : List ControllerAction)
    → (try_send a q ≡ none) ⊎ ((try_send a q ≡ some (q ++ a ∷ [])) × (length q < 256))
unfolding try_send
try_send_lem a q = ground arith

pub absent_iff : (s : NodeReplicaState) → is_absent s ≡ true → s ≡ absent
absent_iff s h = ground arith

-- What a round, or a request, does at a node: a directive is sent and the copy, which was absent, is
-- requested; or no directive is sent, and no copy changes its state.
pub record Signals (hash : String) (class : ReplicaClass) (node : ℕ) (b u : Board) (sent : Bool)
    : Type 0 where
  pub queue : u.directives ≡ b.directives ++ (if sent then join node hash class ∷ [] else [])
  pub room : sent ≡ true → length b.directives < 256
  pub was_absent : sent ≡ true → state_of (key_of node hash) b.replicas ≡ absent
  pub states :
      (k : ReplicaKey)
      → state_of k u.replicas
        ≡ (if sent && key_of node hash == k then requested else state_of k b.replicas)

signal_one-Signals :
    (now : ℕ) (hash : String) (class : ReplicaClass) (node : ℕ) (b : Board)
    → let (u, sent) = signal_one now hash class node b in Signals hash class node b u sent
unfolding signal_one
signal_one-Signals now hash class node b =
    let key = key_of node hash in
    let (m, r) = get_or_create key class now b.replicas in
    elim (Bool-cases (is_absent r.state)) [
      | inr busy ↦ rw busy (record {
        queue = sym (append-nil b.directives);
        room = λ h. cc;
        was_absent = λ h. cc;
        states = λ k. (state_of-get_or_create key k class now b.replicas).0;
      })
      | inl free ↦
          let was = absent_iff r.state free in
          let (allowed, asked) = ask now r was in
          let a = (replica_transition requested now r).0 in
          elim (try_send_lem (join node hash class) b.directives) [
            | inl full ↦
                rw (free, allowed, full)
                  (record {
                    queue = sym (append-nil b.directives);
                    room = λ h. cc;
                    was_absent = λ h. cc;
                    states = λ k. ground (
                      arith,
                      state_of-insert key k (replica_transition absent now a).0 m,
                      state_of-get_or_create key k class now b.replicas,
                      take_back now a asked,
                      key_beq_iff key k,
                    );
                  })
            | inr (sends, room) ↦
                rw (free, allowed, sends)
                  (record {
                    queue = refl;
                    room = λ _. room;
                    was_absent =
                        λ _. sym (state_of-get_or_create key key class now b.replicas).1 ∙ was;
                    states = λ k. ground (
                      arith,
                      state_of-insert key k a m,
                      state_of-get_or_create key k class now b.replicas,
                    );
                  })
          ]
    ]

module _ (now : ℕ) (hash : String) (class : ReplicaClass) where
  -- A node that a directive has asked, of those given.
  abbrev pub IsAsked : List ℕ → Board → Board → ControllerAction → Type 0
  IsAsked ns b u j =
      Any (λ n. j ≡ join n hash class) ns
      × (state_of (key_of j.node hash) b.replicas ≡ absent)
      × (state_of (key_of j.node hash) u.replicas ≡ requested)

  signal-requested :
      (ns : List ℕ) (left : ℕ) (b : Board) (k : ReplicaKey)
      → state_of k b.replicas ≡ requested
      → state_of k (signal now hash class ns left b).replicas ≡ requested
  unfolding signal
  signal-requested [] left b k h = h
  signal-requested (n ∷ ns) left b k h =
      let (u, sent) = signal_one now hash class n b in
      let s = signal_one-Signals now hash class n b in
      let again =
        signal-requested ns (if sent then left - 1 else left) u k
          (s.states k ∙ ground (arith, h)) in
      elim (Bool-cases (left == 0)) [ inl done ↦ rw done h | inr more ↦ rw more again ]

  -- A round of the loop over the candidates `ns`, with the directives `js` it has sent.
  pub record SignalsAll (ns : List ℕ) (left : ℕ) (b u : Board) (js : List ControllerAction)
      : Type 0 where
    pub queue : u.directives ≡ b.directives ++ js
    pub few : length js ≤ left
    pub room : length b.directives ≤ 256 → length u.directives ≤ 256
    pub asked : All (IsAsked ns b u) js

  IsAsked-earlier :
      (n : ℕ) (ns : List ℕ) (b u v : Board) (sent : Bool) (js : List ControllerAction)
      → Signals hash class n b u sent
      → All (IsAsked ns u v) js
      → All (IsAsked (n ∷ ns) b v) js
  IsAsked-earlier n ns b u v sent js s h =
      All-map _ (IsAsked (n ∷ ns) b v) js
        (λ j (among, free, taken).
          (at_other among, ground (arith, s.states (key_of j.node hash)), taken))
        h

  SignalsAll-step :
      (n : ℕ) (ns : List ℕ) (left : ℕ) (b u v : Board) (sent : Bool)
      → Signals hash class n b u sent
      → left ≢ 0
      → ((k : ReplicaKey) → state_of k u.replicas ≡ requested → state_of k v.replicas ≡ requested)
      → (js : List ControllerAction) × SignalsAll ns (if sent then left - 1 else left) u v js
      → (js : List ControllerAction) × SignalsAll (n ∷ ns) left b v js
  SignalsAll-step n ns left b u v false s more stays (js, a) = (
    js,
    record {
      queue = a.queue ∙ ap (λ q. q ++ js) (s.queue ∙ append-nil b.directives);
      few = a.few;
      room = λ h. a.room (rw (s.queue, append-nil) h);
      asked = IsAsked-earlier n ns b u v false js s a.asked;
    },
  )
  SignalsAll-step n ns left b u v true s more stays (js, a) =
      let j = join n hash class in
      (
        j ∷ js,
        record {
          queue = a.queue ∙ ap (λ q. q ++ js) s.queue ∙ append_assoc b.directives (j ∷ []) js;
          few = ground (arith, a.few);
          room = λ h.
              a.room
                (rw s.queue (ground (arith, length-append b.directives (j ∷ []), s.room refl)));
          asked = (
            (
              at_first refl,
              s.was_absent refl,
              stays (key_of n hash) (
                  s.states (key_of n hash)
                  ∙ ground (arith, key_beq_iff (key_of n hash) (key_of n hash))),
            ),
            IsAsked-earlier n ns b u v true js s a.asked,
          );
        },
      )

  -- Whatever the candidates are, the loop over them sends at most as many directives as copies are
  -- missing, after those already in the channel, which it never overfills. Each asks one of the
  -- candidates to join with the artifact and the class given, whose copy was absent before the loop
  -- and is requested after it.
  pub signal-SignalsAll :
      (ns : List ℕ) (left : ℕ) (b : Board)
      → (js : List ControllerAction) × SignalsAll ns left b (signal now hash class ns left b) js
  unfolding signal
  signal-SignalsAll [] left b = (
    [],
    record { queue = sym (append-nil b.directives); few = omega arith; room = λ h. h; asked = tt },
  )
  signal-SignalsAll (n ∷ ns) left b = elim (Bool-cases (left == 0)) [
    | inl done ↦ rw done (
      [],
      record {
        queue = sym (append-nil b.directives);
        few = omega arith;
        room = λ h. h;
        asked = tt;
      },
    )
    | inr more ↦
        let (u, sent) = signal_one now hash class n b in
        let fewer = if sent then left - 1 else left in
        rw more (
          SignalsAll-step n ns left b u (signal now hash class ns fewer u) sent
            (signal_one-Signals now hash class n b) (λ e. cc ((nat_eq.equal_iff left 0).1 e))
            (signal-requested ns fewer u) (signal-SignalsAll ns fewer u))
  ]
