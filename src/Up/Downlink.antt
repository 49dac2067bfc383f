-- ===== src/Up/Downlink.antt =====
-- Where the downlink of ue_up.c takes its packets.
use virtuallte.Common.{
  ℕ, suc, ◌+◌, ◌%◌, ◌^◌, ◌≤◌, ◌<◌, ◌≡◌, ◌≢◌, refl, sym, ◌∙◌, Safe, Safe-if, Bool, true, false, not,
  ◌||◌, ◌==◌, List, [], ◌∷◌, length, take, All, arith, Option, none, some, ok, Bool-cases, inl, inr,
  ◌⊎◌,
}
use virtuallte.Up.Invariant.{IsBound}
use virtuallte.Up.State.{UpCtx, Callback, session_at}
use virtuallte.Up.Packets.{
  route, drain, process_downlink, Datagram, Drained, Delivery, Routed, add_delivery, any_used,
  tail_sessions,
}

-- Whom a packet is handed to, by the number that stands for the host's session.
abbrev MayGo : UpCtx → Delivery → Type 0
MayGo up (Delivery.to_host d) = d.psi ≡ up.host_psi
MayGo up (Delivery.to_internal d) =
    (d.psi ≢ up.host_psi)
    × (1 ≤ d.psi)
    × (d.psi ≤ 15)
    × ((session_at up d.psi).used ≡ true)
    × ((session_at up d.psi).host_visible ≡ false)

abbrev MayGo? : UpCtx → Option Delivery → Type 0
MayGo? up none = Unit
MayGo? up (some d) = MayGo up d

-- Routing a packet leaves the table of sessions as it is.
record SameTable (up now : UpCtx) : Type 0 where
  sessions_eq : now.sessions ≡ up.sessions
  host_eq : now.host_psi ≡ up.host_psi

route-SameTable : (up now : UpCtx) (d : Datagram) → SameTable up now → SameTable up (route now d).up
unfolding route
route-SameTable up now d h = ground (arith, h)

route-MayGo : (up : UpCtx) (d : Datagram) → MayGo? up (route up d).delivery
unfolding route
route-MayGo up d = ground arith

same-MayGo : (up now : UpCtx) (d : Option Delivery) → SameTable up now → MayGo? now d → MayGo? up d
same-MayGo up now none s h = tt
same-MayGo up now (some (Delivery.to_host d)) s h = ground (arith, h, s)
same-MayGo up now (some (Delivery.to_internal d)) s h = rw (sym s.sessions_eq, sym s.host_eq) h

add-All :
    (up : UpCtx) (d : Option Delivery) (ds : List Delivery)
    → MayGo? up d
    → All (MayGo up) ds
    → All (MayGo up) (add_delivery d ds)
add-All up none ds h k = k
add-All up (some d) ds h k = (h, k)

drain-MayGo :
    (queue : List Datagram) (up now : UpCtx)
    → SameTable up now
    → All (MayGo up) (drain now queue).deliveries
unfolding drain
drain-MayGo [] up now h = tt
drain-MayGo (d ∷ queue) up now h =
    let cut : Datagram = record d { packet = take 16384 d.packet } in
    let rest = drain-MayGo queue up (route now cut).up (route-SameTable up now cut h) in
    let first = same-MayGo up now _ h (route-MayGo now cut) in
    elim (Bool-cases (length cut.packet == 0)) [
      | inl nothing ↦ rw nothing tt
      | inr packet ↦ rw packet (add-All up (route now cut).delivery _ first rest)
    ]

-- Whom a packet may be handed to. While the host has a session it gets what carries the id of that
-- session, from 1 to 15; while it has none, it gets what carries the id 0, and nothing else. The
-- internal services get what carries the id of another session that is bound and hidden from the
-- host.
abbrev pub Goes : UpCtx → Delivery → Type 0
Goes up (Delivery.to_host d) =
    ((up.has_session ≡ true) × (d.psi ≡ up.host_psi) × (1 ≤ d.psi) × (d.psi ≤ 15))
    ⊎ ((up.has_session ≡ false) × (d.psi ≡ 0))
Goes up (Delivery.to_internal d) =
    (d.psi ≢ up.host_psi)
    × (1 ≤ d.psi)
    × (d.psi ≤ 15)
    × ((session_at up d.psi).used ≡ true)
    × ((session_at up d.psi).host_visible ≡ false)

MayGo-Goes : (up : UpCtx) (v : Delivery) → IsBound up → MayGo up v → Goes up v
MayGo-Goes up (Delivery.to_internal d) h m = m
MayGo-Goes up (Delivery.to_host d) h m = elim (Bool-cases up.has_session) [
  | inl bound ↦
      let (low, high) = h.id_of_session bound in
      inl (bound, m, omega (arith, m, low), omega (arith, m, high))
  | inr unbound ↦ inr (unbound, m ∙ h.no_id unbound)
]

All-Goes : (up : UpCtx) (vs : List Delivery) → IsBound up → All (MayGo up) vs → All (Goes up) vs
All-Goes up [] h ms = tt
All-Goes up (v ∷ vs) h (m, ms) = (MayGo-Goes up v h m, All-Goes up vs h ms)

-- Whatever the RAN sends to a user plane that keeps its invariant, a packet reaches the host only
-- under the id of the host's session, which is from 1 to 15, or, while the host has no session, under
-- the id 0; and it reaches the internal services only under the id of another session, from 1 to 15,
-- that is bound and not visible to the host.
pub process_downlink-Goes :
    (up : UpCtx) (connected : Bool) (queue : List Datagram)
    → IsBound up
    → Safe (λ (r : Drained). All (Goes up) r.deliveries) (process_downlink up connected queue)
unfolding process_downlink
process_downlink-Goes up connected queue h =
    Safe-if _ (not up.has_transport) _ _ (λ _. tt)
      (λ _.
        Safe-if _ (not (up.has_session || any_used (tail_sessions up.sessions)) || not connected) _
          _ (λ _. tt)
          (λ _.
            All-Goes up (drain up queue).deliveries h
              (drain-MayGo queue up up (record { sessions_eq = refl; host_eq = refl }))))

-- A packet that the transport may hold.
abbrev pub IsPacket : Datagram → Type 0
IsPacket d = 1 ≤ length d.packet

-- The deliveries of a drained queue and its drops.
pub record Counts (up : UpCtx) (queue : List Datagram) (r : Drained) : Type 0 where
  pub drops : ℕ
  pub empties : r.queue ≡ []
  pub all : length r.deliveries + drops ≡ length queue
  pub counted : r.up.dl_drops ≡ (up.dl_drops + drops) % 2 ^ 64

length-cut : (p : List ℕ) → 1 ≤ length p → (length (take 16384 p) == 0) ≡ false
length-cut [] h = absurd (omega arith)
length-cut (x ∷ p) h = ground arith

-- One packet: it is delivered, or the counter goes up.
abbrev Counted : UpCtx → Routed → Type 0
Counted up r = elim r.delivery [
  | none ↦ r.up.dl_drops ≡ (up.dl_drops + 1) % 2 ^ 64
  | some d ↦ r.up.dl_drops ≡ up.dl_drops
]

route-Counted : (up : UpCtx) (d : Datagram) → Counted up (route up d)
unfolding route
route-Counted up d = ground arith

route-small : (up : UpCtx) (d : Datagram) → up.dl_drops < 2 ^ 64 → (route up d).up.dl_drops < 2 ^ 64
unfolding route
route-small up d h = ground arith

add_count :
    (up : UpCtx) (r : Routed) (d : Datagram) (queue : List Datagram) (rest : Drained)
    → up.dl_drops < 2 ^ 64
    → Counted up r
    → Counts r.up queue rest
    → Counts up (d ∷ queue) (record rest { deliveries = add_delivery r.delivery rest.deliveries })
add_count up r d queue rest small c k = elim (delivery_cases r.delivery) [
  | inl e ↦
      let first : r.up.dl_drops ≡ (up.dl_drops + 1) % 2 ^ 64 = ground (arith, c, e) in
      record {
        drops = suc k.drops;
        empties = k.empties;
        all = rw e (omega (arith, k.all));
        counted = omega (arith, k.counted, first);
      }
  | inr (v, e) ↦
      let first : r.up.dl_drops ≡ up.dl_drops = ground (arith, c, e) in
      record {
        drops = k.drops;
        empties = k.empties;
        all = rw e (omega (arith, k.all));
        counted = omega (arith, k.counted, first);
      }
]
  where
    delivery_cases : (o : Option Delivery) → (o ≡ none) ⊎ ((v : Delivery) × (o ≡ some v))
    delivery_cases none = inl refl
    delivery_cases (some v) = inr (v, refl)

-- Every packet of a queue is taken off it, and is delivered once or counted as a drop.
pub drain-Counts :
    (queue : List Datagram) (up : UpCtx)
    → All IsPacket queue
    → up.dl_drops < 2 ^ 64
    → Counts up queue (drain up queue)
unfolding drain
drain-Counts [] up h k = record { drops = 0; empties = refl; all = refl; counted = omega arith }
drain-Counts (d ∷ queue) up (h, hs) k =
    let cut : Datagram = record d { packet = take 16384 d.packet } in
    let small : (route up cut).up.dl_drops < 2 ^ 64 = route-small up cut k in
    rw (length-cut d.packet h) (
      add_count up (route up cut) d queue (drain (route up cut).up queue) k (route-Counted up cut)
        (drain-Counts queue (route up cut).up hs small))

zero_delivered :
    (up : UpCtx) (cb : Callback) (packet : List ℕ)
    → IsBound up
    → up.has_session ≡ false
    → up.dl_callback ≡ some cb
    → cb 0 (take 16384 packet) ≡ true
    → 1 ≤ length packet
    → (drain up (record { psi = 0; packet = packet } ∷ [])).deliveries
      ≡ Delivery.to_host (record { psi = 0; packet = take 16384 packet }) ∷ []
unfolding drain route
zero_delivered up cb packet h no_host callback takes some_byte =
    rw (length-cut packet some_byte, h.no_id no_host, callback, takes) refl

-- Without a session of the host, but with one of an internal service, a packet that the RAN sends
-- under the id 0 is handed to the host all the same.
pub id_zero_reaches_host :
    (up : UpCtx) (cb : Callback) (packet : List ℕ)
    → IsBound up
    → up.has_session ≡ false
    → any_used (tail_sessions up.sessions) ≡ true
    → up.has_transport ≡ true
    → up.dl_callback ≡ some cb
    → cb 0 (take 16384 packet) ≡ true
    → 1 ≤ length packet
    → (r : Drained) × (process_downlink up true (record { psi = 0; packet = packet } ∷ []) ≡ ok r)
      × (r.deliveries ≡ Delivery.to_host (record { psi = 0; packet = take 16384 packet }) ∷ [])
unfolding process_downlink
id_zero_reaches_host up cb packet h no_host bound transport callback takes some_byte =
    let d : Datagram = record { psi = 0; packet = packet } in
    (
      drain up (d ∷ []),
      rw (transport, no_host, bound) refl,
      zero_delivered up cb packet h no_host callback takes some_byte,
    )
