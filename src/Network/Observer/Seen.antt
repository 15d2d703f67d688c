-- ===== src/Network/Observer/Seen.antt =====
-- Which servers the observer reports: backend/internal/network/observer.go.
use helboot.Prelude.{
  ℕ, ◌-◌, String, ◌≡◌, refl, ap, sym, ◌∙◌, Bool, false, not, ◌&&◌, List, [], ◌∷◌, Option, none,
  some, arith, ltb, ◌==◌, String_eq, if◌then◌else◌, first, keep, Bool-cases, Option-cases, inl, inr,
}
use helboot.Time.{Time}
use helboot.Sorting.Laws.{IsSorted, sort_by-IsSorted, first-sort_by}
use helboot.Network.Ip.{Ip}
use helboot.Network.Message.{Request}
use helboot.Network.Observer.{
  ServerSighting, Observer, write_sighting, accepted_server, sight, observe, recent,
  sightings_within,
}

abbrev pub row_of : String → List ServerSighting → Option ServerSighting
row_of ip rows = first (λ r. r.0 == ip) rows

-- Each address stands in one row.
abbrev pub IsUnique : List ServerSighting → Type 0
IsUnique [] = Unit
IsUnique (r ∷ rows) = (row_of r.0 rows ≡ none) × IsUnique rows

row_of-keep-none :
    (p : ServerSighting → Bool) (ip : String) (rows : List ServerSighting)
    → row_of ip rows ≡ none
    → row_of ip (keep p rows) ≡ none
row_of-keep-none p ip [] h = refl
row_of-keep-none p ip (r ∷ rows) h = ground (arith, row_of-keep-none p ip rows)

IsUnique-keep :
    (p : ServerSighting → Bool) (rows : List ServerSighting)
    → IsUnique rows
    → IsUnique (keep p rows)
IsUnique-keep p [] h = tt
IsUnique-keep p (r ∷ rows) (n, h) = elim (Bool-cases (p r)) [
  | inl e ↦ rw e (row_of-keep-none p r.0 rows n, IsUnique-keep p rows h)
  | inr e ↦ rw e (IsUnique-keep p rows h)
]

-- The row of an address among those that pass a test.
abbrev only_if : (ServerSighting → Bool) → Option ServerSighting → Option ServerSighting
only_if p none = none
only_if p (some r) = if p r then some r else none

row_of-keep :
    (p : ServerSighting → Bool) (ip : String) (rows : List ServerSighting)
    → IsUnique rows
    → row_of ip (keep p rows) ≡ only_if p (row_of ip rows)
row_of-keep p ip [] h = refl
row_of-keep p ip (r ∷ rows) (n, h) = elim (Bool-cases (r.0 == ip)) [
  | inl e ↦ elim (Bool-cases (p r)) [
    | inl k ↦ rw (k, e, k) refl
    | inr k ↦
        rw (k, e, k)
          (row_of-keep-none p ip rows
            (ap (λ a. row_of a rows) (sym ((String_eq.equals_iff r.0 ip).0 e)) ∙ n))
  ]
  | inr e ↦ elim (Bool-cases (p r)) [
    | inl k ↦ rw (k, e) (row_of-keep p ip rows h)
    | inr k ↦ rw (k, e) (row_of-keep p ip rows h)
  ]
]

row_of-removed :
    (ip : String) (rows : List ServerSighting) → row_of ip (keep (λ r. not (r.0 == ip)) rows) ≡ none
row_of-removed ip [] = refl
row_of-removed ip (r ∷ rows) = ground (arith, row_of-removed ip rows)

row_of-others :
    (ip other : String) (rows : List ServerSighting)
    → (ip == other) ≡ false
    → row_of other (keep (λ r. not (r.0 == ip)) rows) ≡ row_of other rows
row_of-others ip other [] h = refl
row_of-others ip other (r ∷ rows) h =
    let same = (String_eq.equals_iff r.0 ip).0 in
    let same' = (String_eq.equals_iff r.0 other).0 in
    let same'' = (String_eq.equals_iff ip other).1 in ground (arith, row_of-others ip other rows)

IsUnique-write :
    (ip : String) (now : Time) (rows : List ServerSighting)
    → IsUnique rows
    → IsUnique (write_sighting ip now rows)
unfolding write_sighting
IsUnique-write ip now rows h = (row_of-removed ip rows, IsUnique-keep (λ r. not (r.0 == ip)) rows h)

row_of-write :
    (ip other : String) (now : Time) (rows : List ServerSighting)
    → row_of other (write_sighting ip now rows)
      ≡ (if ip == other then some (ip, now) else row_of other rows)
unfolding write_sighting
row_of-write ip other now rows = elim (Bool-cases (ip == other)) [
  | inl e ↦ rw e refl
  | inr e ↦ rw e (row_of-others ip other rows e)
]

module _ (ip_text : Ip → String) where
  abbrev pub observe_all : Observer → List (Request × Time) → Observer
  observe_all o [] = o
  observe_all o ((req, now) ∷ events) = observe_all (observe ip_text o req now) events

  -- Whether a message shows the server, which is not HELBOOT itself.
  abbrev pub shows : String → String → Request → Bool
  shows self ip req = elim (accepted_server ip_text req) [
    | none ↦ false
    | some server ↦ server == ip && not (server == self)
  ]

  -- When the server was shown last.
  abbrev pub last_shown : String → String → List (Request × Time) → Option Time
  last_shown self ip [] = none
  last_shown self ip ((req, now) ∷ events) = elim (last_shown self ip events) [
    | some later ↦ some later
    | none ↦ if shows self ip req then some now else none
  ]

  abbrev pub at_instant : String → Option Time → Option ServerSighting
  at_instant ip none = none
  at_instant ip (some t) = some (ip, t)

  abbrev newer : Option ServerSighting → Option ServerSighting → Option ServerSighting
  newer (some r) old = some r
  newer none old = old

  record Tracks (o o' : Observer) (events : List (Request × Time)) : Type 0 where
    self : o'.self_ip ≡ o.self_ip
    unique : IsUnique o'.sightings
    rows :
        (ip : String)
        → row_of ip o'.sightings
          ≡ newer (at_instant ip (last_shown o.self_ip ip events)) (row_of ip o.sightings)

  sight-Tracks :
      (o : Observer) (req : Request) (now : Time)
      → IsUnique o.sightings
      → Tracks o (observe ip_text o req now) ((req, now) ∷ [])
  unfolding observe
  sight-Tracks o req now u = elim (Option-cases (accepted_server ip_text req)) [
    | inl n ↦ rw (observe, n, sight) (record { self = refl; unique = u; rows = λ ip. ground arith })
    | inr (server, a) ↦ elim (Bool-cases (server == o.self_ip)) [
      | inl own ↦
          rw (observe, a, sight, own)
            (record { self = refl; unique = u; rows = λ ip. ground arith })
      | inr foreign ↦
          rw (observe, a, sight, foreign)
            (record {
              self = refl;
              unique = IsUnique-write server now o.sightings u;
              rows = λ ip.
                  let same = (String_eq.equals_iff server ip).0 in
                  ground (arith, row_of-write server ip now o.sightings);
            })
    ]
  ]

  observe_all-Tracks :
      (o : Observer) (events : List (Request × Time))
      → IsUnique o.sightings
      → Tracks o (observe_all o events) events
  observe_all-Tracks o [] u = record { self = refl; unique = u; rows = λ ip. refl }
  observe_all-Tracks o ((req, now) ∷ events) u =
      let step = sight-Tracks o req now u in
      let rest = observe_all-Tracks (observe ip_text o req now) events step.unique in
      record {
        self = rest.self ∙ step.self;
        unique = rest.unique;
        rows = λ ip.
            let own = step.self in
            let later =
              rest.rows ip
              ∙ ap
                  (λ self.
                    newer (at_instant ip (last_shown self ip events))
                      (row_of ip (observe ip_text o req now).sightings))
                  own in
            let first = step.rows ip in ground arith;
      }

  abbrev pub within : Time → ℕ → Option Time → Option Time
  within now window none = none
  within now window (some t) = if ltb t (now - window) then none else some t

  -- After any messages to an observer that has seen none, the report is sorted by address, and it
  -- gives for each address the instant of the last message that accepted an offer of that server,
  -- if there is one within the window and the server is not HELBOOT, and nothing otherwise.
  pub sightings_within-Seen :
      (self : String) (events : List (Request × Time)) (now : Time) (window : ℕ)
      → let o = observe_all (record { self_ip = self; sightings = [] }) events in
        let report = (sightings_within o now window).0 in
        IsSorted (λ r. r.0) report
        × ((ip : String)
            → row_of ip report ≡ at_instant ip (within now window (last_shown self ip events)))
  unfolding sightings_within recent
  sightings_within-Seen self events now window =
      let start : Observer = record { self_ip = self; sightings = [] } in
      let tracks = observe_all-Tracks start events tt in
      let o = observe_all start events in
      (
        sort_by-IsSorted (λ r. r.0) (recent o now window),
        λ ip. ground (
          arith,
          first-sort_by (λ r. r.0) (recent o now window) ip,
          row_of-keep (λ r. not (ltb r.1 (now - window))) ip o.sightings tracks.unique,
          tracks.rows ip,
        ),
      )
