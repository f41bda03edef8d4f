-- ===== src/Ports/Conflicts/Complete.antt =====
-- What the conflict scan reports, against the listeners of the host: `conflicts` of
-- backend/app/orchestration/ports.py.
use mathlib.Core.List.Memᴰ
use mathlib.Core.List.{Memᴰ}
use machine_deck.Base.{
  Bool-cases, nat_eq, string_eq, option_beq_iff, filter, String, ◌≡◌, refl, sym, ap, ◌∙◌, ◌≢◌, ◌↔◌,
  inl, inr, Bool, true, some, List, [], ◌∷◌, arith,
}
use machine_deck.Manifest.{PortDefinition}
use machine_deck.Host.{Host}
use machine_deck.Ports.{
  ObservedPort, PortConflict, transport_beq_iff, transport_eq, transport_protocol,
  addresses_conflict,
}
use machine_deck.Ports.Conflicts.{clashes, conflict_of, port_conflicts, declared_conflicts}

-- The listener holds the declared port: the same transport and number, an address that collides,
-- and another owner than the application.
pub record StandsInTheWay (host : Host) (id : String) (declared : PortDefinition)
    (listener : ObservedPort) : Type 0 where
  pub transport : listener.protocol ≡ transport_protocol declared.protocol
  pub number : listener.host_port ≡ declared.host_port
  pub address : addresses_conflict host declared.bind_address listener.bind_address ≡ true
  pub owner : listener.application_id ≢ some id

clashes_sound :
    (host : Host) (id : String) (declared : PortDefinition) (listener : ObservedPort)
    → clashes host id declared listener ≡ true
    → StandsInTheWay host id declared listener
unfolding clashes
clashes_sound host id declared listener h = record {
  transport =
      ground (arith, transport_beq_iff listener.protocol (transport_protocol declared.protocol));
  number = ground arith;
  address = ground arith;
  owner = λ e. ground (arith, option_beq_iff listener.application_id (some id));
}

clashes_complete :
    (host : Host) (id : String) (declared : PortDefinition) (listener : ObservedPort)
    → StandsInTheWay host id declared listener
    → clashes host id declared listener ≡ true
unfolding clashes
clashes_complete host id declared listener h = ground (
  arith,
  transport_beq_iff listener.protocol (transport_protocol declared.protocol),
  option_beq_iff listener.application_id (some id),
  h.owner,
)

mem-filter {ℓ} :
    {A : Type ℓ} (p : A → Bool) {x : A} (xs : List A)
    → Memᴰ x xs
    → p x ≡ true
    → Memᴰ x (filter p xs)
mem-filter p [] m h = elim m [ ]
mem-filter p (y ∷ ys) (Memᴰ.head e) h =
    let keeps : p y ≡ true = ap p (sym e) ∙ h in rw keeps (Memᴰ.head e)
mem-filter p (y ∷ ys) (Memᴰ.tail m) h = elim (Bool-cases (p y)) [
  | inl kept ↦ rw kept (Memᴰ.tail (mem-filter p ys m h))
  | inr dropped ↦ rw dropped (mem-filter p ys m h)
]

of_mem-filter {ℓ} :
    {A : Type ℓ} (p : A → Bool) {x : A} (xs : List A)
    → Memᴰ x (filter p xs)
    → Memᴰ x xs × (p x ≡ true)
of_mem-filter p [] m = absurd (Memᴰ.not-nil m)
of_mem-filter p {x} (y ∷ ys) m = elim (Bool-cases (p y)) [
  | inl kept ↦ elim (Memᴰ.cases_cons (rw kept at m)) [
    | inl e ↦ (Memᴰ.head e, ap p e ∙ kept)
    | inr rest ↦ let (found, passes) = of_mem-filter p ys rest in (Memᴰ.tail found, passes)
  ]
  | inr dropped ↦
      let (found, passes) = of_mem-filter p ys (rw dropped at m) in (Memᴰ.tail found, passes)
]

-- A declared port and a listener in its way, of which the conflict tells.
abbrev pub Reports : Host → String → List PortDefinition → List ObservedPort → PortConflict → Type 0
Reports host id ports listeners c =
    (declared : PortDefinition) × (listener : ObservedPort) × Memᴰ declared ports
    × Memᴰ listener listeners
    × StandsInTheWay host id declared listener
    × (conflict_of declared listener ≡ c)

declared_conflicts_sound :
    (host : Host) (id : String) (ports : List PortDefinition) (listeners : List ObservedPort)
    {c : PortConflict}
    → Memᴰ c (declared_conflicts host id ports listeners)
    → Reports host id ports listeners c
unfolding declared_conflicts
declared_conflicts_sound host id [] listeners m = absurd (Memᴰ.not-nil m)
declared_conflicts_sound host id (declared ∷ ports) listeners m =
    elim (Memᴰ.append_cases (port_conflicts host id declared listeners) m) [
      | inl here ↦
          let (listener, found, e) = Memᴰ.of_map (conflict_of declared) _ here in
          let (listens, clash) = of_mem-filter (clashes host id declared) listeners found in
          (
            declared,
            listener,
            Memᴰ.head refl,
            listens,
            clashes_sound host id declared listener clash,
            e,
          )
      | inr later ↦
          let (d, l, md, ml, way, e) = declared_conflicts_sound host id ports listeners later in
          (d, l, Memᴰ.tail md, ml, way, e)
    ]

declared_conflicts_complete :
    (host : Host) (id : String) (ports : List PortDefinition) (listeners : List ObservedPort)
    (declared : PortDefinition) (listener : ObservedPort)
    → Memᴰ declared ports
    → Memᴰ listener listeners
    → StandsInTheWay host id declared listener
    → Memᴰ (conflict_of declared listener) (declared_conflicts host id ports listeners)
unfolding declared_conflicts
declared_conflicts_complete host id [] listeners declared listener m ml way = elim m [ ]
declared_conflicts_complete host id (d ∷ ports) listeners declared listener (Memᴰ.head e) ml way =
    Memᴰ.append_left {s = port_conflicts host id d listeners} _ (
      rw (← e) (
        Memᴰ.map (conflict_of declared) (
          mem-filter (clashes host id declared) listeners ml
            (clashes_complete host id declared listener way))))
declared_conflicts_complete host id (d ∷ ports) listeners declared listener (Memᴰ.tail m) ml way =
    Memᴰ.append_right _
      (declared_conflicts_complete host id ports listeners declared listener m ml way)

-- A conflict is reported exactly where a listener of the host, after it was attributed to an
-- application, has the transport and the number of a declared port and an address that collides,
-- and is not the application's own.
pub declared_conflicts_iff :
    (host : Host) (id : String) (ports : List PortDefinition) (listeners : List ObservedPort)
    (c : PortConflict)
    → Memᴰ c (declared_conflicts host id ports listeners) ↔ Reports host id ports listeners c
declared_conflicts_iff host id ports listeners c = (
  declared_conflicts_sound host id ports listeners,
  λ (d, l, md, ml, way, e).
      rw (← e) (declared_conflicts_complete host id ports listeners d l md ml way),
)
