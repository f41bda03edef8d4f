-- ===== src/Ports/Views/Account.antt =====
-- The views of an application beside its declarations and its observations: `ports` of
-- backend/app/orchestration/ports.py.
use mathlib.Core.List.Permᴰ
use mathlib.Core.List.{Permᴰ}
use machine_deck.Base.{
  Bool-cases, is_some, or_else, All, All-append, ◌≡◌, refl, ap, ◌∙◌, ◌≢◌, inl, inr, Bool, true,
  false, Option, none, some, List, [], ◌∷◌, ◌++◌, map, arith,
}
use machine_deck.Manifest.{PortDefinition}
use machine_deck.Status.{ApplicationStatus}
use machine_deck.Ports.{ObservedPort, PortConflict}
use machine_deck.Ports.Views.{
  PortStatus, listening, undeclared, PortView, matches, keep_before, take_match, unmatched_status,
  declared_view, left_over, declared_views, undeclared_view, port_views,
}

-- the declarations and the observations that a list of views shows, in its order
abbrev pub declarations : List PortView → List PortDefinition
declarations [] = []
declarations (v ∷ vs) =
    let rest = declarations vs in elim v.declared [ none ↦ rest | some d ↦ d ∷ rest ]

abbrev pub observations : List PortView → List ObservedPort
observations [] = []
observations (v ∷ vs) =
    let rest = observations vs in elim v.observed [ none ↦ rest | some o ↦ o ∷ rest ]

-- What a search for a match finds, and that it leaves the others.
abbrev IsSearch :
    (ObservedPort → Bool) → List ObservedPort → Option (ObservedPort × List ObservedPort) → Type 0
IsSearch p xs none = All (λ x. p x ≡ false) xs
IsSearch p xs (some (found, rest)) = Permᴰ xs (found ∷ rest) × (p found ≡ true)

keep_before-IsSearch :
    (p : ObservedPort → Bool) (x : ObservedPort) (xs : List ObservedPort)
    (o : Option (ObservedPort × List ObservedPort))
    → p x ≡ false
    → IsSearch p xs o
    → IsSearch p (x ∷ xs) (keep_before x o)
unfolding keep_before
keep_before-IsSearch p x xs none e h = (e, h)
keep_before-IsSearch p x xs (some (found, rest)) e (perm, passes) =
    (Permᴰ.trans (Permᴰ.cons refl perm) (Permᴰ.swap refl refl), passes)

take_match-IsSearch :
    (p : ObservedPort → Bool) (xs : List ObservedPort) → IsSearch p xs (take_match p xs)
unfolding take_match
take_match-IsSearch p [] = tt
take_match-IsSearch p (x ∷ xs) = elim (Bool-cases (p x)) [
  | inl e ↦ rw e (Permᴰ.refl (x ∷ xs), e)
  | inr e ↦ rw e (keep_before-IsSearch p x xs (take_match p xs) e (take_match-IsSearch p xs))
]

observed_once :
    (unmatched : PortDefinition → PortStatus) (declared : PortDefinition)
    (remaining : List ObservedPort) (o : Option (ObservedPort × List ObservedPort))
    (views : List PortView) (left : List ObservedPort)
    → IsSearch (matches declared) remaining o
    → Permᴰ (left_over remaining o) (observations views ++ left)
    → Permᴰ remaining (observations (declared_view unmatched declared o ∷ views) ++ left)
unfolding declared_view left_over
observed_once unmatched declared remaining none views left h perm = perm
observed_once unmatched declared remaining (some (found, rest)) views left (swapped, _) perm =
    Permᴰ.trans swapped (Permᴰ.cons refl perm)

declared_views-observations :
    (unmatched : PortDefinition → PortStatus) (ports : List PortDefinition)
    (remaining : List ObservedPort)
    → let (views, left) = declared_views unmatched ports remaining in
      Permᴰ remaining (observations views ++ left)
unfolding declared_views
declared_views-observations unmatched [] remaining = Permᴰ.refl remaining
declared_views-observations unmatched (declared ∷ ports) remaining =
    let found = take_match (matches declared) remaining in
    let (views, left) = declared_views unmatched ports (left_over remaining found) in
    observed_once unmatched declared remaining found views left
      (take_match-IsSearch (matches declared) remaining)
      (declared_views-observations unmatched ports (left_over remaining found))

observations-append :
    (vs : List PortView) (left : List ObservedPort)
    → observations (vs ++ map undeclared_view left) ≡ observations vs ++ left
unfolding undeclared_view
observations-append [] [] = refl
observations-append [] (x ∷ left) = ap (λ r. x ∷ r) (observations-append [] left)
observations-append (v ∷ vs) left = ground (arith, observations-append vs left)

declarations-append :
    (vs : List PortView) (left : List ObservedPort)
    → declarations (vs ++ map undeclared_view left) ≡ declarations vs
unfolding undeclared_view
declarations-append [] [] = refl
declarations-append [] (x ∷ left) = declarations-append [] left
declarations-append (v ∷ vs) left = ground (arith, declarations-append vs left)

declared_views-declarations :
    (unmatched : PortDefinition → PortStatus) (ports : List PortDefinition)
    (remaining : List ObservedPort)
    → declarations (declared_views unmatched ports remaining).0 ≡ ports
unfolding declared_views
declared_views-declarations unmatched [] remaining = refl
declared_views-declarations unmatched (declared ∷ ports) remaining = ground (
  arith,
  declared_views-declarations unmatched ports
      (left_over remaining (take_match (matches declared) remaining)),
)

-- The views show the declared ports in their order, each once, and the observed ports, each as often
-- as it was observed, whatever was found and whichever scan failed.
pub port_views-account :
    (ports : List PortDefinition) (observed : Option (List ObservedPort))
    (state : ApplicationStatus) (found : Option (List PortConflict))
    → let views = port_views ports observed state found in
      (declarations views ≡ ports) × Permᴰ (or_else observed []) (observations views)
unfolding port_views
port_views-account ports observed state found =
    let unmatched = unmatched_status (or_else found []) (is_some observed) (is_some found) state in
    let (views, left) = declared_views unmatched ports (or_else observed []) in
    (
      declarations-append views left
          ∙ declared_views-declarations unmatched ports (or_else observed []),
      rw (observations-append views left)
          (declared_views-observations unmatched ports (or_else observed [])),
    )

abbrev IsHonestOf : Option PortDefinition → Option ObservedPort → PortStatus → Type 0
IsHonestOf (some d) (some o) status = (status ≡ listening) × (matches d o ≡ true)
IsHonestOf (some d) none status = (status ≢ listening) × (status ≢ undeclared)
IsHonestOf none (some o) status = status ≡ undeclared
IsHonestOf none none status = ⊥

-- What a view's status says of its two parts.
abbrev pub IsHonest : PortView → Type 0
IsHonest view = IsHonestOf view.declared view.observed view.status

declared_view-IsHonest :
    (unmatched : PortDefinition → PortStatus) (declared : PortDefinition)
    (remaining : List ObservedPort) (o : Option (ObservedPort × List ObservedPort))
    → unmatched declared ≢ listening
    → unmatched declared ≢ undeclared
    → IsSearch (matches declared) remaining o
    → IsHonest (declared_view unmatched declared o)
unfolding declared_view
declared_view-IsHonest unmatched declared remaining none l u h = (l, u)
declared_view-IsHonest unmatched declared remaining (some (found, rest)) l u (_, passes) =
    (refl, passes)

declared_views-IsHonest :
    (unmatched : PortDefinition → PortStatus) (ports : List PortDefinition)
    (remaining : List ObservedPort)
    → ((d : PortDefinition) → (unmatched d ≢ listening) × (unmatched d ≢ undeclared))
    → All IsHonest (declared_views unmatched ports remaining).0
unfolding declared_views
declared_views-IsHonest unmatched [] remaining h = tt
declared_views-IsHonest unmatched (declared ∷ ports) remaining h =
    let found = take_match (matches declared) remaining in
    (
      declared_view-IsHonest unmatched declared remaining found (h declared).0 (h declared).1
          (take_match-IsSearch (matches declared) remaining),
      declared_views-IsHonest unmatched ports (left_over remaining found) h,
    )

undeclared-IsHonest : (left : List ObservedPort) → All IsHonest (map undeclared_view left)
unfolding undeclared_view
undeclared-IsHonest [] = tt
undeclared-IsHonest (x ∷ left) = (refl, undeclared-IsHonest left)

unmatched_status-ne :
    (found : List PortConflict) (discovered scanned : Bool) (state : ApplicationStatus)
    (d : PortDefinition)
    → (unmatched_status found discovered scanned state d ≢ listening)
      × (unmatched_status found discovered scanned state d ≢ undeclared)
unfolding unmatched_status
unmatched_status-ne found discovered scanned state d = (λ h. ground arith, λ h. ground arith)

-- Each view is LISTENING exactly where it shows a declaration with an observation that matches it,
-- UNDECLARED exactly where it shows an observation alone, and shows one of the two at least.
pub port_views-IsHonest :
    (ports : List PortDefinition) (observed : Option (List ObservedPort))
    (state : ApplicationStatus) (found : Option (List PortConflict))
    → All IsHonest (port_views ports observed state found)
unfolding port_views
port_views-IsHonest ports observed state found =
    let unmatched = unmatched_status (or_else found []) (is_some observed) (is_some found) state in
    let (views, left) = declared_views unmatched ports (or_else observed []) in
    All-append IsHonest views (map undeclared_view left)
      (declared_views-IsHonest unmatched ports (or_else observed [])
        (unmatched_status-ne (or_else found []) (is_some observed) (is_some found) state))
      (undeclared-IsHonest left)
