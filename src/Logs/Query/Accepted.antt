-- ===== src/Logs/Query/Accepted.antt =====
-- What an accepted query asks for.
use machine_deck.Base.{
  nat_eq, string_eq, or_else, length, any, all, contains, Outcome, ok, ℕ, zero, suc, ◌≤◌, ◌≡◌, refl,
  sym, Bool, true, false, not, Option, none, some, List, [], ◌∷◌, arith,
}
use machine_deck.Base.Results.{bind-cases, guarded-eq-ok}
use machine_deck.Text.{Text, codes, text_eq, split}
use machine_deck.Logs.Adapters.{safe_cursor}
use machine_deck.Logs.Service.{ApplicationLogError, query_invalid, is_service, parse_service_filter}
use machine_deck.Logs.Query.{
  Integer, positive, negative, LogQuery, QueryParams, param, parse_bool, int_of, history_limit,
  allowed_parameters, parse_since, parse_cursor, parse_query,
}

-- What the readers may rely on.
abbrev pub IsServable : LogQuery → Type 0
IsServable query =
    (query.history ≤ 5000)
    × (safe_cursor query.cursor ≡ ok query.cursor)
    × (length query.services ≤ 32)
    × (all is_service query.services ≡ true)

history_limit-bound : (read : Option Integer) {n : ℕ} → history_limit read ≡ ok n → n ≤ 5000
unfolding history_limit
history_limit-bound none h = ground arith
history_limit-bound (some (positive n)) h = ground arith
history_limit-bound (some (negative zero)) h = ground arith
history_limit-bound (some (negative (suc n))) h = ground arith

parse_cursor-safe_cursor :
    (given : Option Text) {cursor : Option Text}
    → parse_cursor given ≡ ok cursor
    → safe_cursor cursor ≡ ok cursor
unfolding parse_cursor safe_cursor
parse_cursor-safe_cursor none h = ground arith
parse_cursor-safe_cursor (some given) h = ground arith

any-all :
    {A : Type 0} (p : A → Bool) (xs : List A) → any (λ x. not (p x)) xs ≡ false → all p xs ≡ true
any-all p [] h = refl
any-all p (x ∷ xs) h = ground (arith, any-all p xs)

parse_service_filter-valid :
    (given : Option Text) {services : List Text}
    → parse_service_filter given ≡ ok services
    → (length services ≤ 32) × (all is_service services ≡ true)
unfolding parse_service_filter
parse_service_filter-valid none h = ground arith
parse_service_filter-valid (some []) h = ground arith
parse_service_filter-valid (some (c ∷ value)) h =
    ground (arith, any-all is_service (split b',' (c ∷ value)))

servable :
    (made : LogQuery) {query : LogQuery}
    → IsServable made
    → ◌≡◌ {A = Outcome ApplicationLogError LogQuery} (ok made) (ok query)
    → IsServable query
servable made {query = query} i h = let e : made ≡ query = ground arith in rw (sym e) i

-- A query that is accepted asks for at most 5000 events of the history, its cursor is one that the
-- readers accept as well, and its filter names at most 32 services, each of the form of a service.
pub parse_query-IsServable :
    (from_iso : Text → Option (ℕ × Bool)) (params : QueryParams) {query : LogQuery}
    → parse_query from_iso params ≡ ok query
    → IsServable query
unfolding parse_query
parse_query-IsServable from_iso params {query = query} h =
    bind-cases (history_limit (int_of (or_else (param params (codes "history")) (codes "200")))) _
      (guarded-eq-ok (any (λ item. not (contains allowed_parameters item.0)) params) query_invalid _
        h)
      (λ limit hl h1.
        bind-cases (parse_bool (param params (codes "follow")) true) _ h1 (λ should_follow _ h2.
          bind-cases (parse_since from_iso (param params (codes "since"))) _ h2 (λ since _ h3.
            bind-cases (parse_cursor (param params (codes "cursor"))) _ h3 (λ cursor hc h4.
              bind-cases (parse_service_filter (param params (codes "services"))) _ h4
                (λ services hs h5.
                  let (few, valid) =
                    parse_service_filter-valid (param params (codes "services")) hs in
                  servable
                    (record {
                      history = limit;
                      should_follow = should_follow;
                      since = since;
                      cursor = cursor;
                      services = services;
                    })
                    (
                      history_limit-bound
                          (int_of (or_else (param params (codes "history")) (codes "200"))) hl,
                      parse_cursor-safe_cursor (param params (codes "cursor")) hc,
                      few,
                      valid,
                    )
                    h5)))))
