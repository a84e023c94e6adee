-- ===== src/Client/Event/Tests.antt =====
-- Two entries at 11 and 12 for the first event of the manager at 10. The callback writes down its
-- parameter, which is the address of the entry, and takes the entry out.
use headquarter.Base.{
  ℕ, ◌≡◌, refl, List, [], ◌∷◌, true, false, ok, some, Outcome, ◌>>=◌, arith, ◌==◌, if◌then◌else◌,
}
use headquarter.Common.List.{Links}
use headquarter.Common.List.Chain.{IsList}
use headquarter.Client.Event.{
  Registry, callbacks, set_registered, events_rem_entry, register_event, un_register_event,
  is_event_subscribed, invoke, broadcast_event,
}
use headquarter.Client.Event.Entries.{events_rem_entry-IsList, un_register_event-register_event}
use headquarter.Client.Event.Broadcast.{World, KeepsRest, invoke_all, broadcast_event-invoke_all}

abbrev links : Links
links = record {
  prev = λ q. if q == 10 then 12 else if q == 11 then 10 else if q == 12 then 11 else 0;
  next = λ q. if q == 10 then 11 else if q == 11 then 12 else if q == 12 then 10 else 0;
}

abbrev sample : Registry (Unit {0}) ℕ
sample = record { links = links; registered = λ q. false; callback = λ q. some tt; param = λ q. q }

two : IsList links (callbacks 10 0) (11 ∷ 12 ∷ [])
two = record {
  linked = ((refl, refl), ((refl, refl), ((refl, refl), tt)));
  distinct = (
    (ground arith, (ground arith, (ground arith, tt))),
    ((ground arith, (ground arith, tt)), ((ground arith, tt), (tt, tt))),
  );
}

abbrev once :
    Unit {0}
    → Unit {0}
    → ℕ
    → Registry (Unit {0}) ℕ × List ℕ
    → Outcome (Registry (Unit {0}) ℕ × List ℕ)
once c event entry (w, seen) = do w' ← events_rem_entry true w 10 entry; ok (w', entry ∷ seen)

abbrev OwnParam : Registry (Unit {0}) ℕ × List ℕ → Type 0
OwnParam (w, seen) = ((p : ℕ) → w.param p ≡ p) × ((p : ℕ) → w.callback p ≡ some tt)

once-KeepsRest : KeepsRest once tt OwnParam 10
unfolding invoke
once-KeepsRest (w, seen) pre post entry holds list =
    let (s, removed, list') =
      events_rem_entry-IsList true w 10 (ground arith) 10 pre post entry list in
    (
      (set_registered w entry false s, entry ∷ seen),
      rw (holds.1 entry, holds.0 entry, removed) refl,
      holds,
      (pre, list'),
    )

broadcast_event-invoke_all_example :
    (world' : World once tt) × (invoke_all once tt (11 ∷ 12 ∷ []) (sample, []) ≡ ok world')
    × (broadcast_event once tt true 3 10 0 (sample, []) ≡ ok (some world'))
broadcast_event-invoke_all_example =
    broadcast_event-invoke_all once tt OwnParam true 3 10 0 (11 ∷ 12 ∷ []) (sample, [])
      (ground arith) once-KeepsRest ((λ p. refl), (λ p. refl)) (ground arith) two

un_register_event-register_event_example :
    (w1 : Registry (Unit {0}) ℕ) × (register_event true sample 10 0 30 ≡ ok (true, w1))
    × IsList w1.links (callbacks 10 0) (30 ∷ 11 ∷ 12 ∷ [])
    × (is_event_subscribed w1.links 10 0 ≡ ok true)
    × ((w2 : Registry (Unit {0}) ℕ) × (un_register_event true w1 10 30 ≡ ok (true, w2))
        × IsList w2.links (callbacks 10 0) (11 ∷ 12 ∷ [])
        × (w2.registered 30 ≡ false))
un_register_event-register_event_example =
    un_register_event-register_event true sample 10 0 30 (11 ∷ 12 ∷ []) tt (ground arith)
      (ground arith) two (ground arith, (ground arith, (ground arith, (ground arith, tt)))) refl
      refl
