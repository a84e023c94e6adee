-- ===== src/Client/Event/Entries.antt =====
-- Registering an entry and taking it out again.
use headquarter.Base.{
  ℕ, ◌≡◌, ◌≢◌, ◌<◌, refl, List, [], ◌∷◌, ◌++◌, Bool, true, false, ◌==◌, some, lt→ltb, lt→not-leb,
  Bool-cases, inl, inr, ok, arith,
}
use headquarter.Common.List.{Links, null}
use headquarter.Common.List.Chain.{IsList, NotIn, load_prev-ok, load_next-ok}
use headquarter.Common.List.Insert.{list_insert_head-IsList}
use headquarter.Common.List.Remove.{
  list_remove-IsList, list_singular-length, node-ne-null, node-next, node-prev, node-NotIn,
}
use headquarter.Common.List.Init.{initialised, list_node_init-initialised, initialised-other}
use headquarter.Client.Event.{
  Registry, event_types, callbacks, set_registered, events_add_entry, events_rem_entry,
  register_event, un_register_event, is_event_subscribed,
}

not_null : (p : ℕ) → p ≢ null → (p == null) ≡ false
not_null p ne = ground arith

set_registered-same :
    {Callback Param : Type 0}
    → (w : Registry Callback Param) (entry : ℕ) (value : Bool) (s : Links)
    → (set_registered w entry value s).registered entry ≡ value
set_registered-same w entry value s = ground arith

module _ {Callback Param : Type 0} (debug : Bool) (w : Registry Callback Param) (mgr : ℕ)
    (mgr_ne : mgr ≢ null) where
  -- An entry that is in a list is taken out of it, and the others keep their order.
  pub events_rem_entry-IsList :
      (l : ℕ) (xs ys : List ℕ) (entry : ℕ)
      → IsList w.links l (xs ++ (entry ∷ ys))
      → (s : Links) × (events_rem_entry debug w mgr entry ≡ ok (set_registered w entry false s))
        × IsList s l (xs ++ ys)
  unfolding events_rem_entry
  events_rem_entry-IsList l xs ys entry list =
      let ne = node-ne-null w.links l xs ys entry list in
      let (s, removed, list') = list_remove-IsList w.links l xs ys entry list in
      let next_ne = node-next w.links l xs ys entry list in
      let prev_ne = node-prev w.links l xs ys entry list in
      elim (Bool-cases debug) [
        | inl e ↦ (
          initialised s entry null,
          rw
              (
                e,
                load_next-ok w.links entry ne,
                load_prev-ok w.links entry ne,
                not_null mgr mgr_ne,
                not_null entry ne,
                not_null (w.links.next entry) next_ne,
                not_null (w.links.prev entry) prev_ne,
                removed,
                list_node_init-initialised s entry ne,
              )
              refl,
          initialised-other s entry null l (xs ++ ys) list' (node-NotIn w.links l xs ys entry list),
        )
        | inr e ↦ (
          s,
          rw (e, load_next-ok w.links entry ne, load_prev-ok w.links entry ne, removed) refl,
          list',
        )
      ]

  pub un_register_event-IsList :
      (l : ℕ) (xs ys : List ℕ) (entry : ℕ)
      → IsList w.links l (xs ++ (entry ∷ ys))
      → w.registered entry ≡ true
      → (s : Links) × (un_register_event debug w mgr entry
          ≡ ok (true, set_registered w entry false s))
        × IsList s l (xs ++ ys)
  unfolding un_register_event
  un_register_event-IsList l xs ys entry list on =
      let (s, removed, list') = events_rem_entry-IsList l xs ys entry list in
      (
        s,
        rw
            (
              not_null entry (node-ne-null w.links l xs ys entry list),
              on,
              not_null (w.links.next entry) (node-next w.links l xs ys entry list),
              not_null (w.links.prev entry) (node-prev w.links l xs ys entry list),
              removed,
            )
            refl,
        list',
      )

  module _ (e entry : ℕ) (xs : List ℕ) (e_lt : e < event_types)
      (list : IsList w.links (callbacks mgr e) xs)
      (fresh : NotIn entry (null ∷ callbacks mgr e ∷ xs)) where
    pub events_add_entry-IsList :
        (c : Callback)
        → w.callback entry ≡ some c
        → (s : Links) × (events_add_entry debug w mgr e entry ≡ ok (set_registered w entry true s))
          × IsList s (callbacks mgr e) (entry ∷ xs)
    unfolding events_add_entry
    events_add_entry-IsList c called =
        let (s, inserted, list') =
          list_insert_head-IsList w.links (callbacks mgr e) xs entry list fresh in
        (
          s,
          elim (Bool-cases debug) [
            | inl d ↦
                rw
                  (
                    d,
                    not_null mgr mgr_ne,
                    not_null entry fresh.0,
                    called,
                    lt→ltb e event_types e_lt,
                    inserted,
                  )
                  refl
            | inr d ↦ rw (d, inserted) refl
          ],
          list',
        )

-- Registering an entry that is not registered, has a callback and is in no list succeeds: the event is
-- subscribed and the entry comes first. Unregistering it then succeeds as well: the list of the event
-- is what it was, and the entry is not registered.
pub un_register_event-register_event :
    {Callback Param : Type 0}
    → (debug : Bool) (w : Registry Callback Param) (mgr e entry : ℕ) (xs : List ℕ) (c : Callback)
    → mgr ≢ null
    → e < event_types
    → IsList w.links (callbacks mgr e) xs
    → NotIn entry (null ∷ callbacks mgr e ∷ xs)
    → w.callback entry ≡ some c
    → w.registered entry ≡ false
    → (w1 : Registry Callback Param) × (register_event debug w mgr e entry ≡ ok (true, w1))
      × IsList w1.links (callbacks mgr e) (entry ∷ xs)
      × (is_event_subscribed w1.links mgr e ≡ ok true)
      × ((w2 : Registry Callback Param) × (un_register_event debug w1 mgr entry ≡ ok (true, w2))
          × IsList w2.links (callbacks mgr e) xs
          × (w2.registered entry ≡ false))
unfolding register_event un_register_event is_event_subscribed
un_register_event-register_event debug w mgr e entry xs c mgr_ne e_lt list fresh called off =
    let (s1, added, list1) =
      events_add_entry-IsList debug w mgr mgr_ne e entry xs e_lt list fresh c called in
    let w1 = set_registered w entry true s1 in
    let (s2, removed, list2) =
      un_register_event-IsList debug w1 mgr mgr_ne (callbacks mgr e) [] xs entry list1
        (set_registered-same w entry true s1) in
    (
      w1,
      rw (lt→not-leb event_types e e_lt, not_null entry fresh.0, off, added) refl,
      list1,
      rw
          (
            lt→ltb e event_types e_lt,
            (list_singular-length s1 (callbacks mgr e) (entry ∷ xs) list1).0,
          )
          (ground arith),
      (set_registered w1 entry false s2, removed, list2, set_registered-same w1 entry false s2),
    )
