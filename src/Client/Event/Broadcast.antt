-- ===== src/Client/Event/Broadcast.antt =====
-- broadcast_event of code/client/event.c calls the entries of a list, of which each may take itself out.
use headquarter.Base.{
  ℕ, zero, suc, ◌≡◌, ◌<◌, refl, List, [], ◌∷◌, ◌++◌, Bool, true, false, ◌==◌, some, Outcome, ok,
  ◌>>=◌, arith, length, lt→ltb, ==_iff,
}
use headquarter.Common.List.Chain.{IsList, load_next-ok, first}
use headquarter.Common.List.Cut.{Chain-Cut}
use headquarter.Common.List.Remove.{node-ne-null, next-first, node-NotIn}
use headquarter.Common.List.Nodes.{ne-sym}
use headquarter.Client.Event.{
  Registry, event_types, callbacks, checked, invoke, broadcast_loop, broadcast_event,
}

passed : (debug : Bool) → checked debug true ≡ ok tt
passed true = refl
passed false = refl

module _ {Callback Param S Event : Type 0}
    (call : Callback
      → Event
      → Param
      → Registry Callback Param × S
      → Outcome (Registry Callback Param × S))
    (event : Event) where
  abbrev pub World : Type 0
  World = Registry Callback Param × S

  -- One call for each of the entries, in their order.
  abbrev pub invoke_all : List ℕ → World → Outcome World
  invoke_all [] world = ok world
  invoke_all (entry ∷ entries) world = do
    world' ← invoke call event entry world
    invoke_all entries world'

  -- Calling an entry of the list with head `l` succeeds, and the entries behind it stay in the list.
  -- The callback may take out the entry itself or one before it, and put new ones first. `Holds` is
  -- what the callbacks rely on.
  abbrev pub KeepsRest : (World → Type 0) → ℕ → Type 0
  KeepsRest Holds l =
      (world : World) (pre post : List ℕ) (entry : ℕ)
      → Holds world
      → IsList (world.0).links l (pre ++ (entry ∷ post))
      → (world' : World) × (invoke call event entry world ≡ ok world')
        × Holds world'
        × ((pre' : List ℕ) × IsList (world'.0).links l (pre' ++ post))

  loop-invoke_all :
      (Holds : World → Type 0) (l : ℕ) (post pre : List ℕ) (fuel : ℕ) (world : World)
      → KeepsRest Holds l
      → Holds world
      → length post < fuel
      → IsList (world.0).links l (pre ++ post)
      → (world' : World) × (invoke_all post world ≡ ok world')
        × (broadcast_loop call event l (first post l) fuel world ≡ ok (some world'))
  unfolding broadcast_loop
  loop-invoke_all Holds l [] pre zero world keeps holds enough list = absurd (omega arith)
  loop-invoke_all Holds l (entry ∷ post) pre zero world keeps holds enough list =
      absurd (omega arith)
  loop-invoke_all Holds l [] pre (suc fuel) (w, state) keeps holds enough list =
      ((w, state), refl, rw ((==_iff l l).1 refl) refl)
  loop-invoke_all Holds l (entry ∷ post) pre (suc fuel) (w, state) keeps holds enough list =
      let (world1, invoked, holds', (pre', list')) = keeps (w, state) pre post entry holds list in
      let (world', all, looped) =
        loop-invoke_all Holds l post pre' fuel world1 keeps holds' (omega arith) list' in
      let inside = (node-NotIn w.links l pre post entry list).0 in
      let entry_end : (l == entry) ≡ false = ground arith in
      (
        world',
        rw (invoked) all,
        rw
            (
              entry_end,
              load_next-ok w.links entry (node-ne-null w.links l pre post entry list),
              next-first w.links l pre post entry list,
              invoked,
            )
            looped,
      )

  -- Broadcasting an event whose list holds `entries` ends, and does what calling each of them once
  -- does, in their order, also when callbacks take out themselves or earlier entries, or put new ones
  -- first, given that no callback takes out an entry that comes later, and fuel for each entry and the
  -- end of the list.
  pub broadcast_event-invoke_all :
      (Holds : World → Type 0) (debug : Bool) (fuel mgr e : ℕ) (entries : List ℕ) (world : World)
      → e < event_types
      → KeepsRest Holds (callbacks mgr e)
      → Holds world
      → length entries < fuel
      → IsList (world.0).links (callbacks mgr e) entries
      → (world' : World) × (invoke_all entries world ≡ ok world')
        × (broadcast_event call event debug fuel mgr e world ≡ ok (some world'))
  unfolding broadcast_event
  broadcast_event-invoke_all Holds debug fuel mgr e entries (w, state) e_lt keeps holds enough
        list =
      let l = callbacks mgr e in
      let (world', all, looped) =
        loop-invoke_all Holds l entries [] fuel (w, state) keeps holds enough list in
      let cut = Chain-Cut w.links l [] entries list.linked in
      let in_range = lt→ltb e event_types e_lt in
      (
        world',
        all,
        rw
            (
              in_range,
              passed debug,
              load_next-ok w.links l (ne-sym list.distinct.0.0),
              cut.between.0,
            )
            looped,
      )
