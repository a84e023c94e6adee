-- ===== src/Client/Event.antt =====
-- code/client/event.c, with the entries of include/client/event.h: for every type of event, a list of
-- the entries that are called when it happens. An entry is known by the address of its node. With
-- `debug` the assertions are compiled in, and events_rem_entry clears the node.
pub mod Entries
pub mod Broadcast
mod Tests
use headquarter.Base.{
  ℕ, zero, suc, ◌+◌, ◌*◌, Bool, true, false, not, ◌&&◌, ◌||◌, ◌==◌, ltb, leb, if◌then◌else◌,
}
use headquarter.Base.{Option, none, some, Outcome, ok, aborted, ◌>>=◌}
use headquarter.Common.List.{
  Links, null, load_next, load_prev, list_init, list_node_init, list_empty, list_end, list_first,
  list_next, list_insert_head, list_remove,
}

-- `EventType_Count`
abbrev pub event_types : ℕ
event_types = 21

-- `&mgr->callbacks[e]`
abbrev pub callbacks : ℕ → ℕ → ℕ
callbacks mgr e = mgr + 16 * e

init_from : Links → ℕ → ℕ → ℕ → Outcome Links
init_from s mgr i zero = ok s
init_from s mgr i (suc left) = do s1 ← list_init s (callbacks mgr i); init_from s1 mgr (suc i) left

unfoldable pub init_event_manager : Links → ℕ → Outcome Links
unfolding init_from
init_event_manager s mgr = init_from s mgr 0 event_types

unfoldable pub is_event_subscribed : Links → ℕ → ℕ → Outcome Bool
is_event_subscribed s mgr e =
    let subscribed = (do empty ← list_empty s (callbacks mgr e); ok (not empty)) in
    if ltb e event_types then subscribed else ok false

-- An assertion: a program that is built without them goes on.
abbrev pub checked : Bool → Bool → Outcome (Unit {0})
checked debug holds = if debug && not holds then aborted else ok tt

-- The links of all lists, and the fields of `CallbackEntry` for every entry.
pub record Registry (Callback Param : Type 0) : Type 0 where
  pub links : Links
  pub registered : ℕ → Bool
  pub callback : ℕ → Option Callback
  pub param : ℕ → Param

abbrev pub is_some : {Callback : Type 0} → Option Callback → Bool
is_some none = false
is_some (some c) = true

module _ {Callback Param : Type 0} where
  abbrev pub set_registered : Registry Callback Param → ℕ → Bool → Links → Registry Callback Param
  set_registered w entry value s = record w {
    links = s;
    registered = λ q. if q == entry then value else w.registered q;
  }

  unfoldable pub events_add_entry :
      Bool → Registry Callback Param → ℕ → ℕ → ℕ → Outcome (Registry Callback Param)
  events_add_entry debug w mgr e entry = do
    present ← checked debug (not (mgr == null) && not (entry == null) && is_some (w.callback entry))
    in_range ← checked debug (ltb e event_types)
    s ← list_insert_head w.links (callbacks mgr e) entry
    ok (set_registered w entry true s)

  unfoldable pub events_rem_entry :
      Bool → Registry Callback Param → ℕ → ℕ → Outcome (Registry Callback Param)
  events_rem_entry debug w mgr entry = do
    present ← checked debug (not (mgr == null) && not (entry == null))
    next ← load_next w.links entry
    prev ← load_prev w.links entry
    linked ← checked debug (not (next == null) && not (prev == null))
    s ← list_remove w.links entry
    s' ← (if debug then list_node_init s entry else ok s)
    ok (set_registered w entry false s')

  -- `RegisterEvent` and `UnRegisterEvent` of code/client/api.c; the mutex makes each one step.
  unfoldable pub register_event :
      Bool → Registry Callback Param → ℕ → ℕ → ℕ → Outcome (Bool × Registry Callback Param)
  register_event debug w mgr e entry =
      let added = (do w' ← events_add_entry debug w mgr e entry; ok (true, w')) in
      if leb event_types e
      then ok (false, w)
      else if entry == null || w.registered entry
      then ok (false, w)
      else added

  unfoldable pub un_register_event :
      Bool → Registry Callback Param → ℕ → ℕ → Outcome (Bool × Registry Callback Param)
  un_register_event debug w mgr entry =
      let linked = not (w.links.prev entry == null) && not (w.links.next entry == null) in
      let removed = (do w' ← events_rem_entry debug w mgr entry; ok (true, w')) in
      if entry == null
      then ok (false, w)
      else if not (w.registered entry)
      then ok (true, w)
      else if linked
      then removed
      else ok (false, w)

  -- `call` runs a callback on its event and parameter; it may change the entries and a state `S`.
  module _ {S : Type 0} {Event : Type 0}
      (call : Callback
        → Event
        → Param
        → Registry Callback Param × S
        → Outcome (Registry Callback Param × S))
      (event : Event) where
    unfoldable pub invoke : ℕ → Registry Callback Param × S → Outcome (Registry Callback Param × S)
    invoke entry (w, state) = elim (w.callback entry) [
      | none ↦ ok (w, state)
      | some c ↦ call c event (w.param entry) (w, state)
    ]

    -- `none` when there are more nodes than fuel.
    broadcast_loop :
        ℕ → ℕ → ℕ → Registry Callback Param × S → Outcome (Option (Registry Callback Param × S))
    broadcast_loop l it zero (w, state) = ok none
    broadcast_loop l it (suc fuel) (w, state) =
        let round = (do
          next ← list_next w.links it
          world ← invoke it (w, state)
          broadcast_loop l next fuel world) in
        if list_end l it then ok (some (w, state)) else round

    unfoldable pub broadcast_event :
        Bool
        → ℕ
        → ℕ
        → ℕ
        → Registry Callback Param × S
        → Outcome (Option (Registry Callback Param × S))
    unfolding broadcast_loop
    broadcast_event debug fuel mgr e (w, state) = do
      in_range ← checked debug (ltb e event_types)
      it ← list_first w.links (callbacks mgr e)
      broadcast_loop (callbacks mgr e) it fuel (w, state)
