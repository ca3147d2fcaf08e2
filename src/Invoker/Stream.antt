-- ===== src/Invoker/Stream.antt =====
-- packages/runtime/src/router_invoker.ts, `toAsyncIterable`: an observable's items wait in a queue for the
-- generator's consumer. The generator is suspended, at its start or at a `yield`, or it awaits a promise,
-- which the observer resolves by `notify`. A turn is a call of the observer, a consumer that asks for
-- the next item, or the engine that goes on behind an `await` whose promise is resolved.
pub mod Delivery
mod Examples
use trpc_proto.Base.{Bool, true, false, List, [], ◌∷◌, ◌++◌, Option, none, some, if◌then◌else◌}

-- An error that is falsy is `none`.
pub data Event (A E : Type 0) : Type 0 where
  next_item : A → Event A E
  error_with : Option E → Event A E
  complete : Event A E

pub data Turn (A E : Type 0) : Type 0 where
  produced : Event A E → Turn A E
  pulled woken : Turn A E

-- Where the generator stands; what it awaits is resolved or not.
pub data Place : Type 0 where
  suspended : Place
  awaiting : (resolved : Bool) → Place

-- The variables of the generator. `notify` resolves the promise of the last `await`: it is not set
-- before the first one, and does nothing once the promise is resolved.
pub record ItemQueue (A E : Type 0) : Type 0 where
  pub pending : List A
  pub done : Bool
  pub failure : Option E
  pub place : Place

-- The generator before and after its end, where it may have thrown.
pub data Generator (A E : Type 0) : Type 0 where
  running : ItemQueue A E → Generator A E
  ended : Option E → Generator A E

abbrev pub subscribed : {A E : Type 0} → ItemQueue A E
subscribed = record { pending = []; done = false; failure = none; place = suspended }

-- `notify?.()`.
unfoldable pub notify : Place → Place
notify suspended = suspended
notify (awaiting resolved) = awaiting true

-- The observer.
unfoldable pub observe : {A E : Type 0} → Event A E → ItemQueue A E → ItemQueue A E
unfolding notify
observe (next_item item) q = record q { pending = q.pending ++ (item ∷ []); place = notify q.place }
observe (error_with error) q = record q { failure = error; done = true; place = notify q.place }
observe complete q = record q { done = true; place = notify q.place }

-- The loop, by what is pending, until it yields, ends or awaits.
abbrev pub pull : {A E : Type 0} → List A → ItemQueue A E → List A × Generator A E
pull [] q =
    if q.done then ([], ended q.failure) else ([], running (record q { place = awaiting false }))
pull (item ∷ items) q = (item ∷ [], running (record q { pending = items; place = suspended }))

-- A consumer that asks while the generator awaits has to wait.
abbrev pub asked : {A E : Type 0} → Place → ItemQueue A E → List A × Generator A E
asked suspended q = pull q.pending q
asked (awaiting resolved) q = ([], running q)

-- Behind the `await`.
abbrev pub resume : {A E : Type 0} → Place → ItemQueue A E → List A × Generator A E
resume suspended q = ([], running q)
resume (awaiting false) q = ([], running q)
resume (awaiting true) q = pull q.pending q

-- What a turn yields; an observable that is unsubscribed is not heard any more.
unfoldable pub turn : {A E : Type 0} → Turn A E → Generator A E → List A × Generator A E
unfolding observe
turn t (ended failure) = ([], ended failure)
turn (produced event) (running q) = ([], running (observe event q))
turn pulled (running q) = asked q.place q
turn woken (running q) = resume q.place q

unfoldable pub consume : {A E : Type 0} → List (Turn A E) → Generator A E → List A × Generator A E
unfolding turn
consume [] g = ([], g)
consume (t ∷ turns) g =
    let first = turn t g in let rest = consume turns first.1 in (first.0 ++ rest.0, rest.1)
