-- ===== src/Invoker/Stream/Delivery.antt =====
-- The consumer gets every item, and then the error.
use trpc_proto.Base.{
  ℕ, zero, suc, ◌+◌, ◌<◌, ◌≡◌, refl, Bool, true, false, List, [], ◌∷◌, ◌++◌, Option, none, arith,
  length, length-append, append_assoc, append-nil,
}
use trpc_proto.Invoker.Stream.{
  next_item, error_with, complete, Turn, produced, pulled, woken, Place, suspended, awaiting,
  Generator, notify, running, ended, subscribed, observe, turn, consume,
}

-- What the generator awaits is resolved, unless nothing has happened since.
abbrev Wakes : {A : Type 0} → Place → List A → Bool → Type 0
Wakes suspended pending done = Unit
Wakes (awaiting true) pending done = Unit
Wakes (awaiting false) pending done = (pending ≡ []) × (done ≡ false)

notify-Wakes :
    {A : Type 0} (place : Place) (pending : List A) (done : Bool)
    → Wakes (notify place) pending done
unfolding notify
notify-Wakes suspended pending done = tt
notify-Wakes (awaiting resolved) pending done = tt

module _ {A E : Type 0} where
  abbrev pub items : List (Turn A E) → List A
  items [] = []
  items (produced (next_item item) ∷ turns) = item ∷ items turns
  items (produced (error_with e) ∷ turns) = items turns
  items (produced complete ∷ turns) = items turns
  items (pulled ∷ turns) = items turns
  items (woken ∷ turns) = items turns

  -- The error that the observable ends with, if it is truthy.
  abbrev pub failure_of : Option E → List (Turn A E) → Option E
  failure_of f [] = f
  failure_of f (produced (next_item item) ∷ turns) = failure_of f turns
  failure_of f (produced (error_with e) ∷ turns) = failure_of e turns
  failure_of f (produced complete ∷ turns) = failure_of f turns
  failure_of f (pulled ∷ turns) = failure_of f turns
  failure_of f (woken ∷ turns) = failure_of f turns

  -- An observable calls `error` or `complete` once, and nothing after it.
  abbrev pub Ends : Bool → List (Turn A E) → Type 0
  Ends true [] = Unit
  Ends false [] = ⊥
  Ends done (pulled ∷ turns) = Ends done turns
  Ends done (woken ∷ turns) = Ends done turns
  Ends true (produced event ∷ turns) = ⊥
  Ends false (produced (next_item item) ∷ turns) = Ends false turns
  Ends false (produced (error_with e) ∷ turns) = Ends true turns
  Ends false (produced complete ∷ turns) = Ends true turns

  -- The engine goes on where it can, and the consumer asks for the next item.
  abbrev pub rounds : ℕ → List (Turn A E)
  rounds zero = []
  rounds (suc n) = woken ∷ pulled ∷ rounds n

  consume-ended : (turns : List (Turn A E)) (f : Option E) → consume turns (ended f) ≡ ([], ended f)
  unfolding consume turn
  consume-ended [] f = refl
  consume-ended (t ∷ turns) f = rw (consume-ended turns f) refl

  -- After the end of the observable there are pulls only.
  Ends-items : (turns : List (Turn A E)) → Ends true turns → items turns ≡ []
  Ends-items [] h = refl
  Ends-items (pulled ∷ turns) h = Ends-items turns h
  Ends-items (woken ∷ turns) h = Ends-items turns h
  Ends-items (produced event ∷ turns) h = absurd h

  Ends-failure_of :
      (f : Option E) (turns : List (Turn A E)) → Ends true turns → failure_of f turns ≡ f
  Ends-failure_of f [] h = refl
  Ends-failure_of f (pulled ∷ turns) h = Ends-failure_of f turns h
  Ends-failure_of f (woken ∷ turns) h = Ends-failure_of f turns h
  Ends-failure_of f (produced event ∷ turns) h = absurd h

  abbrev queue : List A → Bool → Option E → Place → Generator A E
  queue pending done f place =
      running (record { pending = pending; done = done; failure = f; place = place })

  consume-rounds :
      (n : ℕ) (pending : List A) (f : Option E) (place : Place)
      → Wakes place pending true
      → length pending < n
      → consume (rounds n) (queue pending true f place) ≡ (pending, ended f)
  unfolding consume turn
  consume-rounds zero pending f place w h = absurd (omega arith)
  consume-rounds (suc n) pending f (awaiting false) w h = absurd (cc (w.1))
  consume-rounds (suc n) [] f suspended w h = rw (consume-ended (rounds n) f) refl
  consume-rounds (suc n) [] f (awaiting true) w h = rw (consume-ended (rounds n) f) refl
  consume-rounds (suc n) (item ∷ pending) f suspended w h =
      rw (consume-rounds n pending f suspended tt (omega arith)) refl
  consume-rounds (suc n) (item ∷ []) f (awaiting true) w h = rw (consume-ended (rounds n) f) refl
  consume-rounds (suc n) (item ∷ next ∷ pending) f (awaiting true) w h =
      rw (consume-rounds n pending f suspended tt (omega arith)) refl

  consume-all :
      (turns : List (Turn A E)) (n : ℕ) (pending : List A) (done : Bool) (f : Option E)
      (place : Place)
      → Ends done turns
      → Wakes place pending done
      → length pending + length (items turns) < n
      → consume (turns ++ rounds n) (queue pending done f place)
        ≡ (pending ++ items turns, ended (failure_of f turns))
  unfolding consume turn observe notify
  consume-all [] n pending true f place h w enough =
      rw (append-nil pending) (consume-rounds n pending f place w (omega arith))
  consume-all [] n pending false f place h w enough = absurd h
  consume-all (produced event ∷ turns) n pending true f place h w enough = absurd h
  consume-all (produced (next_item item) ∷ turns) n pending false f place h w enough =
      rw
        (
          consume-all turns n (pending ++ (item ∷ [])) false f (notify place) h
              (notify-Wakes place (pending ++ (item ∷ [])) false)
              (omega (arith, length-append pending (item ∷ []))),
          append_assoc pending (item ∷ []) (items turns),
        )
        refl
  consume-all (produced (error_with e) ∷ turns) n pending false f place h w enough =
      rw
        (consume-all turns n pending true e (notify place) h (notify-Wakes place pending true)
          enough)
        refl
  consume-all (produced complete ∷ turns) n pending false f place h w enough =
      rw
        (consume-all turns n pending true f (notify place) h (notify-Wakes place pending true)
          enough)
        refl
  consume-all (pulled ∷ turns) n pending done f (awaiting resolved) h w enough =
      rw (consume-all turns n pending done f (awaiting resolved) h w enough) refl
  consume-all (pulled ∷ turns) n [] true f suspended h w enough =
      rw (consume-ended (turns ++ rounds n) f, Ends-items turns h, Ends-failure_of f turns h) refl
  consume-all (pulled ∷ turns) n [] false f suspended h w enough =
      rw (consume-all turns n [] false f (awaiting false) h (refl, refl) enough) refl
  consume-all (pulled ∷ turns) n (item ∷ pending) done f suspended h w enough =
      rw (consume-all turns n pending done f suspended h tt (omega arith)) refl
  consume-all (woken ∷ turns) n pending done f suspended h w enough =
      rw (consume-all turns n pending done f suspended h w enough) refl
  consume-all (woken ∷ turns) n pending done f (awaiting false) h w enough =
      rw (consume-all turns n pending done f (awaiting false) h w enough) refl
  consume-all (woken ∷ turns) n [] true f (awaiting true) h w enough =
      rw (consume-ended (turns ++ rounds n) f, Ends-items turns h, Ends-failure_of f turns h) refl
  consume-all (woken ∷ turns) n [] false f (awaiting true) h w enough =
      rw (consume-all turns n [] false f (awaiting false) h (refl, refl) enough) refl
  consume-all (woken ∷ turns) n (item ∷ pending) done f (awaiting true) h w enough =
      rw (consume-all turns n pending done f suspended h tt (omega arith)) refl

  -- However the calls of an observable, which ends once and calls nothing after that, the demands of a
  -- consumer, and the steps of the engine behind a resolved promise alternate: if more rounds follow
  -- than there are items, in each of which the engine goes on where it can and the consumer asks for an
  -- item, then the consumer gets all items in their order, and the generator ends, with the
  -- observable's error if that is truthy.
  pub consume-delivers :
      (turns : List (Turn A E)) (n : ℕ)
      → Ends false turns
      → length (items turns) < n
      → consume (turns ++ rounds n) (running subscribed)
        ≡ (items turns, ended (failure_of none turns))
  consume-delivers turns n h enough = consume-all turns n [] false none suspended h tt (omega arith)
