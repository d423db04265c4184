-- ===== src/Process/Uses.antt =====
-- Which calls through a thread's targets use its own client and no other.
use event_bus_cpp.Prelude.{ℕ, Bool, ◌≡◌, ◌≢◌, ◌∙◌, arith}
use event_bus_cpp.Keys.{EventType, type_order}
use event_bus_cpp.Multimap.{Multimap, IsWellFormed}
use event_bus_cpp.Zmq.{Zmq}
use event_bus_cpp.EventClient.Defs.{Local, Outcome, done, fault, out_of_fuel}
use event_bus_cpp.EventClient.Kept.{IfDone}
use event_bus_cpp.EventTarget.{ask_client, Store, tell_client, local_of, put_outcome}
use event_bus_cpp.Process.Confined.{Attended, Uses}

module _ (z : Zmq) (App : Type 0) (fits : Multimap EventType → App → Type 0) where
  abbrev pub GoodAt : Local z App → Type 0
  GoodAt l = IsWellFormed l.client.event_object_map × fits l.client.event_object_map l.app

module _ {z : Zmq} {App : Type 0} (a : ℕ) (fits : Multimap EventType → App → Type 0) where
  pub Uses-from :
      (o : Outcome (Store z App)) (st st' : Store z App)
      → ((b : ℕ) → b ≢ a → st'.clients b ≡ st.clients b)
      → IfDone (Uses a fits st') o
      → IfDone (Uses a fits st) o
  Uses-from (done x) st st' same u = (u.0, λ b ne. u.1 b ne ∙ same b ne)
  Uses-from fault st st' same u = tt
  Uses-from out_of_fuel st st' same u = tt

  put_outcome-Uses :
      (o : Outcome (Local z App)) (st : Store z App)
      → IfDone (GoodAt z App fits) o
      → IfDone (Uses a fits st) (put_outcome z App a o st)
  put_outcome-Uses (done l) st h = (
    record { client = l.client; here = ground arith; valid = h.0; fitting = h.1 },
    λ b ne. ground arith,
  )
  put_outcome-Uses fault st h = tt
  put_outcome-Uses out_of_fuel st h = tt

  pub tell_client-Uses :
      (call : Local z App → Outcome (Local z App)) (st : Store z App)
      → ((l : Local z App) → GoodAt z App fits l → IfDone (GoodAt z App fits) (call l))
      → Attended a fits st
      → IfDone (Uses a fits st) (tell_client z App a call st)
  unfolding tell_client
  tell_client-Uses call st keeps h =
      let l : Local z App = local_of z App h.client st in
      rw (h.here, tell_client) (put_outcome-Uses (call l) st (keeps l (h.valid, h.fitting)))

module _ {z : Zmq} {App : Type 0} where
  pub ask_client-Uses :
      (a : ℕ) (before later : Multimap EventType → App → Type 0)
      (call : Local z App → Bool × Local z App) (st : Store z App)
      → ((l : Local z App) → GoodAt z App before l → GoodAt z App later (call l).1)
      → Attended a before st
      → IfDone (λ (r : Bool × Store z App). Uses a later st r.1) (ask_client z App a call st)
  unfolding ask_client
  ask_client-Uses a before later call st keeps h =
      let l : Local z App = local_of z App h.client st in
      rw (h.here, ask_client)
        (put_outcome-Uses a later (done (call l).1) st (keeps l (h.valid, h.fitting)))
