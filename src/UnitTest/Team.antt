-- ===== src/UnitTest/Team.antt =====
-- The thread objects of the demonstration as threads of one process.
use mathlib.Core.List.{append-nil, append_assoc}
use event_bus_cpp.Prelude.{
  sym, ◌∙◌, Option-cases, inl, inr, ◌++◌, ap, length, suc, ◌+◌, ◌≤◌, arith, ℕ, Bool, true, some,
  List, [], ◌∷◌, ◌==◌, if◌then◌else◌, ◌≡◌, ◌≢◌, refl,
}
use event_bus_cpp.Keys.{EventContent, EventType, type_order, compare_types, is_eq}
use event_bus_cpp.EventClient.Defs.{Local, Outcome, done, fault, out_of_fuel}
use event_bus_cpp.EventClient.Walk.{deliver_all}
use event_bus_cpp.EventTarget.Attached.{publish_event_faults}
use event_bus_cpp.Zmq.{Zmq}
use event_bus_cpp.ClientCenter.{Pool, find_client}
use event_bus_cpp.EventClient.Kept.{IfDone}
use event_bus_cpp.EventTarget.{EventTarget, Store, new_target, subscribe}
use event_bus_cpp.MThread.{MThread}
use event_bus_cpp.Process.{Program}
use event_bus_cpp.Process.Confined.{Attended, Uses, IsConfined}
use event_bus_cpp.Process.Uses.{Uses-from}
use event_bus_cpp.Process.Rows.{Rows, subscribe-Rows}
use event_bus_cpp.Multimap.{Multimap, empty, observers}
use event_bus_cpp.EventClient.Registry.{add}
use event_bus_cpp.UnitTest.Wiring.{joined}
use event_bus_cpp.UnitTest.{
  Demo, Fields, test_event_handle, and_then, and_also, subscribe_all, setup_thread, thread_run,
  object_test,
}

-- A thread object of a process: its class, the addresses of the object and of its target, the thread's id,
-- and the address of the client that the thread makes.
pub record Member : Type 0 where
  pub demo : Demo
  pub this : ℕ
  pub object : ℕ
  pub id : ℕ
  pub fresh : ℕ

-- What the object prints as a target, and what its own target prints.
abbrev says_of : Member → ℕ → List ℕ
says_of m t = if t == m.this then m.demo.says else m.demo.target.says

-- TestMthread1 and TestMthread2, in any number; `fuel` is that of handle_event.
unfoldable pub team : (z : Zmq) → (ℕ → Member) → ℕ → Program z Fields
unfolding test_event_handle
team z m fuel = record {
  ident = λ i. (m i).id;
  fresh = λ i. (m i).fresh;
  fuel = λ i. fuel;
  event_handle = λ i t type content l.
      let (text, answer) = test_event_handle (says_of (m i) t) type content in
      (answer, record l { app = record l.app { printed = l.app.printed ++ text } });
  setup_thread = λ i. setup_thread z (m i).demo (m i).id (m i).this (m i).object;
  thread_run = λ i. thread_run z (m i).demo;
}

-- What the targets `ts` print for an event of the type, one after the other.
abbrev pub texts : Member → EventType → List ℕ → List ℕ
texts m type [] = []
texts m type (t ∷ ts) = (test_event_handle (says_of m t) type []).0 ++ texts m type ts

abbrev pub prints : {z : Zmq} → List ℕ → Local z Fields → Local z Fields
prints text l = record l { app = record l.app { printed = l.app.printed ++ text } }

-- The targets are called one after the other, and what each prints shows which it is.
pub deliver_all-prints :
    (z : Zmq) (m : ℕ → Member) (fuel i : ℕ) (ts : List ℕ) (type : EventType)
    (content : EventContent) (l : Local z Fields)
    → deliver_all z Fields ((team z m fuel).event_handle i) ts type content l
      ≡ prints (texts (m i) type ts) l
unfolding deliver_all team test_event_handle
deliver_all-prints z m fuel i [] type content l =
    ap (λ (text : List ℕ). record l { app = record l.app { printed = text } })
      (sym (append-nil l.app.printed))
deliver_all-prints z m fuel i (t ∷ ts) type content l =
    deliver_all-prints z m fuel i ts type content
      (prints (test_event_handle (says_of (m i) t) type content).0 l)
    ∙ ap (λ (text : List ℕ). record l { app = record l.app { printed = text } })
        (append_assoc l.app.printed _ (texts (m i) type ts))

-- setup_thread has made the target, which is attached to the client of the thread.
pub record HasObject (a : ℕ) (app : Fields) : Type 0 where
  pub object : EventTarget
  pub made : app.object_test ≡ some object
  pub attached : object.client ≡ some a

-- Who observes what after setup_thread, and at most how many nodes that takes.
abbrev pub rows_of : Member → EventType → List ℕ
rows_of m k = joined m.demo.thread_types m.this k (joined m.demo.target.types m.object k [])

abbrev pub most_of : Member → ℕ
most_of m = length m.demo.target.types + length m.demo.thread_types

abbrev pub Fits : Member → Multimap EventType → Fields → Type 0
Fits m = Rows (rows_of m) (most_of m) (HasObject m.fresh)

module _ (z : Zmq) where
  and_then-IfDone :
      {A B : Type 0} (P : A → Type 0) (Q : B → Type 0) (o : Outcome (Bool × A)) (f : A → Outcome B)
      → IfDone (λ r. P r.1) o
      → ((x : A) → P x → IfDone Q (f x))
      → IfDone Q (and_then o f)
  and_then-IfDone P Q (done r) f h k = k r.1 h
  and_then-IfDone P Q fault f h k = tt
  and_then-IfDone P Q out_of_fuel f h k = tt

  and_also-IfDone :
      {A B : Type 0} (P : A → Type 0) (Q : B → Type 0) (o : Outcome A) (f : A → Outcome B)
      → IfDone P o
      → ((x : A) → P x → IfDone Q (f x))
      → IfDone Q (and_also o f)
  and_also-IfDone P Q (done x) f h k = k x h
  and_also-IfDone P Q fault f h k = tt
  and_also-IfDone P Q out_of_fuel f h k = tt

  subscribe_all-Rows :
      (a : ℕ) (rows : EventType → List ℕ) (now most : ℕ) (P : Fields → Type 0) (t : EventTarget)
      (types : List EventType) (object : ℕ) (st : Store z Fields)
      → t.client ≡ some a
      → now + length types ≤ most
      → Attended a (Rows rows now P) st
      → IfDone
          (Uses a (Rows (λ k. joined types object k (rows k)) most P) st)
          (subscribe_all z t types object st)
  unfolding subscribe_all
  subscribe_all-Rows a rows now most P t [] object st e n h = (
    record {
      client = h.client;
      here = h.here;
      valid = h.valid;
      fitting = record {
        row = h.fitting.row;
        few = omega (arith, h.fitting.few);
        known = h.fitting.known;
      };
    },
    λ b ne. refl,
  )
  subscribe_all-Rows a rows now most P t (type ∷ types) object st e n h =
      let rows' =
        λ (k : EventType). if is_eq (compare_types type k) then add object (rows k) else rows k in
      let last = Rows (λ k. joined types object k (rows' k)) most P in
      and_then-IfDone (Uses a (Rows rows' (suc now) P) st) (Uses a last st)
        (subscribe z Fields t type object st) (λ st'. subscribe_all z t types object st')
        (subscribe-Rows a rows now P t type object st e h)
        (λ st' u.
          Uses-from a last (subscribe_all z t types object st') st st' u.1
            (subscribe_all-Rows a rows' (suc now) most P t types object st' e (omega arith) u.0))

  setup_thread-Uses :
      (m : Member) (pool : Pool) (t : MThread) (st : Store z Fields)
      → find_client m.id pool ≡ some m.fresh
      → t.target.client ≡ some m.fresh
      → Attended m.fresh (λ n app. n ≡ empty) st
      → IfDone (Uses m.fresh (Fits m) st) (setup_thread z m.demo m.id m.this m.object pool t st)
  unfolding setup_thread new_target observers empty
  setup_thread-Uses m pool t st f e h =
      let a = m.fresh in
      let o : EventTarget = new_target m.id pool in
      let types = m.demo.target.types in
      let first : Multimap EventType → Fields → Type 0 =
        Rows (λ k. joined types m.object k []) (length types) (λ app. Unit) in
      let begun : Attended a (Rows (λ k. []) 0 (λ app. Unit)) st = record {
        client = h.client;
        here = h.here;
        valid = h.valid;
        fitting = record {
          row = λ k. ap (λ (n : Multimap EventType). observers k n.nodes) h.fitting;
          few = rw h.fitting (omega arith);
          known = tt;
        };
      } in
      and_also-IfDone (Uses a first st) (Uses a (Fits m) st) (subscribe_all z o types m.object st) _
        (subscribe_all-Rows a (λ k. []) 0 (length types) (λ app. Unit) o types m.object st f
          (omega arith) begun)
        (λ st' u.
          let made : Store z Fields = record st' {
            app = record st'.app { test_setup_thread_flag = true; object_test = some o };
          } in
          let here : Attended a
              (Rows (λ k. joined types m.object k []) (length types) (HasObject a)) made =
            record {
              client = u.0.client;
              here = u.0.here;
              valid = u.0.valid;
              fitting = record {
                row = u.0.fitting.row;
                few = u.0.fitting.few;
                known = record { object = o; made = refl; attached = f };
              };
            } in
          Uses-from a (Fits m) (subscribe_all z t.target m.demo.thread_types m.this made) st made
            u.1
            (subscribe_all-Rows a (λ k. joined types m.object k []) (length types) (most_of m)
              (HasObject a) t.target m.demo.thread_types m.this made e (omega arith) here))

  -- object_test publishes through EventTarget::publish_event, which returns no value.
  pub thread_run_faults :
      (demo : Demo) (t : MThread) (st : Store z Fields) → thread_run z demo t st ≡ fault
  unfolding thread_run object_test
  thread_run_faults demo t st = elim (Option-cases st.app.object_test) [
    | inl none_yet ↦ simp (none_yet, thread_run)
    | inr (o, made) ↦ rw (made, thread_run) (publish_event_faults z Fields o _ [] st)
  ]

  thread_run-Uses :
      (m : Member) (t : MThread) (st : Store z Fields)
      → Attended m.fresh (Fits m) st
      → IfDone (Uses m.fresh (Fits m) st) (thread_run z m.demo t st)
  unfolding thread_run object_test
  thread_run-Uses m t st h = rw (thread_run_faults m.demo t st) tt

  module _ (m : ℕ → Member) (fuel : ℕ) (ids : (i j : ℕ) → i ≢ j → (m i).id ≢ (m j).id)
      (clients : (i j : ℕ) → i ≢ j → (m i).fresh ≢ (m j).fresh) where
    -- The thread objects of the demonstration, with ids and clients of their own, use each its own client and
    -- no other; and from setup_thread on each has its target, and its client observes the types of the
    -- target, for the target, and after that the object's own, for the object.
    pub team-IsConfined : IsConfined (team z m fuel) (λ i. Fits (m i))
    unfolding team
    team-IsConfined = record {
      ids_differ = ids;
      clients_differ = clients;
      handles = λ i t type content l h. (
        h.0,
        record {
          row = h.1.row;
          few = h.1.few;
          known = record {
            object = h.1.known.object;
            made = h.1.known.made;
            attached = h.1.known.attached;
          };
        },
      );
      sets_up = λ i pool t st f e h. setup_thread-Uses (m i) pool t st f e h;
      runs = λ i t st e h. thread_run-Uses (m i) t st h;
    }
