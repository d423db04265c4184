-- ===== src/UnitTest/Ended.antt =====
-- The end of a thread object of the demonstration, after its setup_thread: what the body of its
-- destructor takes back.
use event_bus_cpp.Prelude.{
  ℕ, Bool, true, false, some, List, [], ◌∷◌, ◌++◌, if◌then◌else◌, ◌≡◌, ◌≢◌, refl, ◌∙◌, ap, arith,
}
use event_bus_cpp.Keys.{EventType, type_order, compare_types, is_eq}
use event_bus_cpp.Zmq.{Zmq}
use event_bus_cpp.Multimap.{observers, IsWellFormed}
use event_bus_cpp.ClientCenter.{Pool, find_client}
use event_bus_cpp.EventClient.Defs.{Client}
use event_bus_cpp.EventClient.Pairs.{member, member-append, remove, remove_absent}
use event_bus_cpp.EventTarget.{EventTarget, Store}
use event_bus_cpp.EventTarget.Attached.{unsubscribe-Answered}
use event_bus_cpp.MThread.{MThread}
use event_bus_cpp.UnitTest.{Demo, Fields, and_also, unsubscribe_all, setup_thread, end_thread}
use event_bus_cpp.UnitTest.Wiring.{joined, Wired, setup_thread-Wired}

-- The row of the type `k` after an object has unsubscribed from some types in turn.
abbrev pub taken_back : List EventType → ℕ → EventType → List ℕ → List ℕ
taken_back [] object k row = row
taken_back (type ∷ types) object k row =
    taken_back types object k (if is_eq (compare_types type k) then remove object row else row)

mentions : List EventType → EventType → Bool
mentions [] k = false
mentions (type ∷ types) k = if is_eq (compare_types type k) then true else mentions types k

module _ (t : ℕ) where
  member-append_other :
      (u : ℕ) (row : List ℕ) → t ≢ u → member t row ≡ false → member t (row ++ u ∷ []) ≡ false
  member-append_other u [] ne h = ground arith
  member-append_other u (x ∷ row) ne h = ground (arith, member-append_other u row ne)

  remove-append : (row : List ℕ) → member t row ≡ false → remove t (row ++ t ∷ []) ≡ row
  remove-append [] h = ground arith
  remove-append (u ∷ row) h = ground (arith, remove-append row)

  joined-present :
      (types : List EventType) (k : EventType) (row : List ℕ)
      → member t row ≡ true
      → joined types t k row ≡ row
  joined-present [] k row h = refl
  joined-present (type ∷ types) k row h = ground (arith, joined-present types k row)

  joined-absent :
      (types : List EventType) (k : EventType) (row : List ℕ)
      → member t row ≡ false
      → joined types t k row ≡ (if mentions types k then row ++ t ∷ [] else row)
  unfolding mentions
  joined-absent [] k row h = refl
  joined-absent (type ∷ types) k row h = ground (
    arith,
    joined-absent types k row,
    joined-present types k (row ++ t ∷ []),
    member-append t row,
  )

  taken_back-absent :
      (types : List EventType) (k : EventType) (row : List ℕ)
      → member t row ≡ false
      → taken_back types t k row ≡ row
  taken_back-absent [] k row h = refl
  taken_back-absent (type ∷ types) k row h =
      ground (arith, taken_back-absent types k row, remove_absent t row)

  taken_back-last :
      (types : List EventType) (k : EventType) (row : List ℕ)
      → member t row ≡ false
      → taken_back types t k (row ++ t ∷ []) ≡ (if mentions types k then row else row ++ t ∷ [])
  unfolding mentions
  taken_back-last [] k row h = refl
  taken_back-last (type ∷ types) k row h =
      ground (arith, taken_back-last types k row, taken_back-absent types k row, remove-append row)

  taken_back-joined :
      (types : List EventType) (k : EventType) (row : List ℕ)
      → member t row ≡ false
      → taken_back types t k (joined types t k row) ≡ row
  taken_back-joined types k row h =
      ground (
        arith,
        joined-absent types k row,
        taken_back-last types k row,
        taken_back-absent types k row,
      )

  member-joined :
      (types : List EventType) (u : ℕ) (k : EventType) (row : List ℕ)
      → t ≢ u
      → member t row ≡ false
      → member t (joined types u k row) ≡ false
  member-joined [] u k row ne h = h
  member-joined (type ∷ types) u k row ne h =
      member-joined types u k _ ne (ground (arith, member-append_other u row ne h))

module _ (z : Zmq) {App : Type 0} where
  unsubscribe_all-Wired :
      (t : EventTarget) (a : ℕ) (c : Client) (types : List EventType) (object : ℕ)
      (st : Store z App)
      → t.client ≡ some a
      → st.clients a ≡ some c
      → IsWellFormed c.event_object_map
      → Wired z a
          (λ k. taken_back types object k (observers k c.event_object_map.nodes))
          st
          (unsubscribe_all z t types object st)
  unfolding unsubscribe_all
  unsubscribe_all-Wired t a c [] object st e e' v = record {
    after = st;
    client = c;
    runs = refl;
    here = e';
    valid = v;
    rows_after = λ k. refl;
    others = λ b ne. refl;
  }
  unsubscribe_all-Wired t a c (type ∷ types) object st e e' v =
      let one = unsubscribe-Answered z App t a c type object st e e' v in
      let more = unsubscribe_all-Wired t a one.client types object one.after e one.here one.valid in
      record {
        after = more.after;
        client = more.client;
        runs = rw (one.runs, unsubscribe_all) more.runs;
        here = more.here;
        valid = more.valid;
        rows_after = λ k. more.rows_after k ∙ ap (taken_back types object k) (one.rows_after k);
        others = λ b ne. more.others b ne ∙ one.others b ne;
      }

module _ (z : Zmq) where
  -- setup_thread and then the body of the class's own destructor, without ~MThread, which follows it in
  -- C++: in a thread with a client of a well-formed map to which the thread object is attached, and
  -- which it did not observe through before, the object being another than the target, both return,
  -- and then the thread object stands in no row more, so that the rows are those that setup_thread's
  -- target has made.
  pub end_thread-setup_thread :
      (demo : Demo) (id this object : ℕ) (pool : Pool) (t : MThread) (a : ℕ) (c : Client)
      (st : Store z Fields)
      → find_client id pool ≡ some a
      → t.target.client ≡ some a
      → st.clients a ≡ some c
      → IsWellFormed c.event_object_map
      → this ≢ object
      → ((k : EventType) → member this (observers k c.event_object_map.nodes) ≡ false)
      → Wired z a
          (λ k. joined demo.target.types object k (observers k c.event_object_map.nodes))
          st
          (and_also (setup_thread z demo id this object pool t st) (end_thread z demo t this))
  unfolding end_thread
  end_thread-setup_thread demo id this object pool t a c st f e e' v ne new =
      let up = setup_thread-Wired z demo id this object pool t a c st f e e' v in
      let down =
        unsubscribe_all-Wired z t.target a up.client demo.thread_types this up.after e up.here
          up.valid in
      record {
        after = down.after;
        client = down.client;
        runs = rw up.runs down.runs;
        here = down.here;
        valid = down.valid;
        rows_after = λ k.
            down.rows_after k
            ∙ ap (taken_back demo.thread_types this k) (up.rows_after k)
            ∙ taken_back-joined this demo.thread_types k _
                (member-joined this demo.target.types object k _ ne (new k));
        others = λ b other. down.others b other ∙ up.others b other;
      }
