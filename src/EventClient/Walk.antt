-- ===== src/EventClient/Walk.antt =====
-- The loop over iterators, along a part of a map that the callbacks keep as it is.
use event_bus_cpp.Prelude.{
  ℕ, zero, suc, some, List, [], ◌∷◌, ◌++◌, length, ◌≡◌, ◌<◌, sym, ap, subst, ◌∙◌, arith,
}
use mathlib.Core.List.{append_assoc}
use event_bus_cpp.Prelude.Int.{ℤ}
use event_bus_cpp.Keys.{EventType, EventContent, type_order}
use event_bus_cpp.Multimap.{
  Multimap, Node, at, iter_of, deref, next, targets, IsDistinct, IsDistinct-prefix,
  IsDistinct-suffix, deref_node-append, next_node-append, same_iter-append, same_iter_refl,
}
use event_bus_cpp.Zmq.{Zmq}
use event_bus_cpp.EventClient.Defs.{Local, done, deliver}

pub regroup :
    (pre rest : List (Node EventType)) (n : Node EventType)
    → pre ++ n ∷ rest ≡ (pre ++ n ∷ []) ++ rest
regroup pre rest n = sym (append_assoc pre (n ∷ []) rest)

-- The node under the iterator, and the iterator behind it.
pub deref-here :
    (pre rest : List (Node EventType)) (n : Node EventType) (m : Multimap EventType)
    → m.nodes ≡ pre ++ n ∷ rest
    → IsDistinct (pre ++ n ∷ rest)
    → deref (at n.id) m ≡ some n
unfolding deref
deref-here pre rest n m e d = rw e (deref_node-append n pre rest (IsDistinct-prefix n pre rest d))

pub next-here :
    (pre rest : List (Node EventType)) (n : Node EventType) (m : Multimap EventType)
    → m.nodes ≡ pre ++ n ∷ rest
    → IsDistinct (pre ++ n ∷ rest)
    → next (at n.id) m ≡ some (iter_of rest)
unfolding next
next-here pre rest n m e d = rw e (next_node-append n pre rest (IsDistinct-prefix n pre rest d))

module _ (z : Zmq) (App : Type 0)
    (event_handle : ℕ → EventType → EventContent → Local z App → ℤ × Local z App) where
  -- The callbacks of these targets, one after the other.
  unfoldable pub deliver_all : List ℕ → EventType → EventContent → Local z App → Local z App
  deliver_all [] type content l = l
  deliver_all (t ∷ ts) type content l =
      deliver_all ts type content (event_handle t type content l).1

  module _ (type : EventType) (content : EventContent) (m : Multimap EventType)
      (keeps : (t : ℕ) (l : Local z App)
        → l.client.event_object_map ≡ m
        → (event_handle t type content l).1.client.event_object_map ≡ m) where
    pub deliver-segment :
        (fuel : ℕ) (pre mid post : List (Node EventType)) (l : Local z App)
        → length mid < fuel
        → l.client.event_object_map ≡ m
        → m.nodes ≡ pre ++ (mid ++ post)
        → IsDistinct (pre ++ (mid ++ post))
        → deliver z App event_handle fuel (iter_of post) (iter_of (mid ++ post)) type content l
          ≡ done (deliver_all (targets mid) type content l)
    unfolding deliver_all iter_of deliver
    deliver-segment zero pre mid post l h same e d = absurd (omega arith)
    deliver-segment (suc fuel) pre [] post l h same e d = rw (deliver, same_iter_refl)
    deliver-segment (suc fuel) pre (n ∷ mid) post l h same e d =
        let l' : Local z App = (event_handle n.target type content l).1 in
        let kept : l'.client.event_object_map ≡ m = keeps n.target l same in
        rw
          (
            deliver,
            same_iter-append mid post n (IsDistinct-suffix pre (n ∷ (mid ++ post)) d),
            ap (deref (at n.id)) same ∙ deref-here pre (mid ++ post) n m e d,
            ap (next (at n.id)) kept ∙ next-here pre (mid ++ post) n m e d,
          )
          (deliver-segment fuel (pre ++ n ∷ []) mid post l' (omega arith) kept
            (e ∙ regroup pre (mid ++ post) n) (subst IsDistinct (regroup pre (mid ++ post) n) d))
