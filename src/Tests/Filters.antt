-- ===== src/Tests/Filters.antt =====
-- The results on the filters of a client that registers and unregisters its first target.
use event_bus_cpp.Prelude.{true, false, [], ◌∷◌, ◌≡◌, refl}
use event_bus_cpp.Keys.{type_order}
use event_bus_cpp.Multimap.{observers, empty, empty-IsWellFormed, find_rest}
use event_bus_cpp.EventClient.Defs.{register_observer, unregister_observer}
use event_bus_cpp.EventClient.Registry.{observers_of}
use event_bus_cpp.EventClient.Released.{unregister_observer-Mirrors}
use event_bus_cpp.EventClient.Filters.{
  Mirrors, wanted, set_filters, count, register_observer-Mirrors, register_observer_refused,
}
use event_bus_cpp.Tests.Transport.{transport, transport-Documented, idle}
use event_bus_cpp.Tests.Observers.{go, Log, local}

-- No client has observed anything yet, and no filter is set.
fresh-Mirrors : Mirrors (transport false) (transport-Documented false) Log (local false empty idle)
unfolding empty observers transport-Documented count
fresh-Mirrors k = refl

register_observer-Mirrors_example :
    set_filters
      (transport false)
      (transport-Documented false)
      Log
      go
      (register_observer (transport false) Log go 10 (local false empty idle)).1
    ≡ wanted (
        observers_of
          (transport false)
          Log
          go
          (register_observer (transport false) Log go 10 (local false empty idle)).1)
unfolding register_observer find_rest empty
register_observer-Mirrors_example =
    register_observer-Mirrors (transport false) (transport-Documented false) Log go 10
      (local false empty idle) empty-IsWellFormed fresh-Mirrors refl go

unregister_observer-Mirrors_example :
    set_filters
      (transport false)
      (transport-Documented false)
      Log
      go
      (unregister_observer (transport false) Log go 10 (local false empty idle)).1
    ≡ wanted (
        observers_of
          (transport false)
          Log
          go
          (unregister_observer (transport false) Log go 10 (local false empty idle)).1)
unfolding unregister_observer empty
unregister_observer-Mirrors_example =
    unregister_observer-Mirrors (transport false) (transport-Documented false) Log go 10
      (local false empty idle) empty-IsWellFormed fresh-Mirrors refl go

register_observer_refused_example :
    let l' = (register_observer (transport true) Log go 10 (local true empty idle)).1 in
    let r = register_observer (transport true) Log go 11 l' in
    (observers_of (transport true) Log go l' ≡ 10 ∷ [])
    × (set_filters (transport true) (transport-Documented true) Log go l'
        ≡ set_filters (transport true) (transport-Documented true) Log go (local true empty idle))
    × (r.0 ≡ true)
    × (r.1.world ≡ l'.world)
unfolding register_observer find_rest empty
register_observer_refused_example =
    register_observer_refused (transport true) (transport-Documented true) Log go go 10 11
      (local true empty idle) empty-IsWellFormed refl
