-- ===== src/Storage/Tests.antt =====
-- The theorems on src/linear_fcgi_client_storage.cc at an input.
use linear_fcgi.Common.{◌≤◌, ◌≡◌, true, [], ◌∷◌, List, length, codes}
use linear_fcgi.Storage.{empty}
use linear_fcgi.Storage.Spec.{
  Call, creates, destroys, ticks, Shows, nothing, run_calls, view_calls, storage_refines,
}

-- The third `create` finds no room, the fourth finds the room that `destroy` has made.
abbrev calls : List Call
calls =
    creates (codes "a") [] 30 0 true
    ∷ creates (codes "b") [] 30 0 true
    ∷ creates (codes "c") [] 30 0 true
    ∷ ticks 40
    ∷ destroys (codes "a")
    ∷ creates (codes "c") [] 30 0 true
    ∷ []

storage_refines_example :
    let (s, made) = run_calls calls (empty 2) in
    let (v, made') = view_calls calls (nothing 2) in
    (made ≡ made') × Shows s v × (length s.client_map ≤ s.max_clients)
storage_refines_example = storage_refines 2 calls
