-- ===== src/Storage/Spec.antt =====
-- What src/linear_fcgi_client_storage.cc promises: a function from session ids to clients, with the
-- number of clients, which its methods change.
use linear_fcgi.Common.{ℕ, suc, ◌-◌, ◌≤◌, ◌≡◌, refl, ap, ap₂, ◌∙◌, inl, inr, arith}
use linear_fcgi.Common.{
  Bool, true, false, not, ◌||◌, List, [], ◌∷◌, Option, none, some, if◌then◌else◌,
}
use linear_fcgi.Common.{length, leb, bytes_eq, Bool-cases, Option-cases}
use linear_fcgi.Common.Map.{
  Key, find, insert, find-insert, length-insert_new, length-erase_there, erase_missing,
}
use linear_fcgi.Client.State.{Client, make}
use linear_fcgi.Client.Callbacks.{on_timer}
use linear_fcgi.Storage.{is_some, Storage, empty, create, destroy, get, on_timer_all}
use linear_fcgi.Storage.Laws.{
  IsValid, empty-IsValid, create-IsValid, destroy-IsValid, on_timer_all-IsValid, same_key,
  find-destroy, find-on_timer_all, length-on_timer_all,
}
use mathlib.Core.Option

-- The abstract storage.
pub record View : Type 0 where
  pub limit : ℕ
  pub count : ℕ
  pub clients : Key → Option Client

abbrev pub nothing : ℕ → View
nothing limit = record { limit = limit; count = 0; clients = λ id. none }

-- A client is added if there is room, its id is new and it can be made.
unfoldable view_create : Key → Client → (new_ok : Bool) → View → View × Bool
unfolding is_some
view_create id c new_ok v =
    if leb v.limit v.count || (is_some (v.clients id) || not new_ok) then (v, false) else (
      record v {
        count = suc v.count;
        clients = λ other. if bytes_eq id other then some c else v.clients other;
      },
      true,
    )

-- The client of an id goes, if there is one.
unfoldable view_destroy : Key → View → View
unfolding is_some
view_destroy id v = record v {
  count = if is_some (v.clients id) then v.count - 1 else v.count;
  clients = λ other. if bytes_eq id other then none else v.clients other;
}

-- Every client gets the tick.
unfoldable view_timer : ℕ → View → View
view_timer now v = record v { clients = λ id. Option.map (λ c. (on_timer now c).0) (v.clients id) }

-- A call of a method that changes the storage.
pub data Call : Type 0 where
  creates : Key → List (List ℕ) → (timeout memory : ℕ) → (new_ok : Bool) → Call
  destroys : Key → Call
  ticks : ℕ → Call

-- The storage after some calls, and what `create` answered in each.
unfoldable pub run_calls : List Call → Storage → Storage × List Bool
run_calls [] s = (s, [])
run_calls (creates id origins timeout memory new_ok ∷ calls) s =
    let (s', made) = create id origins timeout memory new_ok s in
    let (s2, more) = run_calls calls s' in (s2, made ∷ more)
run_calls (destroys id ∷ calls) s = run_calls calls (destroy id s)
run_calls (ticks now ∷ calls) s = run_calls calls (on_timer_all now s).0

unfoldable pub view_calls : List Call → View → View × List Bool
unfolding view_create view_destroy view_timer
view_calls [] v = (v, [])
view_calls (creates id origins timeout memory new_ok ∷ calls) v =
    let (v', made) = view_create id (make id origins timeout memory) new_ok v in
    let (v2, more) = view_calls calls v' in (v2, made ∷ more)
view_calls (destroys id ∷ calls) v = view_calls calls (view_destroy id v)
view_calls (ticks now ∷ calls) v = view_calls calls (view_timer now v)

-- A storage shows a view.
pub record Shows (s : Storage) (v : View) : Type 0 where
  pub limit : s.max_clients ≡ v.limit
  pub count : length s.client_map ≡ v.count
  pub clients : (id : Key) → get id s ≡ v.clients id

Shows-empty : (limit : ℕ) → Shows (empty limit) (nothing limit)
unfolding empty get find
Shows-empty limit = record { limit = refl; count = refl; clients = λ id. refl }

count_destroyed :
    (id : Key) (s : Storage) (v : View)
    → Shows s v
    → length (destroy id s).client_map ≡ (if is_some (v.clients id) then v.count - 1 else v.count)
unfolding destroy is_some get
count_destroyed id s v h = elim (Option-cases (find id s.client_map)) [
  | inl missing ↦ rw (← h.clients id, missing, erase_missing id s.client_map missing) h.count
  | inr (c, there) ↦
      let there_length = length-erase_there id c s.client_map there in
      rw (← h.clients id, there) (omega (arith, h.count, there_length))
]

Shows-destroy :
    (id : Key) (s : Storage) (v : View)
    → IsValid s
    → Shows s v
    → Shows (destroy id s) (view_destroy id v)
unfolding view_destroy is_some
Shows-destroy id s v valid h = record {
  limit = unfold destroy in h.limit;
  count = count_destroyed id s v h;
  clients = λ other.
      find-destroy id other s valid
      ∙ ap (λ o. if bytes_eq id other then none else o) (h.clients other);
}

Shows-timer :
    (now : ℕ) (s : Storage) (v : View)
    → IsValid s
    → Shows s v
    → Shows (on_timer_all now s).0 (view_timer now v)
unfolding view_timer
Shows-timer now s v valid h = record {
  limit = unfold on_timer_all in h.limit;
  count = length-on_timer_all now s valid ∙ h.count;
  clients =
      λ id. find-on_timer_all now id s ∙ ap (Option.map (λ c. (on_timer now c).0)) (h.clients id);
}

Shows-inserted :
    (id : Key) (c : Client) (s : Storage) (v : View)
    → find id s.client_map ≡ none
    → Shows s v
    → Shows
        (record s { client_map = insert id c s.client_map })
        (record v {
          count = suc v.count;
          clients = λ other. if bytes_eq id other then some c else v.clients other;
        })
unfolding get
Shows-inserted id c s v free h = record {
  limit = h.limit;
  count = length-insert_new id c s.client_map free ∙ ap suc h.count;
  clients = λ other. find-insert id other c s.client_map ∙ elim (Bool-cases (bytes_eq id other)) [
    | inl same ↦ rw same (same_key id other c s.client_map free same)
    | inr differs ↦ rw differs (h.clients other)
  ];
}

Shows-create :
    (id : Key) (origins : List (List ℕ)) (timeout memory : ℕ) (new_ok : Bool) (s : Storage)
    (v : View)
    → Shows s v
    → let (s', made) = create id origins timeout memory new_ok s in
      let (v', made') = view_create id (make id origins timeout memory) new_ok v in
      (made ≡ made') × Shows s' v'
unfolding create view_create is_some get
Shows-create id origins timeout memory new_ok s v h =
    let full_same : leb s.max_clients (length s.client_map) ≡ leb v.limit v.count =
      ap₂ leb h.limit h.count in
    let here = h.clients id in
    elim (Bool-cases (leb v.limit v.count)) [
      | inl full ↦ rw (full_same, full) (refl, h)
      | inr room ↦ elim (Option-cases (v.clients id)) [
        | inr (old, there) ↦ rw (full_same, room, here, there) (refl, h)
        | inl free ↦ elim (Bool-cases new_ok) [
          | inr failed ↦ rw (full_same, room, here, free, failed) (refl, h)
          | inl made ↦
              rw (full_same, room, here, free, made)
                (refl, Shows-inserted id (make id origins timeout memory) s v (here ∙ free) h)
        ]
      ]
    ]

run_calls-Shows :
    (calls : List Call) (s : Storage) (v : View)
    → IsValid s
    → Shows s v
    → let (s', made) = run_calls calls s in
      let (v', made') = view_calls calls v in (made ≡ made') × Shows s' v' × IsValid s'
unfolding run_calls view_calls
run_calls-Shows [] s v valid h = (refl, h, valid)
run_calls-Shows (creates id origins timeout memory new_ok ∷ calls) s v valid h =
    let (made, h') = Shows-create id origins timeout memory new_ok s v h in
    let (more, shown, valid') =
      run_calls-Shows calls _ _ (create-IsValid id origins timeout memory new_ok s valid) h' in
    (ap₂ (λ b bs. b ∷ bs) made more, shown, valid')
run_calls-Shows (destroys id ∷ calls) s v valid h =
    run_calls-Shows calls (destroy id s) (view_destroy id v) (destroy-IsValid id s valid)
      (Shows-destroy id s v valid h)
run_calls-Shows (ticks now ∷ calls) s v valid h =
    run_calls-Shows calls (on_timer_all now s).0 (view_timer now v)
      (on_timer_all-IsValid now s valid) (Shows-timer now s v valid h)

-- The storage is a bounded map: after any calls of `create`, `destroy` and `onTimer` from the first
-- `getInstance` on, `create` has answered as it does on a function from ids to clients with their
-- number, `get` answers what that function does, and the number of clients is that number, which is
-- not above the limit.
pub storage_refines :
    (limit : ℕ) (calls : List Call)
    → let (s, made) = run_calls calls (empty limit) in
      let (v, made') = view_calls calls (nothing limit) in
      (made ≡ made') × Shows s v × (length s.client_map ≤ s.max_clients)
storage_refines limit calls =
    let (made, h, valid) =
      run_calls-Shows calls (empty limit) (nothing limit) (empty-IsValid limit)
        (Shows-empty limit) in
    (made, h, valid.bounded)
