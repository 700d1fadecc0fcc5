-- ===== src/Networks/Backed.antt =====
-- manager/server/internal/logic/network/network.go: the networks that run are those of the
-- database.
use mathlib.Core.Option.{some-injective, none-ne-some}
use go_vnet.Base.{
  ℕ, ◌≡◌, refl, ap, ◌∙◌, sym, Bool, true, false, Option, none, some, List, [], ◌∷◌, ◌++◌, arith,
  ◌==◌, ==_iff, if◌then◌else◌, find, store, delete, find-store, find-delete, Bool-cases, inl, inr,
}
use go_vnet.Networks.{
  Row, Network, Manager, new_network, register_network, remove_network, stop_running,
  stop_if_running, started, create_network, stopped_or, stop_network, start_row, start_unless,
  start_network, delete_row, delete_found, delete_network, updated, update_row, update_found,
  update_network,
}

-- A network runs only with the address range and MTU that its row has.
abbrev pub IsBacked : Manager → Type 0
IsBacked m =
    (id : ℕ) (n : Network)
    → find id m.networks ≡ some n
    → (row : Row) × (find id m.rows ≡ some row) × (n.cidr ≡ row.cidr) × (n.mtu ≡ row.mtu)

pub data Request : Type 0 where
  creates : Bool → ℕ → Row → Request
  stops : ℕ → Request
  starts : ℕ → Request
  deletes : Bool → ℕ → Request
  updates : Bool → Option ℕ → Option ℕ → Option ℕ → ℕ → Request

abbrev pub serve : (ℕ → Bool) → Request → Manager → Manager
serve valid (creates inserts id row) m = (create_network inserts valid id row m).0
serve valid (stops id) m = (stop_network id m).0
serve valid (starts id) m = (start_network valid id m).0
serve valid (deletes done id) m = (delete_network done id m).0
serve valid (updates done cidr name description id) m =
    (update_network done cidr name description id m).0

abbrev pub run : (ℕ → Bool) → List Request → Manager → Manager
run valid [] m = m
run valid (r ∷ requests) m = run valid requests (serve valid r m)

-- the networks without `id`
Without : ℕ → Manager → Type 0
Without id m = find id m.networks ≡ none

removed-IsBacked :
    (id : ℕ) (m : Manager)
    → IsBacked m
    → IsBacked (remove_network id m) × Without id (remove_network id m)
unfolding remove_network Without
removed-IsBacked id m back =
    let own : (id == id) ≡ true = ground arith in
    (
      λ k n h. elim (Bool-cases (id == k)) [
        | inl same ↦ absurd (
            none-ne-some n (
              sym (ap (λ b. if b then none else find k m.networks) same)
              ∙ sym (find-delete k id m.networks)
              ∙ h))
        | inr other ↦ back k n (
            sym (ap (λ b. if b then none else find k m.networks) other)
            ∙ sym (find-delete k id m.networks)
            ∙ h)
      ],
      find-delete id id m.networks ∙ ap (λ b. if b then none else find id m.networks) own,
    )

stopped-IsBacked :
    (id : ℕ) (o : Option Network) (m : Manager)
    → find id m.networks ≡ o
    → IsBacked m
    → IsBacked (stop_if_running id o m) × Without id (stop_if_running id o m)
unfolding stop_if_running stop_running Without
stopped-IsBacked id none m e back = (back, e)
stopped-IsBacked id (some n) m e back =
    removed-IsBacked id (record m { stopped = n.sessions ++ m.stopped }) back

-- a row that no network stands for may change
rows-IsBacked :
    (id : ℕ) (rows : List (ℕ × Row)) (m : Manager)
    → ((k : ℕ) → (id == k) ≡ false → find k rows ≡ find k m.rows)
    → Without id m
    → IsBacked m
    → IsBacked (record m { rows = rows })
unfolding Without
rows-IsBacked id rows m same absent back k n h = elim (Bool-cases (id == k)) [
  | inl own ↦
      absurd (none-ne-some n (sym absent ∙ ap (λ j. find j m.networks) ((==_iff id k).0 own) ∙ h))
  | inr other ↦ let (row, there, cidr, mtu) = back k n h in (row, same k other ∙ there, cidr, mtu)
]

register-IsBacked :
    (id : ℕ) (row : Row) (n : Network) (m : Manager)
    → find id m.rows ≡ some row
    → (n.cidr ≡ row.cidr) × (n.mtu ≡ row.mtu)
    → IsBacked m
    → IsBacked (record m { networks = store id n m.networks })
register-IsBacked id row n m there (cidr, mtu) back k x h =
    let at = find-store k id n m.networks in
    elim (Bool-cases (id == k)) [
      | inl own ↦
          let same : n ≡ x =
            some-injective _ _
              (sym (at ∙ ap (λ b. if b then some n else find k m.networks) own) ∙ h) in
          (
            row,
            ap (λ j. find j m.rows) (sym ((==_iff id k).0 own)) ∙ there,
            ap (λ y. y.cidr) (sym same) ∙ cidr,
            ap (λ y. y.mtu) (sym same) ∙ mtu,
          )
      | inr other ↦
          back k x (sym (at ∙ ap (λ b. if b then some n else find k m.networks) other) ∙ h)
    ]

started-IsBacked :
    (id : ℕ) (row : Row) (n : Network) (m : Manager)
    → find id m.rows ≡ some row
    → (n.cidr ≡ row.cidr) × (n.mtu ≡ row.mtu)
    → IsBacked m
    → IsBacked (register_network id n m)
unfolding register_network
started-IsBacked id row n m there fits back = elim (Bool-cases (id == 0)) [
  | inl void ↦ rw void back
  | inr named ↦ rw named (register-IsBacked id row n m there fits back)
]

registered-IsBacked :
    (valid : ℕ → Bool) (id : ℕ) (row : Row) (m : Manager)
    → find id m.rows ≡ some row
    → IsBacked m
    → IsBacked (started id (new_network valid row) m).0
unfolding new_network started
registered-IsBacked valid id row m there back = elim (Bool-cases (valid row.cidr)) [
  | inl good ↦ rw good (
      started-IsBacked id row (record { cidr = row.cidr; mtu = row.mtu; sessions = [] }) m there
        (refl, refl) back)
  | inr bad ↦ rw bad back
]

stored_row :
    (id k : ℕ) (row : Row) (rows : List (ℕ × Row))
    → (id == k) ≡ false
    → find k (store id row rows) ≡ find k rows
stored_row id k row rows other =
    find-store k id row rows ∙ ap (λ b. if b then some row else find k rows) other

own_row : (id : ℕ) (row : Row) (rows : List (ℕ × Row)) → find id (store id row rows) ≡ some row
own_row id row rows =
    let own : (id == id) ≡ true = ground arith in
    find-store id id row rows ∙ ap (λ b. if b then some row else find id rows) own

create-IsBacked :
    (inserts : Bool) (valid : ℕ → Bool) (id : ℕ) (row : Row) (m : Manager)
    → Without id m
    → IsBacked m
    → IsBacked (create_network inserts valid id row m).0
unfolding create_network
create-IsBacked false valid id row m absent back = back
create-IsBacked true valid id row m absent back =
    registered-IsBacked valid id row (record m { rows = store id row m.rows })
      (own_row id row m.rows)
      (rows-IsBacked id (store id row m.rows) m (λ k other. stored_row id k row m.rows other) absent
        back)

stop-IsBacked :
    (id : ℕ) (o : Option Network) (m : Manager) → IsBacked m → IsBacked (stopped_or id o m).0
unfolding stopped_or stop_running
stop-IsBacked id none m back = back
stop-IsBacked id (some n) m back =
    (removed-IsBacked id (record m { stopped = n.sessions ++ m.stopped }) back).0

start-IsBacked :
    (valid : ℕ → Bool) (id : ℕ) (o : Option Network) (m : Manager)
    → IsBacked m
    → IsBacked (start_unless valid id o m).0
unfolding start_unless start_row
start-IsBacked valid id (some n) m back = back
start-IsBacked valid id none m back = found (find id m.rows) refl
  where
    found : (r : Option Row) → find id m.rows ≡ r → IsBacked (start_row valid id r m).0
    found none e = back
    found (some row) e = registered-IsBacked valid id row m e back

delete_row-IsBacked :
    (done : Bool) (id : ℕ) (m : Manager)
    → IsBacked m × Without id m
    → IsBacked (delete_row done id m).0
unfolding delete_row
delete_row-IsBacked false id m (back, absent) = back
delete_row-IsBacked true id m (back, absent) =
    rows-IsBacked id (delete id m.rows) m
      (λ k other. find-delete k id m.rows ∙ ap (λ b. if b then none else find k m.rows) other)
      absent back

delete-IsBacked :
    (done : Bool) (id : ℕ) (r : Option Row) (m : Manager)
    → IsBacked m
    → IsBacked (delete_found done id r m).0
unfolding delete_found
delete-IsBacked done id none m back = back
delete-IsBacked done id (some row) m back =
    delete_row-IsBacked done id (stop_if_running id (find id m.networks) m)
      (stopped-IsBacked id (find id m.networks) m refl back)

update_row-IsBacked :
    (done : Bool) (id : ℕ) (row : Row) (m : Manager)
    → IsBacked m × Without id m
    → IsBacked (update_row done id row m).0
unfolding update_row
update_row-IsBacked false id row m (back, absent) = back
update_row-IsBacked true id row m (back, absent) =
    rows-IsBacked id (store id row m.rows) m (λ k other. stored_row id k row m.rows other) absent
      back

update-IsBacked :
    (done : Bool) (cidr name description : Option ℕ) (id : ℕ) (r : Option Row) (m : Manager)
    → IsBacked m
    → IsBacked (update_found done cidr name description id r m).0
unfolding update_found
update-IsBacked done cidr name description id none m back = back
update-IsBacked done cidr name description id (some row) m back =
    update_row-IsBacked done id (updated cidr name description row)
      (stop_if_running id (find id m.networks) m)
      (stopped-IsBacked id (find id m.networks) m refl back)

-- the ids that `uuid` gives are not those of networks that run
abbrev pub AllFresh : (ℕ → Bool) → List Request → Manager → Type 0
AllFresh valid [] m = Unit
AllFresh valid (creates inserts id row ∷ requests) m =
    (find id m.networks ≡ none) × AllFresh valid requests (create_network inserts valid id row m).0
AllFresh valid (stops id ∷ requests) m = AllFresh valid requests (stop_network id m).0
AllFresh valid (starts id ∷ requests) m = AllFresh valid requests (start_network valid id m).0
AllFresh valid (deletes done id ∷ requests) m = AllFresh valid requests (delete_network done id m).0
AllFresh valid (updates done cidr name description id ∷ requests) m =
    AllFresh valid requests (update_network done cidr name description id m).0

-- Whatever networks are created under fresh ids, started, stopped, updated and deleted, one after
-- the other, also where the database fails: if each network that runs has a row with its address
-- range and its MTU before, then so it is after.
pub run-IsBacked :
    (valid : ℕ → Bool) (requests : List Request) (m : Manager)
    → AllFresh valid requests m
    → IsBacked m
    → IsBacked (run valid requests m)
unfolding stop_network start_network delete_network update_network Without
run-IsBacked valid [] m fresh back = back
run-IsBacked valid (creates inserts id row ∷ requests) m (absent, fresh) back =
    run-IsBacked valid requests (create_network inserts valid id row m).0 fresh
      (create-IsBacked inserts valid id row m absent back)
run-IsBacked valid (stops id ∷ requests) m fresh back =
    run-IsBacked valid requests (stop_network id m).0 fresh
      (stop-IsBacked id (find id m.networks) m back)
run-IsBacked valid (starts id ∷ requests) m fresh back =
    run-IsBacked valid requests (start_network valid id m).0 fresh
      (start-IsBacked valid id (find id m.networks) m back)
run-IsBacked valid (deletes done id ∷ requests) m fresh back =
    run-IsBacked valid requests (delete_network done id m).0 fresh
      (delete-IsBacked done id (find id m.rows) m back)
run-IsBacked valid (updates done cidr name description id ∷ requests) m fresh back =
    run-IsBacked valid requests (update_network done cidr name description id m).0 fresh
      (update-IsBacked done cidr name description id (find id m.rows) m back)
