-- ===== src/Api/Tests.antt =====
-- The theorems of this folder at the requests of Sample.
use netbootd.Prelude.{
  ◌≡◌, ◌≢◌, ◌↔◌, none, In, refl, true, some, List, [], ◌∷◌, Bytes, bytes, make, str_eq, get, put,
}
use netbootd.GoStd.Ip.{Ip, to16}
use netbootd.GoStd.Strings.{contains}
use netbootd.Manifest.Defs.{Manifest}
use netbootd.Manifest.HardwareAddr.{HardwareAddr}
use netbootd.Store.Defs.{
  put_manifest, Store, Ptr, new_store, put_indexed, find, find_by_ip, find_by_mac,
}
use netbootd.Store.Invariant.{new_store-IsWellFormed}
use netbootd.Api.Defs.{
  Request, reply, forbidden, encoded, at, self_address, self_manifest_at, get_manifests,
  suspend_boot, self_manifest, all_manifests, manifest_put, self_suspend, handle, query_first,
}
use netbootd.Api.Sample.{machine, env, request, empty}
use netbootd.Api.Access.{IsOwnBoot, handle_unauthorised, handle_anonymous, self_manifest_leaks}
use netbootd.Api.Table.{
  contents, Method, get_method, put_method, delete_method, store_answers, table_answers,
}
use netbootd.Api.Listing.{In-all_manifests_iff}
use netbootd.Store.Steps.{System, Step, Reach, here, next, start}
use netbootd.Api.Refines.{store_answers-eq-table_answers}
use netbootd.Api.Effects.{suspend_boot_shared}

abbrev one : Store
one = put_indexed empty machine

handle_unauthorised_example : handle manifest_put env (request "") one ≡ (forbidden, one)
handle_unauthorised_example = handle_unauthorised manifest_put env (request "") one refl (cc)

handle_anonymous_example :
    IsOwnBoot env (request "") one (handle self_suspend env (request "") one).1
handle_anonymous_example = handle_anonymous self_suspend env (request "") one (cc)

found : self_manifest_at env (request "") one ≡ at 0
unfolding self_manifest_at self_address query_first find_by_ip put_indexed new_store get put to16
    str_eq make
found = refl

listed : get_manifests env (request "secret") one ≡ (reply 200 (bytes "text/yaml") (bytes "x"), one)
unfolding get_manifests encoded contains str_eq
listed = refl

self_manifest_leaks_example :
    self_manifest env (request "") one ≡ (reply 200 (bytes "text/yaml") (bytes "x"), one)
self_manifest_leaks_example =
    self_manifest_leaks env (request "") one 0 (bytes "text/yaml") (bytes "x") found listed

suspend_boot_shared_example :
    ((suspend_boot env (request "") one).1.heap.cell 0
      ≡ record (one.heap.cell 0) { suspended = true })
    × ((q : Ptr) → q ≢ 0 → (suspend_boot env (request "") one).1.heap.cell q ≡ one.heap.cell q)
    × ((id : Bytes) → find (suspend_boot env (request "") one).1 id ≡ find one id)
    × ((ip : Ip) → find_by_ip (suspend_boot env (request "") one).1 ip ≡ find_by_ip one ip)
    × ((mac : HardwareAddr)
        → find_by_mac (suspend_boot env (request "") one).1 mac ≡ find_by_mac one mac)
suspend_boot_shared_example = suspend_boot_shared env (request "") one 0 found

abbrev table_calls : List (Method × Request)
table_calls =
    (put_method, request "secret")
    ∷ (get_method, request "secret")
    ∷ (delete_method, request "")
    ∷ (delete_method, request "secret")
    ∷ (get_method, request "secret")
    ∷ []

store_answers-eq-table_answers_example :
    store_answers env empty table_calls ≡ table_answers env (contents empty) table_calls
store_answers-eq-table_answers_example =
    store_answers-eq-table_answers env empty table_calls
      (new_store-IsWellFormed (record { persistence_directory = [] }) (λ _. machine))

abbrev listed_system : System
listed_system = record { store = (put_manifest empty machine).1; waiting = λ _. none }

listed_run : Reach (start (record { persistence_directory = [] }) (λ _. machine)) listed_system
listed_run = next here (Step.put machine)

In-all_manifests_iff_example :
    In {A = Bytes × Manifest} (bytes "a", machine) (all_manifests listed_system.store)
    ↔ (contents listed_system.store (bytes "a") ≡ some machine)
In-all_manifests_iff_example =
    In-all_manifests_iff (record { persistence_directory = [] }) (λ _. machine) (bytes "a") machine
      listed_run
