-- ===== src/Create/Limits.antt =====
-- vm_create.go beside monitor.go: how long a creation may take, and what a failed disk leaves.
use open_v_center_agent_hype.Base.{
  true, ℕ, suc, ◌<◌, ◌≡◌, refl, Bool, Option, some, List, [], ◌∷◌, arith, eq_iff, ◌≢◌, none,
}
use open_v_center_agent_hype.Queue.Monitor.{get_timeout_for_task}
use open_v_center_agent_hype.Create.{
  VmCreateDisk, VmCreatePayload, disk_timeout, disks_timeout, vm_create_timeout, CreateError,
  disk_failed, Site, create_disks, check_sizes, check_disk_space, or_else, total_size,
  check_payload, run_scripts, unless, prepare_vm, World,
}

-- A disk of the machine that is to be filled, of more than that size.
pub data HasFixed (size : ℕ) : List VmCreateDisk → Type 0 where
  here :
      {d : VmCreateDisk} {ds : List VmCreateDisk}
      → d.disk_type ≡ "Fixed"
      → size < d.size
      → HasFixed size (d ∷ ds)
  there : {d : VmCreateDisk} {ds : List VmCreateDisk} → HasFixed size ds → HasFixed size (d ∷ ds)

disks_timeout-HasFixed :
    {size : ℕ} {ds : List VmCreateDisk} → HasFixed size ds → size < disks_timeout ds
unfolding disk_timeout
disks_timeout-HasFixed (here {d} f l) = ground (arith, eq_iff d.disk_type "Fixed")
disks_timeout-HasFixed (there h) = ground (arith, disks_timeout-HasFixed h)

kill_after : (t : ℕ) → get_timeout_for_task t "vm_create" "" ≡ 1800
unfolding get_timeout_for_task
kill_after t = refl

-- A creation with a fixed disk of more than 168 GB gives itself more time than the monitor gives its
-- worker.
vm_create_timeout-exceeds :
    (t : ℕ) (p : VmCreatePayload)
    → HasFixed 1680 p.disks
    → get_timeout_for_task t "vm_create" "" < vm_create_timeout p
unfolding vm_create_timeout
vm_create_timeout-exceeds t p h = ground (arith, kill_after t, disks_timeout-HasFixed h)

create_disks-folder :
    (makes : ℕ → Bool) (i : ℕ) (ds : List VmCreateDisk) (site : Site)
    → (create_disks makes i ds site).0.has_folder ≡ site.has_folder
unfolding create_disks
create_disks-folder makes i [] site = refl
create_disks-folder makes i (d ∷ ds) site =
    ground (arith, create_disks-folder makes (suc i) ds (record site { vhds = suc site.vhds }))

check_sizes-not_disk : (i k : ℕ) (ds : List VmCreateDisk) → check_sizes i ds ≢ some (disk_failed k)
unfolding check_sizes
check_sizes-not_disk i k [] e = ground (arith, e)
check_sizes-not_disk i k (d ∷ ds) e = ground (arith, e, check_sizes-not_disk (suc i) k ds)

check_space-not_disk :
    (free : Option ℕ) (total k : ℕ) → check_disk_space free total ≢ some (disk_failed k)
unfolding check_disk_space
check_space-not_disk none total k e = ground (arith, e)
check_space-not_disk (some free) total k e = ground (arith, e)

or_else-not_disk :
    (a b : Option CreateError) (k : ℕ)
    → a ≢ some (disk_failed k)
    → b ≢ some (disk_failed k)
    → or_else a b ≢ some (disk_failed k)
or_else-not_disk (some e) b k h g = h
or_else-not_disk none b k h g = g

check_payload-not_disk :
    (w : World) (p : VmCreatePayload) (k : ℕ) → check_payload w p ≢ some (disk_failed k)
unfolding check_payload
check_payload-not_disk w p k e = ground (
  arith,
  e,
  or_else-not_disk (check_sizes 0 p.disks) (check_disk_space w.free_space (total_size p.disks)) k
      (check_sizes-not_disk 0 k p.disks) (check_space-not_disk w.free_space (total_size p.disks) k),
)

run_scripts-folder :
    (w : World) (p : VmCreatePayload) (site : Site) (k : ℕ)
    → (run_scripts w p site).1 ≡ some (disk_failed k)
    → (run_scripts w p site).0.has_folder ≡ true
unfolding run_scripts
run_scripts-folder w p site k e =
    ground
      (arith, e, create_disks-folder w.makes_disk 0 p.disks (record site { has_folder = true }))

prepare_vm-folder :
    (w : World) (p : VmCreatePayload) (site : Site) (k : ℕ) (c : Option CreateError)
    → c ≢ some (disk_failed k)
    → (unless c site (run_scripts w p site)).1 ≡ some (disk_failed k)
    → (unless c site (run_scripts w p site)).0.has_folder ≡ true
prepare_vm-folder w p site k none n e = run_scripts-folder w p site k e
prepare_vm-folder w p site k (some x) n e = absurd (n e)

-- A creation on a host that holds the folder fails and changes nothing.
blocked :
    (w : World) (p : VmCreatePayload) (site : Site) (c : Option CreateError)
    → site.has_folder ≡ true
    → ((unless c site (run_scripts w p site)).1 ≢ none)
      × ((unless c site (run_scripts w p site)).0 ≡ site)
unfolding run_scripts
blocked w p site (some x) h = ((λ e. ground (arith, e)), refl)
blocked w p site none h = ((λ e. ground (arith, e)), ground arith)

-- When a disk of a machine cannot be made, every later creation of that name in that folder fails too
-- and changes nothing: the folder of the first one is still there.
prepare_vm-blocks :
    (w again : World) (p q : VmCreatePayload) (site : Site) (k : ℕ)
    → (prepare_vm w p site).1 ≡ some (disk_failed k)
    → ((prepare_vm again q (prepare_vm w p site).0).1 ≢ none)
      × ((prepare_vm again q (prepare_vm w p site).0).0 ≡ (prepare_vm w p site).0)
unfolding prepare_vm
prepare_vm-blocks w again p q site k e =
    blocked again q _ (check_payload again q)
      (prepare_vm-folder w p site k (check_payload w p) (check_payload-not_disk w p k) e)
