-- ===== src/Tests/Tasks.antt =====
-- The steps of the store's methods on small inputs, and the theorems applied to them.
use ousagi.Commands.{Command, Response, set, cas}
use ousagi.Prelude.{◌≡◌, refl, false, none, some, bytes_eq, arith}
use ousagi.Store.Inner.{new_store}
use ousagi.Store.Items.{new_item, is_expired}
use ousagi.Store.Tasks.{storing, finished, begin, resume}
use ousagi.Store.Tasks.Interleaved.{cas-interleaved}
use ousagi.Store.Tasks.System.{System, step, start, Reach, here, begins, resumes}
use ousagi.Store.Versions.{find_item}
use ousagi.Store.Writes.{store_op}
use ousagi.Tests.Data.{key, set_args, cas_args, item}
use ousagi.Tests.Crates.{roomy_cache}

abbrev set_command : Command
set_command = Command.store set set_args

abbrev cas_command : Command
cas_command = Command.store cas cas_args

-- Connection 0 stores an item, and connections 1 and 2 begin a `cas` with its token.
abbrev s0 : System roomy_cache
s0 = start roomy_cache 1000 1024

abbrev s1 : System roomy_cache
s1 = step roomy_cache 0 (begin roomy_cache set_command s0.store) s0

abbrev s2 : System roomy_cache
s2 = step roomy_cache 0 (resume roomy_cache (s1.tasks 0) s1.store) s1

abbrev s3 : System roomy_cache
s3 = step roomy_cache 1 (begin roomy_cache cas_command s2.store) s2

abbrev s4 : System roomy_cache
s4 = step roomy_cache 2 (begin roomy_cache cas_command s3.store) s3

stored_once : Reach roomy_cache s0 s2
unfolding new_store begin resume store_op
stored_once =
    resumes (begins (here refl) 0 set_command refl (omega arith) refl) 0 (omega arith) refl

both_begun : Reach roomy_cache s2 s4
unfolding new_store begin resume store_op
both_begun =
    begins (begins (here refl) 1 cas_command refl (omega arith) refl) 2 cas_command refl
      (omega arith) refl

item_found : find_item roomy_cache s2.store key ≡ some item
unfolding new_store begin resume store_op bytes_eq new_item
item_found = refl

cas_waits : s4.tasks 2 ≡ storing cas cas_args 1000 none 3
unfolding new_store begin resume store_op
cas_waits = refl

cas_is_stored : (resume roomy_cache (s4.tasks 2) s4.store).0 ≡ finished Response.stored
unfolding new_store begin resume store_op bytes_eq new_item
cas_is_stored = refl

cas-interleaved_example :
    (find_item roomy_cache s4.store key ≡ some item) × (is_expired item 1000 none ≡ false)
cas-interleaved_example =
    cas-interleaved roomy_cache 1000 1024 key item 2 cas_args 1000 none 3 stored_once item_found
      both_begun cas_waits refl refl cas_is_stored
