-- ===== src/Acl/Manager.antt =====
-- matter/src/acl.rs: `AclMgr`. The lock around the entries is taken and released within each call
-- and never poisoned. `psm` is the persistent store, where there is one: what `store` answers for
-- the entries that it is given; its writing is part of the world outside.
pub mod Laws
pub mod Granting
use matter_rs.Base.{
  ℕ, zero, suc, ◌*◌, Bool, true, false, leb, ◌==◌, if◌then◌else◌, List, [], ◌∷◌, replicate, set,
  map, Option, some, none, is_none, opt_eq, Result, ok, err, panic, no_space, not_found,
}
use matter_rs.Base.Exec.{Exec}
use matter_rs.Base.Search.{position, count}
use matter_rs.Base.Flags.{Bitflags}
use matter_rs.Acl.Entry.{AclEntry, AccessReq, AuthMode, pase, auth_eq}
use matter_rs.Acl.Entry

abbrev pub entries_per_fabric : ℕ
entries_per_fabric = 3

abbrev pub max_acl_entries : ℕ
max_acl_entries = entries_per_fabric * 3

abbrev pub Entries : Type 0
Entries = List (Option AclEntry)

abbrev pub Psm : Type 0
Psm = Option (Entries → Result (Unit {0}))

unfoldable pub empty : Entries
empty = replicate max_acl_entries none

-- `new_with`: without a store, where there is none to be had, or with what is loaded from it.
unfoldable pub new_with : Option (Result (Result Entries)) → Result Entries
unfolding empty
new_with none = ok empty
new_with (some (ok (ok entries))) = ok entries
new_with (some (ok (err e))) = ok empty
new_with (some (ok panic)) = panic
new_with (some (err e)) = err e
new_with (some panic) = panic

-- The end of each call that changes the entries.
abbrev pub store : Psm → Entries → Result (Unit {0}) × Entries
store none entries = (ok tt, entries)
store (some psm) entries = (psm entries, entries)

-- A slot that an entry of the fabric is in.
unfoldable pub is_of : Option ℕ → Option AclEntry → Bool
is_of fab_idx none = false
is_of fab_idx (some e) = opt_eq e.fab_idx fab_idx

unfoldable pub erase_all : Psm → Entries → Entries
erase_all psm entries = (store psm (map (λ e. none) entries)).1

unfoldable pub add : Psm → AclEntry → Exec Entries (Unit {0})
unfolding count position is_of
add psm entry entries =
    if leb entries_per_fabric (count (is_of entry.fab_idx) entries)
    then (err no_space, entries)
    else (elim (position is_none entries) [
      | none ↦ (err no_space, entries)
      | some index ↦ store psm (set entries index (some entry))
    ])

abbrev pub shift : Option ℕ → Option ℕ
shift none = none
shift (some i) = some (suc i)

-- `for_index_in_fabric`: the place of the fabric's entry with this index.
unfoldable pub for_index_in_fabric : ℕ → ℕ → Entries → Option ℕ
unfolding is_of
for_index_in_fabric index fab_idx [] = none
for_index_in_fabric zero fab_idx (e ∷ es) =
    if is_of (some fab_idx) e then some 0 else shift (for_index_in_fabric zero fab_idx es)
for_index_in_fabric (suc index) fab_idx (e ∷ es) =
    if is_of (some fab_idx) e
    then shift (for_index_in_fabric index fab_idx es)
    else shift (for_index_in_fabric (suc index) fab_idx es)

abbrev pub put : Psm → ℕ → ℕ → Option AclEntry → Exec Entries (Unit {0})
put psm index fab_idx new entries = elim (for_index_in_fabric index fab_idx entries) [
  | none ↦ (err not_found, entries)
  | some i ↦ store psm (set entries i new)
]

unfoldable pub edit : Psm → ℕ → ℕ → AclEntry → Exec Entries (Unit {0})
unfolding for_index_in_fabric
edit psm index fab_idx new entries = put psm index fab_idx (some new) entries

unfoldable pub delete : Psm → ℕ → ℕ → Exec Entries (Unit {0})
unfolding for_index_in_fabric
delete psm index fab_idx entries = put psm index fab_idx none entries

unfoldable pub delete_for_fabric : Psm → ℕ → Exec Entries (Unit {0})
unfolding is_of
delete_for_fabric psm fab_idx entries =
    store psm (map (λ e. if is_of (some fab_idx) e then none else e) entries)

-- A call that changes the entries.
pub data Call : Type 0 where
  adds : AclEntry → Call
  edits : ℕ → ℕ → AclEntry → Call
  deletes : ℕ → ℕ → Call
  deletes_fabric : ℕ → Call
  erases : Call

unfoldable pub call : Psm → Call → Entries → Entries
unfolding add edit delete delete_for_fabric erase_all
call psm (adds e) entries = (add psm e entries).1
call psm (edits index fab_idx e) entries = (edit psm index fab_idx e entries).1
call psm (deletes index fab_idx) entries = (delete psm index fab_idx entries).1
call psm (deletes_fabric fab_idx) entries = (delete_for_fabric psm fab_idx entries).1
call psm erases entries = erase_all psm entries

-- The entries after a history of calls, the latest call first.
unfoldable pub after : Psm → List Call → Entries → Entries
after psm [] entries = entries
after psm (c ∷ cs) entries = call psm c (after psm cs entries)

module _ ⦃bf : Bitflags⦄ where
  -- The loop of `allow`.
  unfoldable pub any_allows : AccessReq → Entries → Bool
  unfolding Entry.allow
  any_allows req [] = false
  any_allows req (none ∷ es) = any_allows req es
  any_allows req (some e ∷ es) = if Entry.allow req e then true else any_allows req es

  unfoldable pub allow : AccessReq → Entries → Bool
  unfolding any_allows
  allow req entries =
      let accessor = req.accessor in
      if auth_eq accessor.auth_mode pase then true else any_allows req entries
