-- ===== src/Index/Rebuild.antt =====
-- The locations-only rebuild of the in-memory catalog, crates/reflink-forest-index/src/lib.rs.
pub mod Append
pub mod Protocol
use gitdb.Base.{Bool, true, false, not, ◌||◌, Option, none, some, List, [], ◌∷◌, if◌then◌else◌}
use gitdb.Base.Result.{Result, ok, err, panic, ◌>>=◌, ◌>>◌, reject_if, committed}
use gitdb.Base.Table.{Table, ◌=?◌, get, insert}
use gitdb.Core.{ContentId}
use gitdb.Index.{
  CatalogError, rebuild_in_progress, rebuild_not_in_progress, duplicate_rebuilt_location,
  ObjectLocation, ObjectLocationEntry, InMemoryCatalog, content_id_Eq,
}

-- `begin_object_location_rebuild`, `restart_object_location_rebuild`
unfoldable pub begin_rebuild : InMemoryCatalog → InMemoryCatalog × Result CatalogError (Unit {0})
begin_rebuild c =
    if c.rebuilding
    then (c, err rebuild_in_progress)
    else (record c { objects = []; rebuilding = true }, ok tt)

unfoldable pub restart_rebuild : InMemoryCatalog → InMemoryCatalog × Result CatalogError (Unit {0})
restart_rebuild c =
    if not c.rebuilding
    then (c, err rebuild_not_in_progress)
    else (record c { objects = [] }, ok tt)

-- `HashSet::contains` and `HashMap::contains_key`
unfoldable pub contains : ContentId → List ContentId → Bool
contains id [] = false
contains id (x ∷ xs) = x =? id || contains id xs

abbrev is_some : Option ObjectLocation → Bool
is_some none = false
is_some (some _) = true

-- The first loop of `append_rebuilt_object_locations`: `seen` are the IDs that it has passed.
unfoldable pub check_new :
    List ObjectLocationEntry
    → List ContentId
    → Table ContentId ObjectLocation
    → Result CatalogError (Unit {0})
unfolding contains
check_new [] seen objects = ok tt
check_new (entry ∷ entries) seen objects =
    reject_if (contains entry.content_id seen || is_some (get entry.content_id objects))
      (duplicate_rebuilt_location entry.content_id)
    >> check_new entries (entry.content_id ∷ seen) objects

-- The second loop
unfoldable pub insert_entries :
    List ObjectLocationEntry → Table ContentId ObjectLocation → Table ContentId ObjectLocation
insert_entries [] objects = objects
insert_entries (entry ∷ entries) objects =
    insert_entries entries (insert entry.content_id entry.location objects)

-- `append_rebuilt_object_locations`
unfoldable pub append_rebuilt :
    InMemoryCatalog → List ObjectLocationEntry → InMemoryCatalog × Result CatalogError (Unit {0})
append_rebuilt c entries = committed c do
  reject_if (not c.rebuilding) rebuild_not_in_progress
  check_new entries [] c.objects
  ok (record c { objects = insert_entries entries c.objects })

-- `finish_object_location_rebuild`
unfoldable pub finish_rebuild : InMemoryCatalog → InMemoryCatalog × Result CatalogError (Unit {0})
finish_rebuild c =
    if not c.rebuilding
    then (c, err rebuild_not_in_progress)
    else (record c { rebuilding = false }, ok tt)
